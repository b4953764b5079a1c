-- ===== src/Config.antt =====
-- simple_network_dashboard/config.py, and the constants at the head of ssh_manager.py and
-- session_manager.py. Times are whole milliseconds.
use simple_network_dashboard.Prelude.{ℕ, ◌*◌, String, List, [], ◌∷◌}

-- simple_network_dashboard/terminal_history.py
abbrev pub term_history_max_lines : ℕ
term_history_max_lines = 1500

abbrev pub term_history_max_line_chars : ℕ
term_history_max_line_chars = 4096

abbrev pub term_init_history_max_chars : ℕ
term_init_history_max_chars = 1048576

-- simple_network_dashboard/terminal_run.py
abbrev pub term_batch_interval : ℕ
term_batch_interval = 30

abbrev pub term_batch_max_chars : ℕ
term_batch_max_chars = 32768

abbrev pub term_default_cols : ℕ
term_default_cols = 120

abbrev pub term_default_rows : ℕ
term_default_rows = 30

abbrev pub term_min_cols : ℕ
term_min_cols = 20

abbrev pub term_max_cols : ℕ
term_max_cols = 500

abbrev pub term_min_rows : ℕ
term_min_rows = 5

abbrev pub term_max_rows : ℕ
term_max_rows = 200

abbrev pub term_pending_input_max_bytes : ℕ
term_pending_input_max_bytes = 65536

-- simple_network_dashboard/delivery_queue.py and ws_manager.py
abbrev pub delivery_queue_max_bytes : ℕ
delivery_queue_max_bytes = 4194304

abbrev pub delivery_queue_max_items : ℕ
delivery_queue_max_items = 4096

abbrev pub socket_queue_max_bytes : ℕ
socket_queue_max_bytes = 4194304

-- simple_network_dashboard/ssh_manager.py
abbrev pub idle_warn_seconds : ℕ
idle_warn_seconds = 270 * 1000

abbrev pub idle_timeout_seconds : ℕ
idle_timeout_seconds = 300 * 1000

abbrev pub host_key_pending_seconds : ℕ
host_key_pending_seconds = 300 * 1000

abbrev pub term_silence_seconds : ℕ
term_silence_seconds = 1800 * 1000

abbrev pub term_unacked_max_bytes : ℕ
term_unacked_max_bytes = 512 * 1024

abbrev pub term_ack_stall_seconds : ℕ
term_ack_stall_seconds = 20 * 1000

abbrev pub term_input_max_chars : ℕ
term_input_max_chars = 16384

-- simple_network_dashboard/metrics_poller.py
abbrev pub metrics_max_response_bytes : ℕ
metrics_max_response_bytes = 5 * 1024 * 1024

-- simple_network_dashboard/main.py
abbrev pub max_request_body_bytes : ℕ
max_request_body_bytes = 1048576

abbrev pub public_paths : List String
public_paths =
    "/login" ∷ "/api/auth/login" ∷ "/api/auth/session" ∷ "/certificate-setup"
    ∷ "/certificate-setup/caddy-root-ca.crt" ∷ []

abbrev pub unsafe_methods : List String
unsafe_methods = "POST" ∷ "PUT" ∷ "PATCH" ∷ "DELETE" ∷ []

abbrev pub max_devices : ℕ
max_devices = 250

abbrev pub metrics_error_summary : ℕ
metrics_error_summary = 5 * 60 * 1000
