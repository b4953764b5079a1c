-- ===== src/Ssh/Commands.antt =====
-- `run_command`, `_finish_exec` and `_writer_stuck` of simple_network_dashboard/ssh_manager.py.
use mathlib.Core.Option
use simple_network_dashboard.Terminal.Writer
use simple_network_dashboard.Prelude.{
  ℕ, String, Bool, true, false, not, ◌&&◌, ◌||◌, Option, none, some, List, [], ◌∷◌, reverse, leb,
  if◌then◌else◌, is_nil, string_eq, nat_eq, ◌==◌,
}
use simple_network_dashboard.Terminal.Size.{Integer, clamp_size}
use simple_network_dashboard.Terminal.History.{empty_history}
use simple_network_dashboard.Ssh.Session.{SessionState, connected, Session}
use simple_network_dashboard.Ssh.Manager.{
  connected_again, close_channel, start_worker, Manager, write_session, do_effect, slot, is_current,
  status, owner_reset,
}

-- `s.isspace()` of one character
is_space : ℕ → Bool
is_space c =
    leb 9 c && leb c 13
    || leb 28 c && leb c 32
    || c == 0x85
    || c == 0xa0
    || c == 0x1680
    || leb 0x2000 c && leb c 0x200a
    || c == 0x2028
    || c == 0x2029
    || c == 0x202f
    || c == 0x205f
    || c == 0x3000

lstrip : List ℕ → List ℕ
lstrip [] = []
lstrip (c ∷ cs) = let rest = lstrip cs in if is_space c then rest else c ∷ cs

-- `s.strip()`
unfoldable pub strip : List ℕ → List ℕ
unfolding is_space lstrip
strip s = reverse (lstrip (reverse (lstrip s)))

unfoldable pub is_connected : SessionState → Bool
is_connected connected = true
is_connected _ = false

pub data RunResult : Type 0 where
  not_connected not_owner empty_command already_running : RunResult
  started : String → RunResult

-- `label or "Custom command"`
pub or_custom : Option String → String
or_custom none = "Custom command"
or_custom (some label) = if label == "" then "Custom command" else label

-- the assignments that reserve the run
unfoldable pub run_reserved : Session → String → String → ℕ × ℕ → ℕ → Session
run_reserved s label run_id size now = record s {
  busy = true;
  cancelled = false;
  cancel_requested = false;
  forced = false;
  writer_stuck = false;
  stop_timer = false;
  run_id = some run_id;
  controller = none;
  control_rev = 0;
  auth_complete = false;
  last_io = now;
  history = some empty_history;
  label = some label;
  sent_seq = 0;
  acked_seq = 0;
  sent_bytes = [];
  ack_progress_at = now;
  ack_stalled = false;
  size = some size;
}

unfoldable pub not_owned_by : Option String → String → Bool
not_owned_by none owner = false
not_owned_by (some o) owner = not (owner == o)

-- `run_command`; `run_id` is the new random identifier
unfoldable pub run_command :
    Manager
    → String
    → List ℕ
    → Option String
    → Option String
    → Option Integer
    → Option Integer
    → String
    → ℕ
    → Manager × RunResult
unfolding write_session do_effect not_owned_by is_connected or_custom
run_command m did raw_cmd label owner cols rows run_id now = elim (slot m did) [
  | none ↦ (m, not_connected)
  | some g ↦
      let s = m.heap g in
      let s' = run_reserved s (or_custom label) run_id (clamp_size cols rows) now in
      if not (is_connected s.state)
      then (m, not_connected)
      else if not_owned_by owner s.owner
      then (m, not_owner)
      else if is_nil (strip raw_cmd)
      then (m, empty_command)
      else if s.busy
      then (m, already_running)
      else (do_effect (write_session m g s') (start_worker g run_id), started run_id)
]

-- what `_finish_exec` does to a session object, current or not
unfoldable pub stopped : Session → Session
stopped s = record s { writer = Option.map Writer.close s.writer; stop_timer = false }

-- the assignments to the current session
unfoldable pub released : Session → Session
released s = record s {
  busy = false;
  channel = none;
  run_id = none;
  writer = none;
  history = none;
  label = none;
}

-- `_finish_exec`
unfoldable pub finish_exec : Manager → ℕ → ℕ → Manager
unfolding write_session is_current owner_reset status stopped released
finish_exec m g now =
    let s = m.heap g in
    let did = s.device_id in
    let idle_again = owner_reset (write_session m g (released (stopped s))) s.owner now in
    if is_current m did g
    then status idle_again did connected_again none (some g)
    else write_session m g (stopped s)

unfoldable pub same_run : Option String → Option String → Bool
same_run none none = true
same_run (some a) (some b) = a == b
same_run _ _ = false

unfoldable pub same_channel : Option ℕ → ℕ → Bool
same_channel none c = false
same_channel (some b) c = b == c

-- `_writer_stuck`
unfoldable pub writer_is_stuck : Manager → String → ℕ → Option String → ℕ → Manager
unfolding write_session is_current do_effect same_run same_channel
writer_is_stuck m did g run_id channel =
    let s = m.heap g in
    let s' = record s { cancelled = true; forced = true; writer_stuck = true } in
    if is_current m did g && same_run s.run_id run_id && same_channel s.channel channel
    then do_effect (write_session m g s') (close_channel channel)
    else m
