-- ===== src/Lib.antt =====
-- Simple Network Dashboard is a web application that shows the state of network devices and runs
-- saved commands on them over SSH. This library models the Python server's core: the life of SSH
-- sessions, the terminal of a running command, and the hand-over of messages to the browsers.
--
-- The parts and their files:
--   * Prelude: shared names, Boolean tests, list lemmas, equality as an interface (`Eq`), and
--     Python's dictionaries as association lists (Prelude/Maps).
--   * Config: the constants of simple_network_dashboard/config.py and of ssh_manager.py. Times are
--     in milliseconds, and clock readings are natural numbers.
--   * Terminal/History: `TerminalHistory` of simple_network_dashboard/terminal_history.py, the text
--     that a page shows again after a refresh; `feed` is the method of that name, `dispatch` the
--     branches of `_feed_char`. Terminal/History/Budget is `trim_to_budget`.
--   * Terminal/Size, Terminal/Gate, Terminal/Batcher, Terminal/Writer: `clamp_size`, `SudoGate`,
--     `OutputBatcher` and `TerminalWriter` of simple_network_dashboard/terminal_run.py. Characters
--     and bytes are natural numbers. The incremental decoder, the clock and what a channel's `send`
--     does are arguments.
--   * Delivery: `DeliveryQueue` of simple_network_dashboard/delivery_queue.py. Worker threads push,
--     the event loop drains; each section under the queue's condition is one step, and an
--     interleaving is a list of steps.
--   * Ssh/Session, Ssh/Manager: `_Session` of simple_network_dashboard/ssh_session.py and the state
--     of `SSHManager` of simple_network_dashboard/ssh_manager.py: a heap of session objects, named
--     by their generations, and one slot for each device. What a method sends or closes is listed
--     in `effects`.
--   * Ssh/Connect, Ssh/Close, Ssh/HostKeys, Ssh/Commands, Ssh/Idle, Ssh/Owners: the manager's
--     methods. `connect` is three steps, since its network part runs with no lock held.
--   * Ssh/Control: simple_network_dashboard/terminal_control.py, what a browser tab may do to a run.
--   * Sockets: `_WSManager` of simple_network_dashboard/ws_manager.py, the browsers' sockets with what
--     waits to be sent to each (Sockets/Queue, Sockets/Order) and to whom it goes (Sockets/Owners).
--   * SignIn/Throttle, SignIn/Store: `LoginThrottle` and `SessionStore` of
--     simple_network_dashboard/session_manager.py. The digest of a token is a parameter; whether the
--     file can be read and how its replacement ends are arguments.
--   * Storage: `_load_startup_devices` and `_save` of simple_network_dashboard/persistence.py, the two
--     copies of the device list. Parsing and printing are parameters, and how a write ends is an
--     argument.
--   * Inventory: the routes `delete_device` and `retry_recovery` of simple_network_dashboard/main.py,
--     which act on storage, sockets and SSH sessions together.
--   * Text: the methods of Python's `str` that the program uses, on code points.
--   * Metrics: simple_network_dashboard/metrics_poller.py, from the text format of an exporter
--     (Labels, Lines) to the choice of the address (Target), the fetch (Fetch) and the list of disks
--     (Disks). Reading a label block takes as much fuel as the text is long, which is enough, since
--     every round takes something of it.
--   * Http: the two middlewares of simple_network_dashboard/main.py, its routes `login` and `logout`
--     (Login), and the start and end of `ws_endpoint` with `_release_after_grace` (Presence), on the
--     session file, the throttle, the sockets and the SSH sessions together; and `_parse_port` (Port).
--   * Inventory/Changes and Inventory/Norm: the routes `upsert_device` and `update_commands`, and
--     `_norm` of simple_network_dashboard/persistence.py for devices whose fields have the types of
--     the models.
--   * DebugLog: simple_network_dashboard/debug_log.py and the route `toggle_debug`, without the text
--     of the lines.
--   * Account: simple_network_dashboard/auth.py, from the shape of the password state and the
--     password rules (Password) to `publish_auth_state`, `_initialize` and `_reset` (Reset).
--   * Polling: `_log_metrics_result` and `_poll_once` of simple_network_dashboard/main.py.
--   * UpdateCheck: simple_network_dashboard/update_check.py without its request.
--   * Terminal/Reader: `read_channel` of simple_network_dashboard/terminal_run.py, over the gate and
--     the batcher. The loop is given the rounds it makes, and whether it goes on after them.
--   * Ssh/Invariant: what holds of the manager between any two locked sections. Requests has the steps
--     that are made on behalf of an owner, Unowned what is done to sessions of any owner.
--
-- The session manager writes to a run through the run's writer, keeps its output in a history, and
-- sends messages through the delivery queue; a message stamped with a generation is delivered only
-- while the device's slot holds that session.
--
-- Fuel: the loop of `SudoGate.feed` and the reading of a label block run on fuel. The first takes a
-- second round at most, since a second request of the password ends it, so two rounds are enough,
-- and it is a theorem that it always gives an answer. The second is given more than the length of
-- the text, and it is a theorem that this is enough. All other loops are structural recursion; that
-- of `read_channel` is over the rounds that it makes.
--
-- Not modelled: the routes of simple_network_dashboard/main.py that only pass a request on, its
-- response headers and cookies; the values other than disks that metrics_poller.py of the same folder
-- extracts, which are floating-point arithmetic; what `_exec` does between the start and the end of a run, of
-- which only is said that it assigns to fields of its session; the SSH, web and Argon2 libraries; the
-- text of lines and messages, which has no effect on the state; and the pages in the browser.
pub mod Prelude
pub mod Config
pub mod Terminal
pub mod Delivery
pub mod Device
pub mod Ssh
pub mod Sockets
pub mod SignIn
pub mod Storage
pub mod Inventory
pub mod Text
pub mod Metrics
pub mod Http
pub mod DebugLog
pub mod Account
pub mod Polling
pub mod UpdateCheck
