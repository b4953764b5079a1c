-- ===== src/Ssh/Session.antt =====
-- `_Session` of simple_network_dashboard/ssh_session.py, and the messages for a failed connect.
use simple_network_dashboard.Prelude.{
  ℕ, String, Bool, true, false, not, ◌&&◌, Option, none, some, List, [], ◌∷◌, if◌then◌else◌, is_nil,
  ◌==◌, nat_eq, Dict,
}
use simple_network_dashboard.Device.{Device}
use simple_network_dashboard.Terminal.Writer.{Writer}
use simple_network_dashboard.Terminal.History.{History}

pub data SessionState : Type 0 where
  connecting connected host_key_pending closed : SessionState

pub record Session : Type 0 where
  pub device : Device
  pub device_id : String
  pub password : Option String
  -- whether `client` holds an open SSH client
  pub client : Bool
  pub busy : Bool
  pub channel : Option ℕ
  pub run_id : Option String
  pub cancelled : Bool
  pub cancel_requested : Bool
  pub owner : String
  pub state : SessionState
  pub generation : ℕ
  pub last_io : ℕ
  pub writer : Option Writer
  pub controller : Option String
  pub control_rev : ℕ
  pub auth_complete : Bool
  -- `cols` and `rows`
  pub size : Option (ℕ × ℕ)
  -- whether a stop timer has been started
  pub stop_timer : Bool
  pub forced : Bool
  pub writer_stuck : Bool
  pub history : Option History
  pub label : Option String
  pub sent_seq : ℕ
  pub sent_bytes : Dict ℕ ℕ
  pub acked_seq : ℕ
  pub ack_progress_at : ℕ
  pub ack_stalled : Bool

-- `_Session(device, password, owner, device_id)` with the generation that the manager gives it
unfoldable pub new_session : Device → String → String → String → ℕ → ℕ → Session
new_session device password owner device_id generation now = record {
  device = device;
  device_id = device_id;
  password = some password;
  client = false;
  busy = false;
  channel = none;
  run_id = none;
  cancelled = false;
  cancel_requested = false;
  owner = owner;
  state = connecting;
  generation = generation;
  last_io = now;
  writer = none;
  controller = none;
  control_rev = 0;
  auth_complete = false;
  size = none;
  stop_timer = false;
  forced = false;
  writer_stuck = false;
  history = none;
  label = none;
  sent_seq = 0;
  sent_bytes = [];
  acked_seq = 0;
  ack_progress_at = now;
  ack_stalled = false;
}

-- what `close` leaves of a session
unfoldable pub wiped : Session → Session
wiped s = record s { client = false; channel = none; password = none; history = none }

-- the three assignments that retire a session
unfoldable pub retired : Session → Session
retired s = record s { state = closed; cancelled = true; cancel_requested = true }

-- The exceptions of a connect that `_connect_error_message` tells apart. NoValidConnectionsError
-- carries the error number of each address, if there is one.
pub data ConnectError : Type 0 where
  gaierror timeout_error connection_refused : ConnectError
  no_valid_connections : List (Option ℕ) → ConnectError
  ssh_exception other_error : ConnectError

pub data ErrorMessage : Type 0 where
  address_not_found no_response refused handshake_failed could_not_connect : ErrorMessage

-- errno.ECONNREFUSED on Linux
abbrev econnrefused : ℕ
econnrefused = 111

all_refused : List (Option ℕ) → Bool
all_refused [] = true
all_refused (none ∷ es) = false
all_refused (some e ∷ es) = e == econnrefused && all_refused es

-- `_connect_error_message`; NoValidConnectionsError is an OSError and no SSHException
pub connect_error_message : ConnectError → ErrorMessage
unfolding all_refused
connect_error_message gaierror = address_not_found
connect_error_message timeout_error = no_response
connect_error_message connection_refused = refused
connect_error_message (no_valid_connections es) =
    if not (is_nil es) && all_refused es then refused else could_not_connect
connect_error_message ssh_exception = handshake_failed
connect_error_message other_error = could_not_connect
