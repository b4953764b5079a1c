-- ===== src/Ssh/Manager.antt =====
-- The state of `SSHManager` and what its methods share. A session object is named by its
-- generation, which `connect` draws from the counter for each new object, so `a is b` is equality
-- of generations. A method with one locked section is one function. `_close`, `disconnect`, the answers
-- to a host-key prompt and the loops over all devices take locks several times; each is one function
-- as well, made of functions for its sections, which Ssh/Invariant/Requests also runs one by one. An
-- owner is a session identifier and so not empty. Debug lines are left out.
use mathlib.Core.Option
use simple_network_dashboard.Prelude.{
  lookup, insert, remove, ℕ, String, Bool, true, false, Option, none, some, List, [], ◌∷◌, ◌++◌,
  if◌then◌else◌, string_eq, nat_eq, ◌==◌, Dict,
}
use simple_network_dashboard.Device.{Device}
use simple_network_dashboard.Ssh.Session.{Session, new_session, wiped}

pub record Key : Type 0 where
  pub key_type : String
  pub blob : String

-- `_PendingHostKey`
pub record Pending : Type 0 where
  pub host : String
  pub key : Key
  pub code : String
  pub owner : String
  pub generation : ℕ
  pub created_at : ℕ

-- an entry of `_owner_activity`
pub record Activity : Type 0 where
  pub last_active : ℕ
  pub warned : Bool
  pub silent : Bool

-- the texts of `ssh_log` messages
pub data LogText : Type 0 where
  disconnected idle_disconnected key_approval_failed key_declined prompt_expired : LogText
  connected_to : String → String → LogText

pub data StatusState : Type 0 where
  idle running connected_again : StatusState

pub data Message : Type 0 where
  -- device_id, text, `_owner`, `_gen`
  ssh_log : String → LogText → Option String → Option ℕ → Message
  ssh_status : String → StatusState → Option String → Option ℕ → Message
  -- device_id, locked, `_gen`
  ssh_lock : String → Bool → Option ℕ → Message
  ssh_idle_timeout : String → Message
  ssh_idle_warning : String → ℕ → Message

-- what a method does to the outside, in order
pub data Effect : Type 0 where
  push : Message → Effect
  -- `client.close()` of a session's client
  close_client : ℕ → Effect
  close_channel : ℕ → Effect
  -- device_id, generation, run_id, channel
  start_stop_timer : String → ℕ → Option String → ℕ → Effect
  -- a worker thread for a session's run
  start_worker : ℕ → String → Effect
  save_host_key : String → Key → Effect

pub record Manager : Type 0 where
  pub sessions : Dict String ℕ
  pub heap : ℕ → Session
  pub pending : Dict String Pending
  pub activity : Dict String Activity
  pub gen_counter : ℕ
  pub effects : List Effect

-- an assignment to the fields of the session object `g`
unfoldable pub write_session : Manager → ℕ → Session → Manager
write_session m g s = record m { heap = λ n. if n == g then s else m.heap n }

unfoldable pub do_effect : Manager → Effect → Manager
do_effect m e = record m { effects = m.effects ++ e ∷ [] }

-- `self.sessions.get(device_id)`
abbrev pub slot : Manager → String → Option ℕ
slot m did = lookup did m.sessions

-- `self.sessions.get(device_id) is sess`
unfoldable pub is_current : Manager → String → ℕ → Bool
is_current m did g = elim (slot m did) [ none ↦ false | some h ↦ h == g ]

-- the session in a slot
unfoldable pub session_in : Manager → String → Option Session
session_in m did = Option.map m.heap (slot m did)

-- the owner that `_log` and `_status` fall back on
unfoldable pub owner_or_slot : Manager → String → Option String → Option String
unfolding session_in
owner_or_slot m did (some owner) = some owner
owner_or_slot m did none = Option.map (λ s. s.owner) (session_in m did)

-- `_log`
unfoldable pub log : Manager → String → LogText → Option String → Option ℕ → Manager
unfolding do_effect owner_or_slot
log m did text owner gen = do_effect m (push (ssh_log did text (owner_or_slot m did owner) gen))

-- `_status`
unfoldable pub status : Manager → String → StatusState → Option String → Option ℕ → Manager
unfolding do_effect owner_or_slot
status m did state owner gen =
    do_effect m (push (ssh_status did state (owner_or_slot m did owner) gen))

-- `_lock`
unfoldable pub lock : Manager → String → Bool → Option ℕ → Manager
unfolding do_effect
lock m did locked gen = do_effect m (push (ssh_lock did locked gen))

-- `sess.close()`
unfoldable pub close_session : Manager → ℕ → Manager
unfolding write_session do_effect wiped
close_session m g =
    let m' = if (m.heap g).client then do_effect m (close_client g) else m in
    write_session m' g (wiped (m.heap g))

-- `_owner_touch`
unfoldable pub owner_touch : Manager → String → ℕ → Manager
owner_touch m owner now =
    let fresh : Activity = record { last_active = now; warned = false; silent = false } in
    record m { activity = insert owner fresh m.activity }

-- `_owner_reset`
unfoldable pub owner_reset : Manager → String → ℕ → Manager
owner_reset m owner now = elim (lookup owner m.activity) [
  | none ↦ m
  | some info ↦ record m {
    activity = insert owner (record info { last_active = now; warned = false }) m.activity;
  }
]

-- `_owner_pop`
unfoldable pub owner_pop : Manager → String → Manager
owner_pop m owner = record m { activity = remove owner m.activity }

-- `_clear_pending`
unfoldable pub clear_pending : Manager → String → Manager
clear_pending m did = record m { pending = remove did m.pending }

-- the internal key `_gen` of a message, with its device
pub stamp_of : Message → Option (String × ℕ)
stamp_of (ssh_log did text owner (some gen)) = some (did, gen)
stamp_of (ssh_status did state owner (some gen)) = some (did, gen)
stamp_of (ssh_lock did locked (some gen)) = some (did, gen)
stamp_of _ = none

-- `_deliver`: whether the message reaches `_broadcast`
unfoldable pub is_delivered : Manager → Message → Bool
unfolding stamp_of session_in
is_delivered m msg = elim (stamp_of msg) [
  | none ↦ true
  | some (did, gen) ↦ elim (session_in m did) [ none ↦ false | some s ↦ s.generation == gen ]
]

abbrev empty_device : Device
empty_device = record {
  id = "";
  name = "";
  host = "";
  username = "";
  metrics_port = 9100;
  commands = [];
}

-- `SSHManager()`; the heap holds nothing that a slot names
abbrev pub new_manager : Manager
new_manager = record {
  sessions = [];
  heap = λ g. new_session empty_device "" "" "" g 0;
  pending = [];
  activity = [];
  gen_counter = 0;
  effects = [];
}
