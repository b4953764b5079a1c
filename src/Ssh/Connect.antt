-- ===== src/Ssh/Connect.antt =====
-- `SSHManager.connect` of simple_network_dashboard/ssh_manager.py. The network connect runs with no
-- lock held, so `reserve` and `finish` are two steps with anything in between.
pub mod Reservation
use simple_network_dashboard.Prelude.{
  insert, remove, ℕ, ◌+◌, String, Bool, true, false, Option, none, some, if◌then◌else◌, ◌==◌,
  nat_eq, string_eq,
}
use simple_network_dashboard.Device.{Device}
use simple_network_dashboard.Ssh.Session.{
  SessionState, connected, host_key_pending, closed, new_session, retired, ConnectError,
  ErrorMessage, connect_error_message,
}
use simple_network_dashboard.Ssh.Manager.{
  Key, Pending, disconnected, connected_to, idle, connected_again, Manager, write_session, slot,
  is_current, log, status, lock, close_session, owner_touch,
}

pub data Reserved : Type 0 where
  in_use : Reserved
  -- the new session, and the one that it replaces
  reserved : ℕ → Option ℕ → Reserved

-- `existing and existing.state in ("connecting", "connected", "host_key_pending")`
unfoldable pub holds_slot : SessionState → Bool
holds_slot closed = false
holds_slot _ = true

-- the new session goes into the slot
unfoldable pub place : Manager → String → String → Device → String → ℕ → Manager
place m did password device owner now =
    let g = m.gen_counter + 1 in
    let m' = write_session m g (new_session device password owner did g now) in
    record m' { gen_counter = g; sessions = insert did g m.sessions }

-- the locked section at the head of `connect`
unfoldable pub reserve : Manager → String → String → Device → String → ℕ → Manager × Reserved
unfolding place write_session retired holds_slot
reserve m did password device owner now = elim (slot m did) [
  | none ↦ (place m did password device owner now, reserved (m.gen_counter + 1) none)
  | some old ↦
      if holds_slot (m.heap old).state
      then (if (m.heap old).owner == owner
          then (
            place (write_session m old (retired (m.heap old))) did password device owner now,
            reserved (m.gen_counter + 1) (some old),
          )
          else (m, in_use))
      else (place m did password device owner now, reserved (m.gen_counter + 1) none)
]

-- `old_sess.close()` and its log line, after the lock is released
unfoldable pub close_replaced : Manager → String → String → Option ℕ → Manager
unfolding close_session log
close_replaced m did owner none = m
close_replaced m did owner (some old) = log (close_session m old) did disconnected (some owner) none

-- how the network connect ends
pub data Outcome : Type 0 where
  connects : Outcome
  -- UnknownHostKey, with its host and key
  unknown_host_key : String → Key → Outcome
  -- BadHostKeyException, with the key offered and the one expected
  bad_host_key : Key → Key → Outcome
  authentication_failed hosts_unreadable : Outcome
  fails : ConnectError → Outcome

pub data Connected : Type 0 where
  ok : Connected
  superseded : Connected
  -- host, key, code
  key_unknown : String → Key → String → Connected
  -- host, new key, old key, code
  key_changed : String → Key → Key → String → Connected
  not_authenticated hosts_not_read : Connected
  not_connected : ErrorMessage → Connected

-- the host-key branches: the prompt is recorded if the session still holds its slot
unfoldable pub ask_for_key : Manager → String → ℕ → String → Key → String → ℕ → Manager
unfolding write_session is_current
ask_for_key m did g host key code now =
    let s = m.heap g in
    let prompt : Pending = record {
      host = host;
      key = key;
      code = code;
      owner = s.owner;
      generation = g;
      created_at = now;
    } in
    let m' = write_session m g (record s { state = host_key_pending }) in
    if is_current m did g then record m' { pending = insert did prompt m.pending } else m

-- the failing branches: the reservation is given up if it is still there
unfoldable pub give_up : Manager → String → ℕ → Option ℕ → Manager
unfolding is_current status lock
give_up m did g old =
    let m' = record m { sessions = remove did m.sessions } in
    if is_current m did g
    then (elim old [
      | none ↦ m'
      | some _ ↦ lock (status m' did idle (some (m.heap g).owner) none) did false none
    ])
    else m

-- the end of a connect that came through
unfoldable pub complete : Manager → String → ℕ → ℕ → Manager × Connected
unfolding write_session is_current close_session owner_touch log status lock
complete m did g now =
    let m1 = write_session m g (record (m.heap g) { client = true }) in
    let m2 = write_session m1 g (record (m1.heap g) { state = connected }) in
    let m3 = owner_touch (record m2 { pending = remove did m2.pending }) (m.heap g).owner now in
    let device = (m.heap g).device in
    let owner : Option String = some (m.heap g).owner in
    let m4 = log m3 did (connected_to device.host device.username) owner (some g) in
    if is_current m did g
    then (lock (status m4 did connected_again owner (some g)) did true (some g), ok)
    else (close_session m1 g, superseded)

-- `connect` from the network's answer on; `code` is the new one-time code
unfoldable pub finish : Manager → String → ℕ → Option ℕ → Outcome → String → ℕ → Manager × Connected
unfolding ask_for_key give_up complete
finish m did g old connects code now = complete m did g now
finish m did g old (unknown_host_key host key) code now =
    (ask_for_key m did g host key code now, key_unknown (m.heap g).device.host key code)
finish m did g old (bad_host_key key expected) code now =
    let host = (m.heap g).device.host in
    (ask_for_key m did g host key code now, key_changed host key expected code)
finish m did g old authentication_failed code now = (give_up m did g old, not_authenticated)
finish m did g old hosts_unreadable code now = (give_up m did g old, hosts_not_read)
finish m did g old (fails e) code now =
    (give_up m did g old, not_connected (connect_error_message e))
