-- ===== src/Ssh/Close.antt =====
-- `_close`, `disconnect` and `disconnect_all` of simple_network_dashboard/ssh_manager.py.
pub mod Shrinks
use simple_network_dashboard.Prelude.{
  remove, ℕ, String, Bool, false, not, Option, none, some, [], ◌∷◌, if◌then◌else◌, ◌==◌, nat_eq,
  string_eq, Dict,
}
use simple_network_dashboard.Ssh.Session.{retired}
use simple_network_dashboard.Ssh.Manager.{
  disconnected, idle, Manager, write_session, slot, log, status, lock, close_session, clear_pending,
}

-- the locked pop: the session leaves its slot and is retired
unfoldable pub pop_slot : Manager → String → ℕ → Manager
unfolding write_session retired
pop_slot m did g =
    let m' = write_session m g (retired (m.heap g)) in
    record m' { sessions = remove did m.sessions }

-- what follows once a session was popped
unfoldable pub announce_closed : Manager → String → ℕ → Option String → Manager
unfolding close_session log status lock clear_pending
announce_closed m did g broadcast_owner =
    let m1 = close_session (clear_pending m did) g in
    let m2 = log m1 did disconnected (some (m.heap g).owner) none in
    lock (status m2 did idle broadcast_owner none) did false none

-- `current is None or (sess is not None and current is not sess)`, for a current session `g`
unfoldable pub mismatch : Option ℕ → ℕ → Bool
mismatch none g = false
mismatch (some h) g = not (g == h)

-- `_close`, for a session or, with none, for whatever the slot holds, when no other thread comes
-- between its sections
unfoldable pub close : Manager → String → Option ℕ → Manager
unfolding pop_slot announce_closed mismatch
close m did sess = elim (slot m did) [
  | none ↦ m
  | some g ↦
      if mismatch sess g
      then m
      else announce_closed (pop_slot m did g) did g (some (m.heap g).owner)
]

pub data Disconnected : Type 0 where
  ok not_owner : Disconnected

-- `owner is not None and sess.owner != owner`
unfoldable pub not_owned : Option String → String → Bool
not_owned none owner = false
not_owned (some o) owner = not (owner == o)

-- `owner if owner is not None else popped.owner`
unfoldable pub broadcast_to : Option String → String → String
broadcast_to none popped = popped
broadcast_to (some o) popped = o

-- `disconnect`, in the same way
unfoldable pub disconnect : Manager → String → Option String → Manager × Disconnected
unfolding pop_slot announce_closed not_owned broadcast_to status lock
disconnect m did owner = elim (slot m did) [
  | none ↦ (lock (status m did idle owner none) did false none, ok)
  | some g ↦ if not_owned owner (m.heap g).owner then (m, not_owner) else (
    announce_closed (pop_slot m did g) did g (some (broadcast_to owner (m.heap g).owner)),
    ok,
  )
]

-- the loop of `disconnect_all` over `list(self.sessions)`
unfoldable pub close_each : Manager → Dict String ℕ → Manager
unfolding close
close_each m [] = m
close_each m ((did, g) ∷ rest) = close_each (close m did none) rest

-- `disconnect_all`
unfoldable pub disconnect_all : Manager → Manager
unfolding close_each
disconnect_all m = record (close_each m m.sessions) { activity = [] }
