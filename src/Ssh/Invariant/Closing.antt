-- ===== src/Ssh/Invariant/Closing.antt =====
-- Closing, disconnecting and host-key prompts are safe for every other owner.
use simple_network_dashboard.Prelude.{
  ℕ, String, ◌≡◌, ◌∙◌, false, Option, none, some, arith, eq_iff, nat_beq_iff, if_elim, option_elim,
  nat_eq, string_eq,
}
use simple_network_dashboard.Ssh.Manager.{
  disconnected, idle, Manager, slot, log, status, close_session, clear_pending,
}
use simple_network_dashboard.Ssh.Close.{
  pop_slot, announce_closed, mismatch, close, Disconnected, not_owned, disconnect,
}
use simple_network_dashboard.Ssh.Invariant.{IsConsistent}
use simple_network_dashboard.Ssh.Invariant.Steps.{
  IsSafe, IsSafe-refl, clear_pending-IsSafe, pop_slot-IsSafe, log-IsSafe, status-IsSafe,
  lock-IsSafe, close_session-IsSafe, IsSafe-then,
}

pub announce_closed-IsSafe :
    (owner : String) (m : Manager) (h : IsConsistent m) (did : String) (g : ℕ) (to : Option String)
    → (m.heap g).owner ≡ owner
    → IsSafe owner m (announce_closed m did g to)
unfolding announce_closed
announce_closed-IsSafe owner m h did g to o =
    let m0 = clear_pending m did in
    let m1 = close_session m0 g in
    let m2 = log m1 did disconnected (some (m.heap g).owner) none in
    let m3 = status m2 did idle to none in
    IsSafe-then m m0 _ (clear_pending-IsSafe owner m h did) λ h0.
      IsSafe-then m0 m1 _ (close_session-IsSafe owner m0 h0 g o) λ h1.
        IsSafe-then m1 m2 _ (log-IsSafe owner m1 h1 did disconnected (some (m.heap g).owner) none)
          λ h2.
            IsSafe-then m2 m3 _ (status-IsSafe owner m2 h2 did idle to none)
              λ h3. lock-IsSafe owner m3 h3 did false none

pop_slot_owner :
    (m : Manager) (did : String) (g : ℕ) → ((pop_slot m did g).heap g).owner ≡ (m.heap g).owner
unfolding pop_slot
pop_slot_owner m did g = ground (arith, nat_beq_iff g g)

-- the two together, which `close` and `disconnect` share
pub pop_and_announce-IsSafe :
    (owner : String) (m : Manager) (h : IsConsistent m) (did : String) (g : ℕ) (to : Option String)
    → slot m did ≡ some g
    → (m.heap g).owner ≡ owner
    → IsSafe owner m (announce_closed (pop_slot m did g) did g to)
pop_and_announce-IsSafe owner m h did g to q o =
    IsSafe-then m (pop_slot m did g) _ (pop_slot-IsSafe owner m h did g q o)
      λ h1. announce_closed-IsSafe owner (pop_slot m did g) h1 did g to (pop_slot_owner m did g ∙ o)

-- `_close` is the owner's business if the session that it would close is the owner's
pub close-IsSafe :
    (owner : String) (m : Manager) (h : IsConsistent m) (did : String) (sess : Option ℕ)
    → ((g : ℕ) → slot m did ≡ some g → mismatch sess g ≡ false → (m.heap g).owner ≡ owner)
    → IsSafe owner m (close m did sess)
unfolding close
close-IsSafe owner m h did sess f =
    option_elim (IsSafe owner m) (slot m did) _ _ (λ _. IsSafe-refl owner m h)
      λ g q.
        if_elim (IsSafe owner m) (mismatch sess g) _ _ (λ _. IsSafe-refl owner m h)
          λ e. pop_and_announce-IsSafe owner m h did g (some (m.heap g).owner) q (f g q e)

not_owned_owner : (owner other : String) → not_owned (some owner) other ≡ false → other ≡ owner
unfolding not_owned
not_owned_owner owner other e = ground (arith, eq_iff other owner)

pub disconnect-IsSafe :
    (owner : String) (m : Manager) (h : IsConsistent m) (did : String)
    → IsSafe owner m (disconnect m did (some owner)).0
unfolding disconnect
disconnect-IsSafe owner m h did =
    option_elim (λ (r : Manager × Disconnected). IsSafe owner m r.0) (slot m did) _ _
      (λ _.
        let m1 = status m did idle (some owner) none in
        IsSafe-then m m1 _ (status-IsSafe owner m h did idle (some owner) none)
          λ h1. lock-IsSafe owner m1 h1 did false none)
      λ g q.
        if_elim (λ (r : Manager × Disconnected). IsSafe owner m r.0)
          (not_owned (some owner) (m.heap g).owner) _ _ (λ _. IsSafe-refl owner m h)
          λ e.
            pop_and_announce-IsSafe owner m h did g (some owner) q
              (not_owned_owner owner (m.heap g).owner e)
