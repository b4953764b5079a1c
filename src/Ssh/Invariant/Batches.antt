-- ===== src/Ssh/Invariant/Batches.antt =====
-- The methods that walk over all sessions are safe for every other owner.
use simple_network_dashboard.Prelude.{
  lookup, remove, ℕ, String, ◌≡◌, refl, ap, ◌∙◌, ◌&&◌, Option, none, some, List, [], ◌∷◌, arith,
  eq_iff, ltb, if◌then◌else◌, nat_beq_iff, if_elim, option_elim, ◌==◌, nat_eq, string_eq, Dict,
}
use simple_network_dashboard.Ssh.Session.{Session}
use simple_network_dashboard.Ssh.Manager.{
  Pending, Manager, write_session, owner_reset, owner_pop, clear_pending,
}
use simple_network_dashboard.Ssh.Close.{mismatch, close}
use simple_network_dashboard.Ssh.Commands.{is_connected}
use simple_network_dashboard.Ssh.Idle.{stay_each, stay_connected}
use simple_network_dashboard.Ssh.Owners.{
  release_each, forget_each, release_owner, TerminalEntry, caught_up, snapshot_one, snapshot_each,
  owner_terminal_snapshot,
}
use simple_network_dashboard.Ssh.Invariant.{IsConsistent, SameSession}
use simple_network_dashboard.Ssh.Invariant.Steps.{
  IsSafe, IsSafe-refl, other-IsSafe, clear_pending-IsSafe, write_session-IsSafe, IsSafe-then,
}
use simple_network_dashboard.Ssh.Invariant.Closing.{close-IsSafe}
use simple_network_dashboard.Ssh.Invariant.Runs.{fields-IsSafe}
use simple_network_dashboard.Terminal.History.{History}

module _ (owner : String) where
  stay_each-IsSafe :
      (l : Dict String ℕ) (m : Manager) (h : IsConsistent m) (now : ℕ)
      → IsSafe owner m (stay_each m owner now l)
  unfolding stay_each
  stay_each-IsSafe [] m h now = IsSafe-refl owner m h
  stay_each-IsSafe ((did, g) ∷ rest) m h now =
      let s = m.heap g in
      let m1 =
        if s.owner == owner && s.busy then write_session m g (record s { last_io = now }) else m in
      IsSafe-then m m1 _
        (if_elim (IsSafe owner m) (s.owner == owner && s.busy) _ _
          (λ e.
            fields-IsSafe owner m h g _ (ground (arith, eq_iff s.owner owner)) refl refl refl refl)
          λ _. IsSafe-refl owner m h)
        λ h1. stay_each-IsSafe rest m1 h1 now

  pub stay_connected-IsSafe :
      (m : Manager) (h : IsConsistent m) (now : ℕ) → IsSafe owner m (stay_connected m owner now)
  unfolding stay_connected owner_reset
  stay_connected-IsSafe m h now =
      let m1 = owner_reset m owner now in
      IsSafe-then m m1 _
        (option_elim (IsSafe owner m) (lookup owner m.activity) _ _ (λ _. IsSafe-refl owner m h)
          λ info _. other-IsSafe owner m h _ m.effects)
        λ h1. stay_each-IsSafe m.sessions m1 h1 now

  release_each-IsSafe :
      (l : Dict String ℕ) (m : Manager) (h : IsConsistent m)
      → IsSafe owner m (release_each m owner l)
  unfolding release_each mismatch
  release_each-IsSafe [] m h = IsSafe-refl owner m h
  release_each-IsSafe ((did, g) ∷ rest) m h =
      let m1 = if (m.heap g).owner == owner then close m did (some g) else m in
      IsSafe-then m m1 _
        (if_elim (IsSafe owner m) ((m.heap g).owner == owner) _ _
          (λ e. close-IsSafe owner m h did (some g) λ k q same.
            let one : k ≡ g = ground (arith, nat_beq_iff k g) in
            ap (λ (i : ℕ). (m.heap i).owner) one ∙ (eq_iff (m.heap g).owner owner).0 e)
          λ _. IsSafe-refl owner m h)
        λ h1. release_each-IsSafe rest m1 h1

  forget_each-IsSafe :
      (l : Dict String Pending) (m : Manager) (h : IsConsistent m)
      → IsSafe owner m (forget_each m owner l)
  unfolding forget_each
  forget_each-IsSafe [] m h = IsSafe-refl owner m h
  forget_each-IsSafe ((did, p) ∷ rest) m h =
      let m1 = if p.owner == owner then clear_pending m did else m in
      IsSafe-then m m1 _
        (if_elim (IsSafe owner m) (p.owner == owner) _ _ (λ _. clear_pending-IsSafe owner m h did)
          λ _. IsSafe-refl owner m h)
        λ h1. forget_each-IsSafe rest m1 h1

  pub release_owner-IsSafe :
      (m : Manager) (h : IsConsistent m) → IsSafe owner m (release_owner m owner)
  unfolding release_owner owner_pop
  release_owner-IsSafe m h =
      let m1 = release_each m owner m.sessions in
      let m2 = forget_each m1 owner m1.pending in
      IsSafe-then m m1 _ (release_each-IsSafe m.sessions m h) λ h1.
        IsSafe-then m1 m2 _ (forget_each-IsSafe m1.pending m1 h1)
          λ h2. other-IsSafe owner m2 h2 (remove owner m2.activity) m2.effects

  caught_up_same : (s : Session) (now : ℕ) → SameSession s (caught_up s now)
  unfolding caught_up
  caught_up_same s now =
      if_elim (SameSession s) (ltb s.acked_seq s.sent_seq) _ _
        (λ _. record { generation = refl; device = refl; owner = refl; live = λ n. n })
        λ _. record { generation = refl; device = refl; owner = refl; live = λ n. n }

  snapshot_one-IsSafe :
      (m : Manager) (h : IsConsistent m) (now : ℕ) (did : String) (g : ℕ) (t : Option History)
      → IsSafe owner m (snapshot_one m owner now did g t).0
  unfolding snapshot_one
  snapshot_one-IsSafe m h now did g none = IsSafe-refl owner m h
  snapshot_one-IsSafe m h now did g (some t) =
      let s = m.heap g in
      if_elim (λ (r : Manager × List TerminalEntry). IsSafe owner m r.0)
        (s.owner == owner && is_connected s.state && s.busy) _ _
        (λ e.
          write_session-IsSafe owner m h g (caught_up s now) (ground (arith, eq_iff s.owner owner))
            (caught_up_same s now))
        λ _. IsSafe-refl owner m h

  snapshot_each-IsSafe :
      (l : Dict String ℕ) (m : Manager) (h : IsConsistent m) (now : ℕ)
      → IsSafe owner m (snapshot_each m owner now l).0
  unfolding snapshot_each
  snapshot_each-IsSafe [] m h now = IsSafe-refl owner m h
  snapshot_each-IsSafe ((did, g) ∷ rest) m h now =
      let m1 = (snapshot_one m owner now did g (m.heap g).history).0 in
      IsSafe-then m m1 _ (snapshot_one-IsSafe m h now did g (m.heap g).history)
        λ h1. snapshot_each-IsSafe rest m1 h1 now

  pub owner_terminal_snapshot-IsSafe :
      (m : Manager) (h : IsConsistent m) (now : ℕ)
      → IsSafe owner m (owner_terminal_snapshot m owner now).0
  unfolding owner_terminal_snapshot
  owner_terminal_snapshot-IsSafe m h now = snapshot_each-IsSafe m.sessions m h now
