-- ===== src/Ssh/Invariant/Workers.antt =====
-- What the threads of an owner's own run do is safe for every other owner.
use simple_network_dashboard.Prelude.{
  lookup, ℕ, String, ◌≡◌, refl, true, ◌&&◌, Option, none, some, if_elim, option_elim, string_eq,
  nat_eq,
}
use simple_network_dashboard.Ssh.Manager.{
  connected_again, close_channel, Manager, write_session, is_current, owner_reset,
}
use simple_network_dashboard.Ssh.Commands.{
  stopped, released, finish_exec, same_run, same_channel, writer_is_stuck,
}
use simple_network_dashboard.Ssh.Control.{force_stop}
use simple_network_dashboard.Ssh.Invariant.{IsConsistent}
use simple_network_dashboard.Ssh.Invariant.Steps.{
  IsSafe, IsSafe-refl, other-IsSafe, do_effect-IsSafe, status-IsSafe, IsSafe-then,
}
use simple_network_dashboard.Ssh.Invariant.Runs.{fields-IsSafe}

module _ (owner : String) (m : Manager) (h : IsConsistent m) where
  -- the worker of a run has ended
  pub finish_exec-IsSafe :
      (g now : ℕ) → (m.heap g).owner ≡ owner → IsSafe owner m (finish_exec m g now)
  unfolding finish_exec owner_reset stopped released
  finish_exec-IsSafe g now o =
      let s1 = stopped (m.heap g) in
      let s2 = released s1 in
      let m1 = write_session m g s2 in
      let m2 = owner_reset m1 (m.heap g).owner now in
      let one = fields-IsSafe owner m h g s2 o refl refl refl refl in
      if_elim (IsSafe owner m) (is_current m (m.heap g).device_id g) _ _
        (λ _. IsSafe-then m m1 _ one λ h1.
          IsSafe-then m1 m2 _
            (option_elim (IsSafe owner m1) (lookup (m.heap g).owner m.activity) _ _
              (λ _. IsSafe-refl owner m1 h1) λ info _. other-IsSafe owner m1 h1 _ m.effects)
            λ h2. status-IsSafe owner m2 h2 (m.heap g).device_id connected_again none (some g))
        λ _. fields-IsSafe owner m h g s1 o refl refl refl refl

module _ (owner : String) (m : Manager) (h : IsConsistent m) (did : String) where
  pub force_stop-IsSafe :
      (g : ℕ) (run_id : Option String) (channel : ℕ)
      → (m.heap g).owner ≡ owner
      → IsSafe owner m (force_stop m did g run_id channel)
  unfolding force_stop
  force_stop-IsSafe g run_id channel o =
      let s = record (m.heap g) { forced = true } in
      let m1 = write_session m g s in
      if_elim (IsSafe owner m)
        (is_current m did g
          && same_run (m.heap g).run_id run_id
          && same_channel (m.heap g).channel channel)
        _ _
        (λ _.
          IsSafe-then m m1 _ (fields-IsSafe owner m h g s o refl refl refl refl)
            λ h1. do_effect-IsSafe owner m1 h1 (close_channel channel))
        λ _. IsSafe-refl owner m h

  pub writer_is_stuck-IsSafe :
      (g : ℕ) (run_id : Option String) (channel : ℕ)
      → (m.heap g).owner ≡ owner
      → IsSafe owner m (writer_is_stuck m did g run_id channel)
  unfolding writer_is_stuck
  writer_is_stuck-IsSafe g run_id channel o =
      let s = record (m.heap g) { cancelled = true; forced = true; writer_stuck = true } in
      let m1 = write_session m g s in
      if_elim (IsSafe owner m)
        (is_current m did g
          && same_run (m.heap g).run_id run_id
          && same_channel (m.heap g).channel channel)
        _ _
        (λ _.
          IsSafe-then m m1 _ (fields-IsSafe owner m h g s o refl refl refl refl)
            λ h1. do_effect-IsSafe owner m1 h1 (close_channel channel))
        λ _. IsSafe-refl owner m h
