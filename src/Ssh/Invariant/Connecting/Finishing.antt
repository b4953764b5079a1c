-- ===== src/Ssh/Invariant/Connecting/Finishing.antt =====
-- What the network's answer to a connect may change: only the owner's own session and prompt.
use simple_network_dashboard.Prelude.{
  remove, ℕ, String, ◌≡◌, refl, ap, ◌∙◌, inl, inr, true, false, Option, none, some, arith,
  nat_beq_iff, Option-cases, if_elim, option_elim, nat_eq, string_eq, ==_refl,
}
use simple_network_dashboard.Ssh.Session.{connected, host_key_pending, Session}
use simple_network_dashboard.Ssh.Manager.{
  Key, disconnected, connected_to, idle, connected_again, Manager, write_session, slot, is_current,
  log, status, close_session, owner_touch, clear_pending,
}
use simple_network_dashboard.Ssh.Connect.{
  close_replaced, Outcome, connects, unknown_host_key, bad_host_key, authentication_failed,
  hosts_unreadable, fails, Connected, ask_for_key, give_up, complete, finish,
}
use simple_network_dashboard.Ssh.Invariant.{IsConsistent, SameSession}
use simple_network_dashboard.Ssh.Invariant.Steps.{
  IsSafe, IsSafe-refl, other-IsSafe, clear_pending-IsSafe, write_session-IsSafe, emptied-IsSafe,
  put_prompt-IsSafe, log-IsSafe, status-IsSafe, lock-IsSafe, close_session-IsSafe, IsSafe-then,
}

is_current-slot :
    (m : Manager) (did : String) (g : ℕ) → is_current m did g ≡ true → slot m did ≡ some g
unfolding is_current
is_current-slot m did g e = elim (Option-cases (slot m did)) [
  | inl free ↦ ground (arith, e)
  | inr (k, there) ↦ ground (arith, nat_beq_iff k g)
]

pub close_replaced-IsSafe :
    (owner : String) (m : Manager) (h : IsConsistent m) (did : String) (old : Option ℕ)
    → ((g : ℕ) → old ≡ some g → (m.heap g).owner ≡ owner)
    → IsSafe owner m (close_replaced m did owner old)
unfolding close_replaced
close_replaced-IsSafe owner m h did none f = IsSafe-refl owner m h
close_replaced-IsSafe owner m h did (some g) f =
    IsSafe-then m (close_session m g) _ (close_session-IsSafe owner m h g (f g refl))
      λ h1. log-IsSafe owner (close_session m g) h1 did disconnected (some owner) none

write_session_self : (m : Manager) (g : ℕ) (s : Session) → (write_session m g s).heap g ≡ s
unfolding write_session
write_session_self m g s = ground (arith, ==_refl g)

module _ (owner : String) (m : Manager) (h : IsConsistent m) (did : String) (g : ℕ)
    (o : (m.heap g).owner ≡ owner) where
  ask_for_key-IsSafe :
      (host : String) (key : Key) (code : String) (now : ℕ)
      → IsSafe owner m (ask_for_key m did g host key code now)
  unfolding ask_for_key
  ask_for_key-IsSafe host key code now =
      if_elim (IsSafe owner m) (is_current m did g) _ _
        (λ e.
          let s' = record (m.heap g) { state = host_key_pending } in
          let m1 = write_session m g s' in
          let same : SameSession (m.heap g) s' = record {
            generation = refl;
            device = refl;
            owner = refl;
            live = λ n q. cc;
          } in
          IsSafe-then m m1 _ (write_session-IsSafe owner m h g s' o same) λ h1.
            put_prompt-IsSafe owner m1 h1 did _ (record {
              allocated = (h.slots did g (is_current-slot m did g e)).allocated;
              owner = ap (λ (s : Session). s.owner) (write_session_self m g s');
            }))
        λ _. IsSafe-refl owner m h

  give_up-IsSafe : (old : Option ℕ) → IsSafe owner m (give_up m did g old)
  unfolding give_up
  give_up-IsSafe old =
      let m1 = record m { sessions = remove did m.sessions } in
      if_elim (IsSafe owner m) (is_current m did g) _ _
        (λ e.
          let free = emptied-IsSafe owner m h did g (is_current-slot m did g e) o in
          option_elim (IsSafe owner m) old _ _ (λ _. free)
            λ _ _.
              let m2 = status m1 did idle (some (m.heap g).owner) none in
              IsSafe-then m m1 _ free λ h1.
                IsSafe-then m1 m2 _
                  (status-IsSafe owner m1 h1 did idle (some (m.heap g).owner) none)
                  λ h2. lock-IsSafe owner m2 h2 did false none)
        λ _. IsSafe-refl owner m h

  complete-IsSafe : (now : ℕ) → IsSafe owner m (complete m did g now).0
  unfolding complete owner_touch clear_pending
  complete-IsSafe now =
      let s1 = record (m.heap g) { client = true } in
      let m1 = write_session m g s1 in
      let s2 = record (m1.heap g) { state = connected } in
      let m2 = write_session m1 g s2 in
      let m3 = clear_pending m2 did in
      let m4 = owner_touch m3 (m.heap g).owner now in
      let to : Option String = some (m.heap g).owner in
      let text = connected_to (m.heap g).device.host (m.heap g).device.username in
      let m5 = log m4 did text to (some g) in
      let m6 = status m5 did connected_again to (some g) in
      let same1 : SameSession (m.heap g) s1 = record {
        generation = refl;
        device = refl;
        owner = refl;
        live = λ n. n;
      } in
      let same2 : SameSession (m1.heap g) s2 = record {
        generation = refl;
        device = refl;
        owner = refl;
        live = λ n q. cc;
      } in
      let o1 : (m1.heap g).owner ≡ owner =
        ap (λ (s : Session). s.owner) (write_session_self m g s1) ∙ o in
      IsSafe-then m m1 _ (write_session-IsSafe owner m h g s1 o same1) λ h1.
        if_elim (λ (r : Manager × Connected). IsSafe owner m1 r.0) (is_current m did g) _ _
          (λ _. IsSafe-then m1 m2 _ (write_session-IsSafe owner m1 h1 g s2 o1 same2) λ h2.
            IsSafe-then m2 m3 _ (clear_pending-IsSafe owner m2 h2 did) λ h3.
              IsSafe-then m3 m4 _ (other-IsSafe owner m3 h3 m4.activity m4.effects) λ h4.
                IsSafe-then m4 m5 _ (log-IsSafe owner m4 h4 did text to (some g)) λ h5.
                  IsSafe-then m5 m6 _ (status-IsSafe owner m5 h5 did connected_again to (some g))
                    λ h6. lock-IsSafe owner m6 h6 did true (some g))
          λ _. close_session-IsSafe owner m1 h1 g o1

  pub finish-IsSafe :
      (old : Option ℕ) (answer : Outcome) (code : String) (now : ℕ)
      → IsSafe owner m (finish m did g old answer code now).0
  unfolding finish
  finish-IsSafe old connects code now = complete-IsSafe now
  finish-IsSafe old (unknown_host_key host key) code now = ask_for_key-IsSafe host key code now
  finish-IsSafe old (bad_host_key key expected) code now =
      ask_for_key-IsSafe (m.heap g).device.host key code now
  finish-IsSafe old authentication_failed code now = give_up-IsSafe old
  finish-IsSafe old hosts_unreadable code now = give_up-IsSafe old
  finish-IsSafe old (fails e) code now = give_up-IsSafe old
