-- ===== src/Ssh/Invariant/Unowned.antt =====
-- What nobody asks for, or what is asked for whoever owns the session: the deletion of a device, the
-- idle clock, expired prompts and the end of the program. All keep the invariant.
use simple_network_dashboard.Prelude.{
  lookup, remove, ℕ, ◌-◌, String, ◌≡◌, refl, true, false, not, ◌&&◌, Option, none, some, [], ◌∷◌,
  ltb, leb, if_elim, option_elim, is_nil, string_eq, nat_eq, Dict,
}
use simple_network_dashboard.Config.{
  idle_warn_seconds, idle_timeout_seconds, host_key_pending_seconds,
}
use simple_network_dashboard.Ssh.Manager.{
  Pending, Activity, idle_disconnected, prompt_expired, idle, ssh_idle_timeout, ssh_idle_warning,
  push, Manager, slot, session_in, log, status, owner_pop, clear_pending,
}
use simple_network_dashboard.Ssh.Close.{
  pop_slot, announce_closed, mismatch, close, Disconnected, not_owned, broadcast_to, disconnect,
  close_each, disconnect_all,
}
use simple_network_dashboard.Ssh.HostKeys.{
  still_asked, sweep_one, sweep_each, sweep_expired_host_key_prompts,
}
use simple_network_dashboard.Ssh.Idle.{
  owned, any_busy, any_lively, with_activity, lively, fell_silent, time_out_each, time_out,
  seconds_left, warn, judge, tick_owner, tick_each, tick_idle,
}
use simple_network_dashboard.Ssh.Invariant.{
  IsConsistent, IsConsistent-other, clear_pending-IsConsistent,
}
use simple_network_dashboard.Ssh.Invariant.Steps.{
  do_effect-IsSafe, log-IsSafe, status-IsSafe, lock-IsSafe,
}
use simple_network_dashboard.Ssh.Invariant.Closing.{pop_and_announce-IsSafe}

popped-IsConsistent :
    (m : Manager) (h : IsConsistent m) (did : String) (g : ℕ) (to : Option String)
    → slot m did ≡ some g
    → IsConsistent (announce_closed (pop_slot m did g) did g to)
popped-IsConsistent m h did g to q =
    (pop_and_announce-IsSafe (m.heap g).owner m h did g to q refl).consistent

close-IsConsistent :
    (m : Manager) (h : IsConsistent m) (did : String) (sess : Option ℕ)
    → IsConsistent (close m did sess)
unfolding close
close-IsConsistent m h did sess =
    option_elim IsConsistent (slot m did) _ _ (λ _. h)
      λ g q.
        if_elim IsConsistent (mismatch sess g) _ _ (λ _. h)
          λ _. popped-IsConsistent m h did g (some (m.heap g).owner) q

pub disconnect-IsConsistent :
    (m : Manager) (h : IsConsistent m) (did : String) → IsConsistent (disconnect m did none).0
unfolding disconnect not_owned broadcast_to
disconnect-IsConsistent m h did =
    option_elim (λ (r : Manager × Disconnected). IsConsistent r.0) (slot m did) _ _
      (λ _.
        let m1 = status m did idle none none in
        let h1 = (status-IsSafe "" m h did idle none none).consistent in
        (lock-IsSafe "" m1 h1 did false none).consistent)
      λ g q. popped-IsConsistent m h did g (some (m.heap g).owner) q

close_each-IsConsistent :
    (l : Dict String ℕ) (m : Manager) → IsConsistent m → IsConsistent (close_each m l)
unfolding close_each
close_each-IsConsistent [] m h = h
close_each-IsConsistent ((did, g) ∷ rest) m h =
    close_each-IsConsistent rest (close m did none) (close-IsConsistent m h did none)

pub disconnect_all-IsConsistent : (m : Manager) → IsConsistent m → IsConsistent (disconnect_all m)
unfolding disconnect_all
disconnect_all-IsConsistent m h =
    let m1 = close_each m m.sessions in
    IsConsistent-other m1 (close_each-IsConsistent m.sessions m h) [] m1.effects

sweep_one-IsConsistent :
    (m : Manager) (h : IsConsistent m) (did : String) (now : ℕ) → IsConsistent (sweep_one m did now)
unfolding sweep_one
sweep_one-IsConsistent m h did now =
    option_elim IsConsistent (lookup did m.pending) _ _ (λ _. h)
      λ p q.
        let m1 = clear_pending m did in
        let h1 = clear_pending-IsConsistent m h did in
        let told = log m1 did prompt_expired (some p.owner) none in
        let h2 = (log-IsSafe "" m1 h1 did prompt_expired (some p.owner) none).consistent in
        if_elim IsConsistent (ltb (now - p.created_at) host_key_pending_seconds) _ _ (λ _. h)
          λ _.
            if_elim IsConsistent (still_asked (session_in m did) p) _ _
              (λ _. close-IsConsistent told h2 did (slot m did)) λ _. h1

sweep_each-IsConsistent :
    (l : Dict String Pending) (m : Manager) (now : ℕ)
    → IsConsistent m
    → IsConsistent (sweep_each m l now)
unfolding sweep_each
sweep_each-IsConsistent [] m now h = h
sweep_each-IsConsistent ((did, p) ∷ rest) m now h =
    sweep_each-IsConsistent rest (sweep_one m did now) now (sweep_one-IsConsistent m h did now)

with_activity-IsConsistent :
    (m : Manager) (h : IsConsistent m) (owner : String) (f : Activity → Activity)
    → IsConsistent (with_activity m owner f)
unfolding with_activity
with_activity-IsConsistent m h owner f =
    option_elim IsConsistent (lookup owner m.activity) _ _ (λ _. h)
      λ info q. IsConsistent-other m h _ m.effects

time_out_each-IsConsistent :
    (l : Dict String ℕ) (m : Manager) (owner : String)
    → IsConsistent m
    → IsConsistent (time_out_each m owner l)
unfolding time_out_each
time_out_each-IsConsistent [] m owner h = h
time_out_each-IsConsistent ((did, g) ∷ rest) m owner h =
    let m1 = log m did idle_disconnected (some owner) none in
    let h1 = (log-IsSafe owner m h did idle_disconnected (some owner) none).consistent in
    time_out_each-IsConsistent rest (close m1 did (some g)) owner
      (close-IsConsistent m1 h1 did (some g))

owner_pop-IsConsistent :
    (m : Manager) (h : IsConsistent m) (owner : String) → IsConsistent (owner_pop m owner)
unfolding owner_pop
owner_pop-IsConsistent m h owner = IsConsistent-other m h (remove owner m.activity) m.effects

judge-IsConsistent :
    (m : Manager) (h : IsConsistent m) (owner : String) (l : Dict String ℕ) (now : ℕ)
    → IsConsistent (judge m owner l now)
unfolding judge time_out warn
judge-IsConsistent m h owner l now =
    option_elim IsConsistent (lookup owner m.activity) _ _ (λ _. h)
      λ info q.
        let gone = time_out_each m owner l in
        let gone_h = time_out_each-IsConsistent l m owner h in
        let told =
          (do_effect-IsSafe owner gone gone_h (push (ssh_idle_timeout owner))).consistent in
        let idle_time = now - info.last_active in
        let message = push (ssh_idle_warning owner (seconds_left idle_time)) in
        let warned = (do_effect-IsSafe owner m h message).consistent in
        if_elim IsConsistent (leb idle_timeout_seconds idle_time) _ _
          (λ _. owner_pop-IsConsistent _ told owner)
          λ _.
            if_elim IsConsistent (leb idle_warn_seconds idle_time && not info.warned) _ _
              (λ _. with_activity-IsConsistent _ warned owner (λ i. record i { warned = true }))
              λ _. h

tick_owner-IsConsistent :
    (m : Manager) (h : IsConsistent m) (now : ℕ) (owner : String)
    → IsConsistent (tick_owner m now owner)
unfolding tick_owner
tick_owner-IsConsistent m h now owner =
    let l = owned m owner in
    let silent = with_activity-IsConsistent m h owner (fell_silent now) in
    if_elim IsConsistent (is_nil l) _ _ (λ _. owner_pop-IsConsistent m h owner)
      λ _.
        if_elim IsConsistent (any_lively m l now) _ _
          (λ _. with_activity-IsConsistent m h owner (lively now))
          λ _.
            if_elim IsConsistent (any_busy m l) _ _ (λ _. judge-IsConsistent _ silent owner l now)
              λ _. judge-IsConsistent m h owner l now

tick_each-IsConsistent :
    (l : Dict String Activity) (m : Manager) (now : ℕ)
    → IsConsistent m
    → IsConsistent (tick_each m now l)
unfolding tick_each
tick_each-IsConsistent [] m now h = h
tick_each-IsConsistent ((owner, info) ∷ rest) m now h =
    tick_each-IsConsistent rest (tick_owner m now owner) now (tick_owner-IsConsistent m h now owner)

pub tick_idle-IsConsistent :
    (m : Manager) (now : ℕ) → IsConsistent m → IsConsistent (tick_idle m now)
unfolding tick_idle sweep_expired_host_key_prompts
tick_idle-IsConsistent m now h =
    let m1 = sweep_expired_host_key_prompts m now in
    tick_each-IsConsistent m1.activity m1 now (sweep_each-IsConsistent m.pending m now h)
