-- ===== src/Ssh/Idle/Timeout.antt =====
-- An owner that stays idle too long loses its sessions, and one whose runs write does not.
use simple_network_dashboard.Prelude.{
  lookup, insert, ℕ, ◌-◌, ◌≤◌, String, ◌≡◌, refl, sym, ap, ◌∙◌, ◌≢◌, inl, inr, Bool, true, false,
  none, some, [], ◌∷◌, arith, eq_iff, leb, Bool-cases, if_elim, is_nil, keep_if, string_eq, nat_eq,
  ◌==◌, Dict, lookup-insert, lookup-remove, ==_refl,
}
use simple_network_dashboard.Config.{idle_timeout_seconds}
use simple_network_dashboard.Ssh.Manager.{
  Activity, idle_disconnected, Manager, do_effect, slot, log, owner_pop,
}
use simple_network_dashboard.Ssh.Close.{close}
use simple_network_dashboard.Ssh.Close.Shrinks.{
  IsLess, IsLess-refl, IsLess-trans, close-IsLess, close-gone,
}
use simple_network_dashboard.Ssh.Idle.{
  owned, any_busy, any_lively, with_activity, lively, time_out_each, time_out, judge, tick_owner,
}

lookup-owned :
    (p : String × ℕ → Bool) (l : Dict String ℕ) (d : String) (g : ℕ)
    → lookup d l ≡ some g
    → p (d, g) ≡ true
    → lookup d (keep_if p l) ≡ some g
unfolding lookup
lookup-owned p [] d g e t = e
lookup-owned p ((j, k) ∷ l) d g e t = elim (Bool-cases (j == d)) [
  | inl same ↦
      let here : j ≡ d = (eq_iff j d).0 same in
      let one : k ≡ g = ground (arith, e, same) in
      let kept : p (j, k) ≡ true =
        ap (λ (i : String). p (i, k)) here ∙ ap (λ (n : ℕ). p (d, n)) one ∙ t in
      rw kept (rw same (ap some one))
  | inr differ ↦
      let later = lookup-owned p l d g (ground (arith, e, differ)) t in
      if_elim (λ (x : Dict String ℕ). lookup d x ≡ some g) (p (j, k)) _ _ (λ _. rw differ later)
        λ _. later
]

module _ (owner : String) where
  -- one round of the loop that closes
  abbrev closed_one : Manager → String → ℕ → Manager
  closed_one m did g = close (log m did idle_disconnected (some owner) none) did (some g)

  closed_one-IsLess : (m : Manager) (did : String) (g : ℕ) → IsLess m (closed_one m did g)
  unfolding log do_effect
  closed_one-IsLess m did g =
      let m1 = log m did idle_disconnected (some owner) none in
      let told : IsLess m m1 = record {
        slots = λ d k q. q;
        owners = λ k. refl;
        prompts = λ d p q. q;
      } in
      IsLess-trans m m1 _ told (close-IsLess m1 did (some g))

  time_out_each-IsLess : (l : Dict String ℕ) (m : Manager) → IsLess m (time_out_each m owner l)
  unfolding time_out_each
  time_out_each-IsLess [] m = IsLess-refl m
  time_out_each-IsLess ((did, g) ∷ l) m =
      IsLess-trans m _ _ (closed_one-IsLess m did g) (time_out_each-IsLess l _)

  time_out_each-gone :
      (l : Dict String ℕ) (m : Manager) (d : String) (g : ℕ)
      → lookup d l ≡ some g
      → slot (time_out_each m owner l) d ≢ some g
  unfolding time_out_each lookup
  time_out_each-gone [] m d g q e = absurd (cc q)
  time_out_each-gone ((did, k) ∷ l) m d g q e = elim (Bool-cases (did == d)) [
    | inl same ↦
        let one : k ≡ g = ground (arith, q, same) in
        let m1 = closed_one m did k in
        let left : slot m1 d ≡ some g = (time_out_each-IsLess l m1).slots d g e in
        close-gone (log m did idle_disconnected (some owner) none) did k
          (ap (slot m1) ((eq_iff did d).0 same) ∙ left ∙ ap some (sym one))
    | inr differ ↦ time_out_each-gone l (closed_one m did k) d g (ground (arith, q, differ)) e
  ]

  -- nothing of the owner's is left to time out
  pub record IsTimedOut (m : Manager) : Type 0 where
    pub sessions : (d : String) (g : ℕ) → slot m d ≡ some g → (m.heap g).owner ≢ owner
    pub activity : lookup owner m.activity ≡ none

  time_out-IsTimedOut : (m : Manager) → IsTimedOut (time_out m owner (owned m owner))
  unfolding time_out do_effect owner_pop owned
  time_out-IsTimedOut m =
      let l = owned m owner in
      let less = time_out_each-IsLess l m in
      record {
        sessions = λ d g q o.
            let was : slot m d ≡ some g = less.slots d g q in
            let mine : ((m.heap g).owner == owner) ≡ true =
              (eq_iff (m.heap g).owner owner).1 (sym (less.owners g) ∙ o) in
            time_out_each-gone l m d g
              (lookup-owned (λ (e : String × ℕ). (m.heap e.1).owner == owner) m.sessions d g was
                mine)
              q;
        activity =
            lookup-remove owner owner (time_out_each m owner l).activity ∙ rw (==_refl owner) refl;
      }

  judge_idle :
      (m : Manager) (l : Dict String ℕ) (now : ℕ) (info : Activity)
      → lookup owner m.activity ≡ some info
      → idle_timeout_seconds ≤ now - info.last_active
      → judge m owner l now ≡ time_out m owner l
  unfolding judge
  judge_idle m l now info there idle =
      let long : leb idle_timeout_seconds (now - info.last_active) ≡ true = ground arith in
      rw (there, judge) (rw long refl)

  quiet_lem :
      (m : Manager) (l : Dict String ℕ) (now : ℕ)
      → any_busy m l ≡ false
      → any_lively m l now ≡ false
  unfolding any_busy any_lively
  quiet_lem m [] now q = refl
  quiet_lem m ((did, g) ∷ l) now q = ground (arith, q, quiet_lem m l now (ground (arith, q)))

  -- When an owner that has sessions, none of which runs a command, has not been active for 300
  -- seconds, a tick leaves no slot with a session of the owner and no entry of its activity.
  pub tick_owner-IsTimedOut :
      (m : Manager) (now : ℕ) (info : Activity)
      → lookup owner m.activity ≡ some info
      → is_nil (owned m owner) ≡ false
      → any_busy m (owned m owner) ≡ false
      → idle_timeout_seconds ≤ now - info.last_active
      → IsTimedOut (tick_owner m now owner)
  unfolding tick_owner
  tick_owner-IsTimedOut m now info there some_owned quiet idle =
      let still = quiet_lem m (owned m owner) now quiet in
      let e = judge_idle m (owned m owner) now info there idle in
      rw some_owned (rw still (rw quiet (rw e (time_out-IsTimedOut m))))

with_activity-some :
    (m : Manager) (owner : String) (f : Activity → Activity) (info : Activity)
    → lookup owner m.activity ≡ some info
    → with_activity m owner f ≡ record m { activity = insert owner (f info) m.activity }
unfolding with_activity
with_activity-some m owner f info there = rw (there, with_activity) refl

-- A tick in which a run of the owner has written within the last 1800 seconds leaves all slots and
-- sessions as they are, and the owner active from that time on.
pub tick_owner-lively :
    (m : Manager) (now : ℕ) (owner : String) (info : Activity)
    → lookup owner m.activity ≡ some info
    → is_nil (owned m owner) ≡ false
    → any_lively m (owned m owner) now ≡ true
    → ((tick_owner m now owner).sessions ≡ m.sessions)
      × ((tick_owner m now owner).heap ≡ m.heap)
      × (lookup owner (tick_owner m now owner).activity
          ≡ some (record { last_active = now; warned = false; silent = false }))
unfolding tick_owner lively
tick_owner-lively m now owner info there some_owned lives =
    let e = with_activity-some m owner (lively now) info there in
    let found = lookup-insert owner owner (lively now info) m.activity ∙ rw (==_refl owner) refl in
    rw some_owned (rw lives (rw e (refl, refl, found)))
