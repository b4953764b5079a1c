-- ===== src/SignIn/Throttle/Delays.antt =====
-- How long an address has to wait, and that waiting so long is enough.
use simple_network_dashboard.Prelude.{
  lookup, insert, remove, ℕ, ◌+◌, ◌-◌, ◌*◌, ◌/◌, ◌≤◌, ◌<◌, String, ◌≡◌, refl, subst, ◌∙◌, ◌⊎◌, inl,
  inr, false, Option, none, some, arith, ltb, leb, if◌then◌else◌, Bool-cases, Option-cases, if_elim,
  option_elim, string_eq, nat_eq, ◌==◌, lookup-insert, lookup-remove, ==_refl,
}
use simple_network_dashboard.SignIn.Throttle.{
  Throttle, forget_after, current, delay_after, remaining, delay_of, retry_after, count_of, failure,
}

-- the count after one more failure at time `t`, if the last one is not too long ago
pub failed_again : Throttle → String → ℕ → ℕ
unfolding current count_of
failed_again th address t = count_of (current th address t).1

delay-le : (item : Option (ℕ × ℕ)) (now : ℕ) → delay_of item now ≤ 300
unfolding delay_of delay_after remaining
delay-le none now = omega arith
delay-le (some (n, last)) now =
    if_elim (λ (r : ℕ). r ≤ 300) (ltb n 5) _ _ (λ _. omega arith) λ _. omega arith

-- The wait that an address is told never exceeds 300 seconds.
pub retry_after-le :
    (th : Throttle) (address : String) (t1 t2 : ℕ) → (retry_after th address t1 t2).1 ≤ 300
unfolding retry_after
retry_after-le th address t1 t2 = delay-le (current th address t1).1 t2

-- an entry that is fresh is found as it is
current_fresh :
    (th : Throttle) (address : String) (n last now : ℕ)
    → lookup address th ≡ some (n, last)
    → now - last < forget_after
    → current th address now ≡ (th, some (n, last))
unfolding current
current_fresh th address n last now e f =
    let fresh : leb forget_after (now - last) ≡ false = ground arith in
    rw (e, current) (rw fresh refl)

at_once : (n t : ℕ) → delay_of (some (n, t)) t ≡ (if ltb n 5 then 0 else delay_after n)
unfolding delay_of remaining
at_once n t =
    let e : (delay_after n * 1000 - (t - t) + 999) / 1000 ≡ delay_after n = omega arith in rw e refl

-- A failure at time `t` is recorded with that time under the number of failures so far, of which
-- those before a gap of 15 minutes do not count. The address is told to wait for 0 seconds up to
-- the fourth failure, then for 5 seconds, and twice as long after every further one, up to 300.
pub failure_lem :
    (th : Throttle) (address : String) (t : ℕ)
    → let n = failed_again th address t in
      (lookup address (failure th address t t t t).0 ≡ some (n, t))
      × ((failure th address t t t t).1 ≡ (if ltb n 5 then 0 else delay_after n))
unfolding failure retry_after failed_again
failure_lem th address t =
    let n = failed_again th address t in
    let th' = insert address (n, t) (current th address t).0 in
    let there : lookup address th' ≡ some (n, t) =
      ground
        (arith, lookup-insert address address (n, t) (current th address t).0, ==_refl address) in
    let found : current th' address t ≡ (th', some (n, t)) =
      current_fresh th' address n t t there (omega arith) in
    (rw found there, rw found (at_once n t))

current-other :
    (th : Throttle) (address other : String) (t : ℕ)
    → (address == other) ≡ false
    → lookup other (current th address t).0 ≡ lookup other th
unfolding current
current-other th address other t apart =
    let P = λ (r : Throttle × Option (ℕ × ℕ)). lookup other r.0 ≡ lookup other th in
    option_elim P (lookup address th) _ _ (λ _. refl)
      λ item _.
        if_elim P (leb forget_after (t - item.1)) _ _
          (λ _. lookup-remove other address th ∙ rw apart refl) λ _. refl

-- A failure of one address leaves what is recorded for another address as it is.
pub failure-other :
    (th : Throttle) (address other : String) (t1 t2 t3 t4 : ℕ)
    → (address == other) ≡ false
    → lookup other (failure th address t1 t2 t3 t4).0 ≡ lookup other th
unfolding failure retry_after
failure-other th address other t1 t2 t3 t4 apart =
    let th1 = (current th address t1).0 in
    let th2 = insert address (count_of (current th address t1).1, t2) th1 in
    current-other th2 address other t3 apart
    ∙ lookup-insert other address (count_of (current th address t1).1, t2) th1
    ∙ rw apart (current-other th address other t1 apart)

current-some :
    (th : Throttle) (address : String) (item : ℕ × ℕ) (t : ℕ)
    → lookup address th ≡ some item
    → (current th address t ≡ (remove address th, none)) ⊎ (current th address t ≡ (th, some item))
unfolding current
current-some th address item t e = elim (Bool-cases (leb forget_after (t - item.1))) [
  | inl old ↦ inl (rw (e, current) (rw old refl))
  | inr fresh ↦ inr (rw (e, current) (rw fresh refl))
]

-- what is left for an address that is not on record
none_left :
    (th : Throttle) (address : String) (later : ℕ)
    → lookup address th ≡ none
    → (retry_after th address later later).1 ≡ 0
unfolding retry_after current delay_of
none_left th address later e = rw (e, current) refl

waited_long :
    (item : ℕ × ℕ) (t later : ℕ)
    → item.1 ≤ t
    → t + delay_of (some item) t * 1000 ≤ later
    → delay_of (some item) later ≡ 0
unfolding delay_of remaining
waited_long (n, last) t later o h = elim (Bool-cases (ltb n 5)) [
  | inl few ↦ rw few refl
  | inr many ↦
      let h' : t + (delay_after n * 1000 - (t - last) + 999) / 1000 * 1000 ≤ later =
        ground (arith, h, many) in
      rw many (omega arith)
]

some_left :
    (th : Throttle) (address : String) (item : ℕ × ℕ) (later : ℕ)
    → lookup address th ≡ some item
    → delay_of (some item) later ≡ 0
    → (retry_after th address later later).1 ≡ 0
unfolding retry_after
some_left th address item later e z = elim (current-some th address item later e) [
  | inl old ↦ rw old (unfold delay_of in refl)
  | inr fresh ↦ rw fresh z
]

-- An address that waits as long as it was told is not told to wait any longer, if the clock does not
-- run backwards.
pub retry_after-wait :
    (th : Throttle) (address : String) (t later : ℕ)
    → ((item : ℕ × ℕ) → lookup address th ≡ some item → item.1 ≤ t)
    → t + (retry_after th address t t).1 * 1000 ≤ later
    → (retry_after (retry_after th address t t).0 address later later).1 ≡ 0
retry_after-wait th address t later o h = elim (Option-cases (lookup address th)) [
  | inl e ↦
      let same : current th address t ≡ (th, none) = (unfold current in rw (e, current) refl) in
      (unfold retry_after in rw same (none_left th address later e))
  | inr (item, e) ↦ elim (current-some th address item t e) [
    | inl old ↦
        let gone : lookup address (remove address th) ≡ none =
          ground (arith, lookup-remove address address th, ==_refl address) in
        (unfold retry_after in rw old (none_left (remove address th) address later gone))
    | inr fresh ↦
        let h' : t + delay_of (some item) t * 1000 ≤ later =
          (unfold retry_after in
            subst (λ (r : Throttle × Option (ℕ × ℕ)). t + delay_of r.1 t * 1000 ≤ later) fresh h) in
        (unfold retry_after in
          rw fresh (some_left th address item later e (waited_long item t later (o item e) h')))
  ]
]
