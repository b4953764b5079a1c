-- ===== src/Polling/Troubles.antt =====
-- How simple_network_dashboard/main.py collapses a failure that lasts, and when it forgets one.
-- the polls of one device that fail with one error at these times; the lines come after `lines`
use simple_network_dashboard.Prelude.{
  lookup, insert, remove, ℕ, zero, suc, ◌+◌, ◌-◌, ◌*◌, ◌≤◌, String, ◌≡◌, refl, subst, ◌∙◌, inl, inr,
  true, false, Option, none, some, List, [], ◌∷◌, arith, eq_iff, leb, Bool-cases, if_elim,
  option_elim, >>=-eq-some, length, keep_if, length-append, All, string_eq, nat_eq, ◌==◌,
  lookup-insert, lookup-remove, ==_refl, lookup-remove-some,
}
use simple_network_dashboard.Config.{metrics_error_summary}
use simple_network_dashboard.Device.{Device}
use simple_network_dashboard.Polling.{
  Trouble, Troubles, Line, recovered, failing, still_failing, first_failure, same_failure,
  failure_of, recovery, log_metrics_result, Polled, Poller, add_line, take_result, take_results,
  pick, as_completed, is_selected, selected_now, polled_devices, poll_once,
}

unfoldable pub fail_all : Troubles → List Line → String → String → List ℕ → Troubles × List Line
fail_all st lines did error [] = (st, lines)
fail_all st lines did error (t ∷ ts) =
    let (st', line) = log_metrics_result st did (some error) t in
    fail_all st' (add_line lines line) did error ts

-- times of a clock that does not run backwards
unfoldable pub IsOrdered : ℕ → List ℕ → Type 0
IsOrdered t [] = Unit
IsOrdered t (u ∷ ts) = (t ≤ u) × IsOrdered u ts

pub last_of : ℕ → List ℕ → ℕ
last_of t [] = t
last_of t (u ∷ ts) = last_of u ts

last_of-le : (t : ℕ) (ts : List ℕ) → IsOrdered t ts → t ≤ last_of t ts
unfolding IsOrdered last_of
last_of-le t [] o = omega arith
last_of-le t (u ∷ ts) o = omega (arith, o.0, last_of-le u ts o.1)

-- one more failure of a device that fails already
next_failure :
    (st : Troubles) (did error : String) (now : ℕ) (t : Trouble)
    → (error == "") ≡ false
    → lookup did st ≡ some t
    → t.error ≡ error
    → log_metrics_result st did (some error) now
      ≡ (insert did (same_failure t now).0 st, (same_failure t now).1)
unfolding log_metrics_result failure_of
next_failure st did error now t named e same =
    let equal : (t.error == error) ≡ true = rw same (==_refl error) in
    rw named (rw (e, failure_of) (rw equal))

-- What some more failures with the error of an entry come to: the entry is still there and has
-- counted them, and each line that was written moved the window on by five minutes.
record IsCollapsed (did error : String) (t : Trouble) (before now failures : ℕ)
    (r : Troubles × List Line) : Type 0 where
  entry : Trouble
  found : lookup did r.0 ≡ some entry
  same_error : entry.error ≡ error
  counted : entry.total_count ≡ t.total_count + failures
  spaced :
      length r.1 * metrics_error_summary + t.window_start
      ≤ before * metrics_error_summary + entry.window_start
  not_ahead : entry.window_start ≤ now

same_failure_lem :
    (t : Trouble) (now : ℕ) (lines : List Line)
    → t.window_start ≤ now
    → ((same_failure t now).0.error ≡ t.error)
      × ((same_failure t now).0.total_count ≡ t.total_count + 1)
      × (length (add_line lines (same_failure t now).1) * metrics_error_summary + t.window_start
          ≤ length lines * metrics_error_summary + (same_failure t now).0.window_start)
      × ((same_failure t now).0.window_start ≤ now)
unfolding same_failure add_line
same_failure_lem t now lines h =
    let late = leb metrics_error_summary (now - t.window_start) in
    let longer = λ (l : Line). length-append lines (l ∷ []) in
    elim (Bool-cases late) [
      | inl y ↦ rw y (
        refl,
        refl,
        ground (arith, longer (still_failing t.error (t.window_count + 1)), y),
        omega arith,
      )
      | inr n ↦ rw n (refl, refl, omega arith, h)
    ]

fail_all-IsCollapsed :
    (st : Troubles) (lines : List Line) (did error : String) (ts : List ℕ) (t : Trouble) (now : ℕ)
    → (error == "") ≡ false
    → lookup did st ≡ some t
    → t.error ≡ error
    → t.window_start ≤ now
    → IsOrdered now ts
    → IsCollapsed did error t
        (length lines)
        (last_of now ts)
        (length ts)
        (fail_all st lines did error ts)
unfolding fail_all IsOrdered last_of
fail_all-IsCollapsed st lines did error [] t now named e same h o = record {
  entry = t;
  found = e;
  same_error = same;
  counted = omega arith;
  spaced = omega arith;
  not_ahead = h;
}
fail_all-IsCollapsed st lines did error (u ∷ ts) t now named e same h o =
    let t1 = (same_failure t u).0 in
    let (kept, one_more, moved, not_ahead) = same_failure_lem t u lines (omega (arith, o.0)) in
    let there : lookup did (insert did t1 st) ≡ some t1 =
      lookup-insert did did t1 st ∙ rw (==_refl did) refl in
    let rest =
      fail_all-IsCollapsed (insert did t1 st) (add_line lines (same_failure t u).1) did error ts t1
        u named there (kept ∙ same) not_ahead o.1 in
    rw (next_failure st did error u t named e same) (record {
      entry = rest.entry;
      found = rest.found;
      same_error = rest.same_error;
      counted = omega (arith, rest.counted, one_more);
      spaced = omega (arith, rest.spaced, moved);
      not_ahead = rest.not_ahead;
    })

-- what failures from `t` on, and then a success at whatever time, are told by
pub IsSummed : String → ℕ → ℕ → ℕ → Troubles × List Line → Type 0
IsSummed did failures from until (st, lines) =
    (length lines * metrics_error_summary ≤ metrics_error_summary + (until - from))
    × ((now : ℕ) → (log_metrics_result st did none now).1 ≡ some (recovered failures))
    × ((now : ℕ) → lookup did (log_metrics_result st did none now).0 ≡ none)

-- the first failure of a device that has no entry
abbrev first_entry : String → ℕ → Trouble
first_entry error t = record { error = error; window_count = 1; total_count = 1; window_start = t }

fail_all-first :
    (st : Troubles) (did error : String) (t : ℕ) (ts : List ℕ)
    → (error == "") ≡ false
    → lookup did st ≡ none
    → fail_all st [] did error (t ∷ ts)
      ≡ fail_all (insert did (first_entry error t) st) (failing error ∷ []) did error ts
unfolding fail_all add_line
fail_all-first st did error t ts named n =
    let first : log_metrics_result st did (some error) t
        ≡ (insert did (first_entry error t) st, some (failing error)) =
      unfold log_metrics_result failure_of first_failure in rw named (rw (n, failure_of)) in
    rw first

-- A device without an entry that then fails with one error in every poll is told by at most one
-- line, and one more for each five minutes from its first failure to its last, if the clock does
-- not run backwards. A success that follows is told with the number of those failures, and leaves
-- no entry.
pub fail_all-IsSummed :
    (st : Troubles) (did error : String) (t : ℕ) (ts : List ℕ)
    → (error == "") ≡ false
    → lookup did st ≡ none
    → IsOrdered t ts
    → IsSummed did (length (t ∷ ts)) t (last_of t ts) (fail_all st [] did error (t ∷ ts))
unfolding IsSummed last_of
fail_all-IsSummed st did error t ts named n o =
    let t1 = first_entry error t in
    let there : lookup did (insert did t1 st) ≡ some t1 =
      lookup-insert did did t1 st ∙ rw (==_refl did) refl in
    let rest =
      fail_all-IsCollapsed (insert did t1 st) (failing error ∷ []) did error ts t1 t named there
        refl (omega arith) o in
    let same : rest.entry.total_count ≡ length (t ∷ ts) = omega (arith, rest.counted) in
    rw (fail_all-first st did error t ts named n) (
      omega (arith, rest.spaced, rest.not_ahead, last_of-le t ts o),
      λ now. unfold log_metrics_result recovery in rw (rest.found, recovery) (rw same),
      λ now. unfold log_metrics_result in lookup-remove did did _ ∙ rw (==_refl did) refl,
    )

-- only devices of a list have an entry
pub IsTracked : List String → Troubles → Type 0
IsTracked selected st =
    (did : String) (t : Trouble) → lookup did st ≡ some t → is_selected selected did ≡ true

kept-IsTracked :
    (selected : List String) (st : Troubles)
    → IsTracked selected (keep_if (λ (e : String × Trouble). is_selected selected e.0) st)
unfolding IsTracked lookup
kept-IsTracked selected [] did t h = cc
kept-IsTracked selected ((k, u) ∷ st) did t h =
    let later = kept-IsTracked selected st did t in
    if_elim (λ (d : Troubles). lookup did d ≡ some t → is_selected selected did ≡ true)
      (is_selected selected k)
      ((k, u) ∷ keep_if (λ (e : String × Trouble). is_selected selected e.0) st)
      (keep_if (λ (e : String × Trouble). is_selected selected e.0) st)
      (λ yes_selected g. elim (Bool-cases (k == did)) [
        | inl same ↦
            subst (λ (x : String). is_selected selected x ≡ true) ((eq_iff k did).0 same)
              yes_selected
        | inr other ↦ later (ground (arith, other, g))
      ])
      (λ _ g. later g) h

logged-IsTracked :
    (selected : List String) (st : Troubles) (did : String) (error : Option String) (now : ℕ)
    → is_selected selected did ≡ true
    → IsTracked selected st
    → IsTracked selected (log_metrics_result st did error now).0
unfolding IsTracked log_metrics_result
logged-IsTracked selected st did none now s h d t e = h d t (lookup-remove-some d did st e)
logged-IsTracked selected st did (some error) now s h d t e =
    let put = failure_of (lookup did st) error now in
    if_elim (λ (r : Troubles × Option Line). lookup d r.0 ≡ some t → is_selected selected d ≡ true)
      (error == "") (remove did st, recovery (lookup did st)) (insert did put.0 st, put.1)
      (λ _ g. h d t (lookup-remove-some d did st g))
      (λ _ g. elim (Bool-cases (did == d)) [
        | inl same ↦ subst (λ (x : String). is_selected selected x ≡ true) ((eq_iff did d).0 same) s
        | inr other ↦ h d t (ground (arith, other, g, lookup-insert d did put.0 st))
      ])
      e

-- the devices that are polled
abbrev AllSelected : List String → List Device → Type 0
AllSelected selected ds = All (λ (d : Device). is_selected selected d.id ≡ true) ds

polled-AllSelected :
    (selected : List String) (ds : List Device)
    → AllSelected selected (keep_if (λ (d : Device). is_selected selected d.id) ds)
polled-AllSelected selected [] = tt
polled-AllSelected selected (d ∷ ds) =
    let rest = polled-AllSelected selected ds in
    if_elim (AllSelected selected) (is_selected selected d.id) _ _ (λ t. (t, rest)) (λ _. rest)

pick-AllSelected :
    (selected : List String) (n : ℕ) (ds : List Device) {x : Device × List Device}
    → AllSelected selected ds
    → pick n ds ≡ some x
    → (is_selected selected x.0.id ≡ true) × AllSelected selected x.1
unfolding pick
pick-AllSelected selected n [] a e = cc
pick-AllSelected selected zero (d ∷ ds) {x} a e =
    let same : (d, ds) ≡ x = ground (arith, e) in
    subst
      (λ (y : Device × List Device).
        (is_selected selected y.0.id ≡ true) × AllSelected selected y.1)
      same a
pick-AllSelected selected (suc n) (d ∷ ds) {x} a e =
    let (y, later, made) = >>=-eq-some (pick n ds) _ e in
    let same : (y.0, d ∷ y.1) ≡ x = ground (arith, made) in
    let rest = pick-AllSelected selected n ds a.1 later in
    subst
      (λ (z : Device × List Device).
        (is_selected selected z.0.id ≡ true) × AllSelected selected z.1)
      same (rest.0, (a.0, rest.1))

as_completed-AllSelected :
    (selected : List String) (ns : List ℕ) (ds : List Device)
    → AllSelected selected ds
    → AllSelected selected (as_completed ns ds)
unfolding as_completed
as_completed-AllSelected selected [] ds a = a
as_completed-AllSelected selected (n ∷ ns) ds a =
    option_elim (AllSelected selected) (pick n ds) _ _ (λ _. a)
      (λ x e.
        let picked = pick-AllSelected selected n ds a e in
        (picked.0, as_completed-AllSelected selected ns x.1 picked.1))

take_results-IsTracked :
    {M : Type 0} (selected : List String) (p : Poller M) (fetch : Device → Polled M)
    (ds : List Device)
    → AllSelected selected ds
    → IsTracked selected p.troubles
    → IsTracked selected (take_results p fetch ds).troubles
unfolding take_results take_result
take_results-IsTracked selected p fetch [] a h = h
take_results-IsTracked selected p fetch (d ∷ ds) a h =
    take_results-IsTracked selected (take_result p d.id (fetch d)) fetch ds a.1
      (logged-IsTracked selected p.troubles d.id (fetch d).error (fetch d).now a.0 h)

-- After a polling cycle only devices that a browser had selected when it began have an entry of
-- failures, whatever devices there are, whatever their fetches return and in whatever order they
-- finish.
pub poll_once-IsTracked :
    {M : Type 0} (p : Poller M) (devices : List Device) (fetch : Device → Polled M) (turns : List ℕ)
    → IsTracked (selected_now p) (poll_once p devices fetch turns).troubles
unfolding poll_once polled_devices
poll_once-IsTracked p devices fetch turns =
    let selected = selected_now p in
    let kept = keep_if (λ (e : String × Trouble). is_selected selected e.0) p.troubles in
    take_results-IsTracked selected (record p { troubles = kept }) fetch _
      (as_completed-AllSelected selected turns _ (polled-AllSelected selected devices))
      (kept-IsTracked selected p.troubles)
