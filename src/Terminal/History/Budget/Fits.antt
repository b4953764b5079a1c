-- ===== src/Terminal/History/Budget/Fits.antt =====
-- The trimmed histories fit the budget, and no more is dropped than that takes.
use mathlib.Core.List.{Forall₂}
use native.Mathlib.Nat.{mul-div-le}
use simple_network_dashboard.Prelude.{
  ℕ, suc, ◌+◌, ◌-◌, ◌*◌, ◌/◌, ◌≤◌, ◌<◌, ◌≡◌, inl, inr, List, [], ◌∷◌, map, reverse, arith, ltb,
  ltb→lt, Bool-cases, zero_or_pos, length, take, drop, sum_of, All, drop_all, length-reverse,
  sum_of-reverse, drop-eq-reverse-take,
}
use simple_network_dashboard.Terminal.History.{Snapshot}
use simple_network_dashboard.Terminal.History.Budget.{
  dumps_length, kept_from, trim_terminal, trim_to_budget,
}

-- what a line, and what a terminal takes in the frame
abbrev pub line_size : List ℕ → ℕ
line_size l = dumps_length l + 2

abbrev pub terminal_size : Snapshot → ℕ
terminal_size t = dumps_length t.partial + sum_of line_size t.lines

-- What the loop finds: it keeps `n` lines more, these fit, and one more would not.
record Keeps (share used kept : ℕ) (ls : List (List ℕ)) : Type 0 where
  count : ℕ
  result : kept_from share used kept ls ≡ kept + count
  within : count ≤ length ls
  fits : 0 < count → used + sum_of line_size (take count ls) ≤ share
  most : count < length ls → share < used + sum_of line_size (take (suc count) ls)

kept_from-Keeps : (share used kept : ℕ) (ls : List (List ℕ)) → Keeps share used kept ls
unfolding kept_from
kept_from-Keeps share used kept [] = record {
  count = 0;
  result = omega arith;
  within = omega arith;
  fits = λ h. absurd (omega arith);
  most = λ h. absurd (omega arith);
}
kept_from-Keeps share used kept (l ∷ ls) =
    elim (Bool-cases (ltb share (used + (dumps_length l + 2)))) [
      | inl full ↦ record {
        count = 0;
        result = rw full (omega arith);
        within = omega arith;
        fits = λ h. absurd (omega arith);
        most = λ h. omega (arith, ltb→lt share (used + (dumps_length l + 2)) full);
      }
      | inr room ↦
          let r = kept_from-Keeps share (used + (dumps_length l + 2)) (kept + 1) ls in
          let fits' : used + (dumps_length l + 2) ≤ share = ground arith in
          record {
            count = suc r.count;
            result = rw room (omega (arith, r.result));
            within = omega (arith, r.within);
            fits = λ h. elim (zero_or_pos r.count) [
              | inl z ↦ rw z (omega arith)
              | inr p ↦ omega (arith, r.fits p)
            ];
            most = λ h. omega (arith, r.most (omega arith));
          }
    ]

-- One terminal's history is cut to its newest `kept` lines and nothing else of it changes. Unless
-- no line is left it fits the share, and where a line was dropped one line more would not fit.
pub record IsTrimmed (share : ℕ) (t t' : Snapshot) : Type 0 where
  pub kept : ℕ
  pub within : kept ≤ length t.lines
  pub result : t' ≡ record t { lines = drop (length t.lines - kept) t.lines }
  pub fits : 0 < kept → terminal_size t' ≤ share
  pub most :
      kept < length t.lines
      → share < terminal_size (record t { lines = drop (length t.lines - suc kept) t.lines })

size-newest :
    (k : ℕ) (ls : List (List ℕ))
    → sum_of line_size (drop (length ls - k) ls) ≡ sum_of line_size (take k (reverse ls))
size-newest k ls = rw (drop-eq-reverse-take k ls) (sum_of-reverse line_size (take k (reverse ls)))

trim_terminal-IsTrimmed : (share : ℕ) (t : Snapshot) → IsTrimmed share t (trim_terminal share t)
unfolding trim_terminal
trim_terminal-IsTrimmed share t =
    let r = kept_from-Keeps share (dumps_length t.partial) 0 (reverse t.lines) in
    let size : length (reverse t.lines) ≡ length t.lines = length-reverse t.lines in
    let e : kept_from share (dumps_length t.partial) 0 (reverse t.lines) ≡ r.count =
      omega (arith, r.result) in
    record {
      kept = r.count;
      within = omega (arith, r.within);
      result = rw e;
      fits = λ h. rw e (omega (arith, r.fits h, size-newest r.count t.lines));
      most = λ h. omega (arith, r.most (omega arith), size-newest (suc r.count) t.lines);
    }

map-IsTrimmed :
    (share : ℕ) (ts : List Snapshot) → Forall₂ (IsTrimmed share) ts (map (trim_terminal share) ts)
map-IsTrimmed share [] = Forall₂.nil
map-IsTrimmed share (t ∷ ts) =
    Forall₂.cons (trim_terminal-IsTrimmed share t) (map-IsTrimmed share ts)

-- Every terminal of the frame is trimmed to an equal share of the budget: only oldest lines are
-- dropped and nothing else changes; if a line is left, the terminal fits the share; and if one was
-- dropped, it would not fit with one line more. A terminal that is left no line keeps its
-- unfinished line, whatever its size.
pub trim_to_budget-IsTrimmed :
    (ts : List Snapshot) (budget : ℕ)
    → Forall₂ (IsTrimmed (budget / length ts)) ts (trim_to_budget ts budget)
unfolding trim_to_budget
trim_to_budget-IsTrimmed [] budget = Forall₂.nil
trim_to_budget-IsTrimmed (t ∷ ts) budget = map-IsTrimmed (budget / length (t ∷ ts)) (t ∷ ts)

map-size-le :
    (share : ℕ) (ts : List Snapshot)
    → All (λ t. dumps_length t.partial ≤ share) ts
    → sum_of terminal_size (map (trim_terminal share) ts) ≤ length ts * share
map-size-le share [] h = omega arith
map-size-le share (t ∷ ts) h =
    let r = trim_terminal-IsTrimmed share t in
    let one : terminal_size (trim_terminal share t) ≤ share = elim (zero_or_pos r.kept) [
      | inl z ↦
          rw r.result
            (rw z (rw (drop_all (length t.lines - 0) t.lines (omega arith)) (omega (arith, h.0))))
      | inr p ↦ r.fits p
    ] in
    grind (arith, one, map-size-le share ts h.1)

-- If no unfinished line alone exceeds its share, all the histories of one init frame together take
-- at most the budget, as `json.dumps` writes them.
pub trim_to_budget-size-le :
    (ts : List Snapshot) (budget : ℕ)
    → All (λ t. dumps_length t.partial ≤ budget / length ts) ts
    → sum_of terminal_size (trim_to_budget ts budget) ≤ budget
unfolding trim_to_budget
trim_to_budget-size-le [] budget h = omega arith
trim_to_budget-size-le (t ∷ ts) budget h =
    grind (
      arith,
      map-size-le (budget / length (t ∷ ts)) (t ∷ ts) h,
      mul-div-le budget (length (t ∷ ts)),
    )
