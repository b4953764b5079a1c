-- ===== src/Terminal/Size.antt =====
-- `clamp_size` of simple_network_dashboard/terminal_run.py. A size from the browser is an integer
-- of either sign, or absent.
use simple_network_dashboard.Prelude.{ℕ, ◌≤◌, min, max, ◌≡◌, Option, none, some, arith}
use simple_network_dashboard.Config.{
  term_default_cols, term_default_rows, term_min_cols, term_max_cols, term_min_rows, term_max_rows,
}

-- a Python `int`: `neg n` is -(n + 1)
pub data Integer : Type 0 where
  nonneg : ℕ → Integer
  neg : ℕ → Integer

-- `max(low, min(high, n))` at limits of at least 0
pub clamp : ℕ → ℕ → Integer → ℕ
clamp low high (nonneg n) = max low (min high n)
clamp low high (neg n) = low

or_default : Option Integer → ℕ → Integer
or_default none d = nonneg d
or_default (some n) d = n

pub clamp_size : Option Integer → Option Integer → ℕ × ℕ
unfolding clamp or_default
clamp_size cols rows = (
  clamp term_min_cols term_max_cols (or_default cols term_default_cols),
  clamp term_min_rows term_max_rows (or_default rows term_default_rows),
)

abbrev pub InBounds : ℕ × ℕ → Type 0
InBounds (c, r) =
    (term_min_cols ≤ c) × (c ≤ term_max_cols) × (term_min_rows ≤ r) × (r ≤ term_max_rows)

clamp_bounds :
    (low high : ℕ) (n : Integer) → low ≤ high → (low ≤ clamp low high n) × (clamp low high n ≤ high)
unfolding clamp
clamp_bounds low high (nonneg n) h = (omega arith, omega arith)
clamp_bounds low high (neg n) h = (omega arith, omega arith)

-- Whatever size the browser asks for, negative or absent ones included, the terminal has from 20
-- to 500 columns and from 5 to 200 rows; and a size within those bounds is used as it is.
pub clamp_size_lem :
    (cols rows : Option Integer)
    → InBounds (clamp_size cols rows)
      × ((c r : ℕ)
          → cols ≡ some (nonneg c)
          → rows ≡ some (nonneg r)
          → InBounds (c, r)
          → clamp_size cols rows ≡ (c, r))
unfolding clamp_size
clamp_size_lem cols rows = (
  (
    omega (arith, (clamp_bounds 20 500 (or_default cols 120) (omega arith)).0),
    omega (arith, (clamp_bounds 20 500 (or_default cols 120) (omega arith)).1),
    omega (arith, (clamp_bounds 5 200 (or_default rows 30) (omega arith)).0),
    omega (arith, (clamp_bounds 5 200 (or_default rows 30) (omega arith)).1),
  ),
  λ c r ec er b.
      let ec' : clamp 20 500 (nonneg c) ≡ c = omega (arith, b) in
      let er' : clamp 5 200 (nonneg r) ≡ r = omega (arith, b) in rw (ec, er) (rw (ec', er')),
)
