-- ===== src/Metrics/Labels/Termination.antt =====
-- The loop of `_parse_label_block` in simple_network_dashboard/metrics_poller.py ends: each round
-- takes something of the line.
use simple_network_dashboard.Prelude.{
  insert, ℕ, zero, suc, ◌≤◌, ◌<◌, ◌≡◌, inl, inr, Bool, true, false, not, ◌&&◌, Option, none, some,
  [], ◌∷◌, arith, if◌then◌else◌, Bool-cases, Option-cases, option_elim, >>=-eq-some, length, nat_eq,
  ◌==◌,
}
use simple_network_dashboard.Text.{Text, text_eq, span, skip_spaces}
use simple_network_dashboard.Metrics.Labels.{
  Labels, unescape_label, is_name_start, is_name_char, take_value, after, Pair, separator,
  value_pair, match_pair_at, match_pair, block_end, Block, malformed, out_of_fuel, parsed,
  parse_pairs, parse_label_block,
}

pub length-skip_spaces-le : (s : Text) → length (skip_spaces s) ≤ length s
unfolding skip_spaces
length-skip_spaces-le [] = omega arith
length-skip_spaces-le (c ∷ s) = ground (arith, length-skip_spaces-le s)

length-span-le : (p : ℕ → Bool) (s : Text) → length (span p s).1 ≤ length s
unfolding span
length-span-le p [] = omega arith
length-span-le p (c ∷ s) = ground (arith, length-span-le p s)

length-after-lt : (c : ℕ) (s : Text) {r : Text} → after c s ≡ some r → length r < length s
unfolding after
length-after-lt c [] h = cc
length-after-lt c (d ∷ s) h = ground arith

length-take_value-lt :
    (e : Bool) (s : Text) {v : Text × Text} → take_value e s ≡ some v → length v.1 < length s
unfolding take_value
length-take_value-lt e [] h = cc
length-take_value-lt e (c ∷ s) {v} h = elim (Option-cases (take_value (not e && c == b'\\') s)) [
  | inl n ↦ ground (arith, n)
  | inr (r, o) ↦ ground (arith, o, length-take_value-lt (not e && c == b'\\') s o)
]

length-separator-lt :
    (name raw s : Text) {p : Pair} → separator name raw s ≡ some p → length p.rest < length s
unfolding separator
length-separator-lt name raw [] h = cc
length-separator-lt name raw (c ∷ s) h = ground arith

length-value_pair-lt :
    (name s : Text) {p : Pair} → value_pair name s ≡ some p → length p.rest < length s
unfolding value_pair
length-value_pair-lt name s h =
    let (s1, e1, h1) = >>=-eq-some (after b'=' (skip_spaces s)) _ h in
    let (s2, e2, h2) = >>=-eq-some (after b'"' (skip_spaces s1)) _ h1 in
    let (v, e3, h3) = >>=-eq-some (take_value false s2) _ h2 in
    omega (
      arith,
      length-after-lt b'=' (skip_spaces s) e1,
      length-after-lt b'"' (skip_spaces s1) e2,
      length-take_value-lt false s2 e3,
      length-separator-lt name v.0 (skip_spaces v.1) h3,
      length-skip_spaces-le s,
      length-skip_spaces-le s1,
      length-skip_spaces-le v.1,
    )

some_of_if {ℓ} :
    {A : Type ℓ} (t : Bool) (o : Option A) {a : A} → (if t then o else none) ≡ some a → o ≡ some a
some_of_if true o h = h
some_of_if false o h = cc

length-match_pair_at-lt :
    (s : Text) {p : Pair} → match_pair_at s ≡ some p → length p.rest < length s
unfolding match_pair_at
length-match_pair_at-lt [] h = cc
length-match_pair_at-lt (c ∷ s) h =
    let name = (span is_name_char (c ∷ s)).0 in
    let rest = (span is_name_char (c ∷ s)).1 in
    let v = some_of_if (is_name_start c) (value_pair name rest) h in
    omega (arith, length-value_pair-lt name rest v, length-span-le is_name_char (c ∷ s))

pub length-match_pair-lt : (s : Text) {p : Pair} → match_pair s ≡ some p → length p.rest < length s
unfolding match_pair
length-match_pair-lt s h =
    omega (arith, length-match_pair_at-lt (skip_spaces s) h, length-skip_spaces-le s)

pub length-block_end-lt : (s : Text) {r : Text} → block_end s ≡ some r → length r < length s
unfolding block_end
length-block_end-lt s h =
    omega (arith, length-after-lt b'}' (skip_spaces s) h, length-skip_spaces-le s)

-- the block has been read to its end, or found to be malformed
pub IsReturned : Text → Block → Type 0
IsReturned s malformed = Unit
IsReturned s out_of_fuel = ⊥
IsReturned s (parsed labels rest) = length rest < length s

IsReturned-mono : (s t : Text) (b : Block) → length s < length t → IsReturned s b → IsReturned t b
unfolding IsReturned
IsReturned-mono s t malformed l h = tt
IsReturned-mono s t out_of_fuel l h = h
IsReturned-mono s t (parsed labels rest) l h = omega arith

parse_pairs-IsReturned :
    (fuel : ℕ) (labels : Labels) (s : Text)
    → length s < fuel
    → IsReturned s (parse_pairs fuel labels s)
unfolding parse_pairs IsReturned
parse_pairs-IsReturned zero labels s l = absurd (omega arith)
parse_pairs-IsReturned (suc fuel) labels s l =
    option_elim (IsReturned s) (block_end s) _ _
      (λ _.
        option_elim (IsReturned s) (match_pair s) _ _ (λ _. tt)
          (λ p e.
            round p (length-match_pair-lt s e)
              (parse_pairs-IsReturned fuel (insert p.name (unescape_label p.raw) labels) p.rest)))
      (λ r e. length-block_end-lt s e)
  where
    round :
        (p : Pair)
        → length p.rest < length s
        → (length p.rest < fuel
            → IsReturned p.rest
                (parse_pairs fuel (insert p.name (unescape_label p.raw) labels) p.rest))
        → IsReturned s (elim p.closes [
          | true ↦ parsed (insert p.name (unescape_label p.raw) labels) p.rest
          | false ↦ parse_pairs fuel (insert p.name (unescape_label p.raw) labels) p.rest
        ])
    round p k again = elim (Bool-cases p.closes) [
      | inl c ↦ rw c k
      | inr c ↦ rw c (IsReturned-mono p.rest s _ k (again (omega arith)))
    ]

-- Reading a label block ends on every text, by finding it malformed or by reading it; and if it is
-- read, what is left of the text is shorter.
pub parse_label_block-IsReturned : (s : Text) → IsReturned s (parse_label_block s)
unfolding parse_label_block
parse_label_block-IsReturned s = parse_pairs-IsReturned (suc (length s)) [] s (omega arith)
