-- ===== src/Metrics/Lines.antt =====
-- `_parse` and `_scalar` of simple_network_dashboard/metrics_poller.py. Python's `float` is a
-- parameter, as is whether `int` accepts a text.
pub mod RoundTrip
use mathlib.Core.Option
use simple_network_dashboard.Prelude.{
  lookup, insert, ℕ, Bool, not, ◌||◌, Option, none, some, List, [], ◌∷◌, ◌++◌, map, if◌then◌else◌,
  ◌>>=◌, is_nil, nat_eq, ◌==◌, Dict,
}
use simple_network_dashboard.Text.{
  Text, text_eq, is_space, span, strip, starts_with, split, split_lines,
}
use simple_network_dashboard.Metrics.Labels.{Labels, parsed, parse_label_block}

-- `{"labels": labels, "value": value}`
pub record Entry (V : Type 0) : Type 0 where
  pub labels : Labels
  pub value : V

-- metric name to entries
abbrev pub Metrics : Type 0 → Type 0
Metrics V = Dict Text (List (Entry V))

-- `parsed.get(name, [])`
unfoldable pub entries : {V : Type 0} → Text → Metrics V → List (Entry V)
entries name m = elim (lookup name m) [ none ↦ [] | some es ↦ es ]

-- `result.setdefault(name, []).append(entry)`
unfoldable pub add_entry : {V : Type 0} → Metrics V → Text × Entry V → Metrics V
add_entry m (name, e) = insert name (entries name m ++ e ∷ []) m

-- `[^\s{]`
unfoldable pub is_metric_char : ℕ → Bool
is_metric_char c = not (is_space c || c == b'{')

module _ {V : Type 0} (float : Text → Option V) (is_int : Text → Bool) where
  -- the value, and the check of a time stamp
  pub value_of : List Text → Option V
  value_of (f ∷ []) = float f
  value_of (f ∷ t ∷ []) = float f >>= λ v. if is_int t then some v else none
  value_of _ = none

  -- from `value_start` on
  pub read_value : Text → Labels → Text → Option (Text × Entry V)
  read_value name labels [] = none
  read_value name labels (c ∷ s) =
      if is_space c
      then Option.map (λ v. (name, record { labels = labels; value = v }))
          (value_of (split (c ∷ s)))
      else none

  -- from the end of the name on
  pub read_labels : Text → Text → Option (Text × Entry V)
  read_labels name [] = none
  read_labels name (c ∷ s) =
      if c == b'{'
      then elim (parse_label_block s) [
        | parsed labels rest ↦ read_value name labels rest
        | _ ↦ none
      ]
      else read_value name [] (c ∷ s)

  -- one round of the loop, on a line that is stripped and neither empty nor a comment
  pub read_sample : Text → Option (Text × Entry V)
  read_sample line =
      let (name, rest) = span is_metric_char line in
      if is_nil name then none else read_labels name rest

  -- one round of the loop: what it adds, if anything
  pub parse_line : Text → Option (Text × Entry V)
  parse_line line =
      let stripped = strip line in
      if is_nil stripped || starts_with stripped (b'#' ∷ []) then none else read_sample stripped

  -- the loop
  pub add_lines : Metrics V → List Text → Metrics V
  add_lines m [] = m
  add_lines m (line ∷ lines) = elim (parse_line line) [
    | none ↦ add_lines m lines
    | some sample ↦ add_lines (add_entry m sample) lines
  ]

  -- `_parse`
  pub parse : Text → Metrics V
  parse text = add_lines [] (split_lines text)

-- `_scalar`
unfoldable pub scalar : {V : Type 0} → Metrics V → Text → Option V
unfolding entries
scalar m name = elim (entries name m) [ [] ↦ none | e ∷ es ↦ some e.value ]
