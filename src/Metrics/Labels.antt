-- ===== src/Metrics/Labels.antt =====
-- The label block of a metric line in simple_network_dashboard/metrics_poller.py:
-- `_unescape_label` and `_parse_label_block`. A position in the line is the text from there on.
-- The regular expressions have one way to match, so each is read from left to right.
pub mod RoundTrip
pub mod InLine
pub mod Termination
use mathlib.Core.Option
use simple_network_dashboard.Prelude.{
  insert, ℕ, zero, suc, Bool, true, false, not, ◌&&◌, ◌||◌, Option, none, some, [], ◌∷◌, ◌++◌, map,
  leb, if◌then◌else◌, ◌>>=◌, length, nat_eq, ◌==◌, Dict,
}
use simple_network_dashboard.Text.{Text, text_eq, span, skip_spaces}

abbrev pub Labels : Type 0
Labels = Dict Text Text

-- what the function returns for `m.group(0)` of a match of `_LABEL_ESCAPE_RE`, or what stays if
-- there is no match because the code point is a line feed
unfoldable pub unescaped : ℕ → Text
unescaped c =
    if c == b'\\'
    then b'\\' ∷ []
    else if c == b'"'
    then b'"' ∷ []
    else if c == b'n'
    then b'\n' ∷ []
    else b'\\' ∷ c ∷ []

-- `_unescape_label`, after a backslash or not
unfoldable pub unescape_from : Bool → Text → Text
unescape_from false [] = []
unescape_from true [] = b'\\' ∷ []
unescape_from true (c ∷ s) = unescaped c ++ unescape_from false s
unescape_from false (c ∷ s) =
    let rest = unescape_from (c == b'\\') s in if c == b'\\' then rest else c ∷ rest

unfoldable pub unescape_label : Text → Text
unescape_label raw = unescape_from false raw

-- `[A-Za-z_]`
unfoldable pub is_name_start : ℕ → Bool
is_name_start c = leb b'A' c && leb c b'Z' || leb b'a' c && leb c b'z' || c == b'_'

-- `[A-Za-z0-9_]`
unfoldable pub is_name_char : ℕ → Bool
unfolding is_name_start
is_name_char c = is_name_start c || leb b'0' c && leb c b'9'

-- `((?:[^"\\]|\\.)*)"`, after a backslash or not: the raw value, and what follows the quote
unfoldable pub take_value : Bool → Text → Option (Text × Text)
take_value escaped [] = none
take_value escaped (c ∷ s) =
    let rest = take_value (not escaped && c == b'\\') s in
    if not escaped && c == b'"'
    then some ([], s)
    else if escaped && c == b'\n'
    then none
    else Option.map (λ (r : Text × Text). (c ∷ r.0, r.1)) rest

-- what follows the code point, if the text begins with it
unfoldable pub after : ℕ → Text → Option Text
after c [] = none
after c (d ∷ s) = if d == c then some s else none

-- a match of `_LABEL_PAIR_RE`: the name, the raw value, whether the block ends, and what follows
pub record Pair : Type 0 where
  pub name : Text
  pub raw : Text
  pub closes : Bool
  pub rest : Text

unfoldable pub separator : Text → Text → Text → Option Pair
separator name raw [] = none
separator name raw (c ∷ s) =
    if c == b'}'
    then some (record { name = name; raw = raw; closes = true; rest = s })
    else if c == b','
    then some (record { name = name; raw = raw; closes = false; rest = s })
    else none

unfoldable pub value_pair : Text → Text → Option Pair
value_pair name s = do
  s1 ← after b'=' (skip_spaces s)
  s2 ← after b'"' (skip_spaces s1)
  v ← take_value false s2
  separator name v.0 (skip_spaces v.1)

unfoldable pub match_pair_at : Text → Option Pair
match_pair_at [] = none
match_pair_at (c ∷ s) =
    let (name, rest) = span is_name_char (c ∷ s) in
    if is_name_start c then value_pair name rest else none

unfoldable pub match_pair : Text → Option Pair
match_pair s = match_pair_at (skip_spaces s)

-- `_LABEL_BLOCK_END_RE.match`
unfoldable pub block_end : Text → Option Text
block_end s = after b'}' (skip_spaces s)

-- what `_parse_label_block` returns
pub data Block : Type 0 where
  malformed out_of_fuel : Block
  parsed : Labels → Text → Block

-- the `while` loop at `pos`; each round takes fuel
unfoldable pub parse_pairs : ℕ → Labels → Text → Block
parse_pairs zero labels s = out_of_fuel
parse_pairs (suc fuel) labels s = elim (block_end s) [
  | some rest ↦ parsed labels rest
  | none ↦ elim (match_pair s) [
    | none ↦ malformed
    | some p ↦
        let labels' = insert p.name (unescape_label p.raw) labels in
        elim p.closes [ true ↦ parsed labels' p.rest | false ↦ parse_pairs fuel labels' p.rest ]
  ]
]

-- `_parse_label_block(line, start)`, of the text behind the opening brace. Every round but the last
-- takes at least one code point.
unfoldable pub parse_label_block : Text → Block
parse_label_block s = parse_pairs (suc (length s)) [] s
