-- ===== src/Metrics/Labels/RoundTrip.antt =====
-- The text format of the exporters, and what `_parse_label_block` of
-- simple_network_dashboard/metrics_poller.py reads from it.
-- `[A-Za-z_][A-Za-z0-9_]*`
use simple_network_dashboard.Prelude.{
  lookup, insert, ℕ, zero, suc, ◌≤◌, ◌<◌, ◌≡◌, refl, ap, ◌∙◌, ◌⊎◌, inl, inr, true, false, none,
  some, [], ◌∷◌, ◌++◌, arith, if◌then◌else◌, length, is_nil, length-append, All, append-nil,
  append_assoc, nat_eq, ◌==◌,
}
use simple_network_dashboard.Text.{Text, text_eq, is_space}
use simple_network_dashboard.Text.Laws.{skip_spaces-cons, span-append}
use simple_network_dashboard.Metrics.Labels.{
  Labels, unescaped, unescape_from, unescape_label, is_name_start, is_name_char, take_value, after,
  separator, value_pair, match_pair_at, match_pair, block_end, Block, parsed, parse_pairs,
  parse_label_block,
}

unfoldable pub IsName : Text → Type 0
IsName [] = ⊥
IsName (c ∷ s) = (is_name_start c ≡ true) × All (λ (d : ℕ). is_name_char d ≡ true) (c ∷ s)

-- no label has the name of one before it
unfoldable pub IsDistinct : Labels → Labels → Type 0
IsDistinct before [] = Unit
IsDistinct before ((n, v) ∷ ls) = (lookup n before ≡ none) × IsDistinct (before ++ (n, v) ∷ []) ls

abbrev pub AllNamed : Labels → Type 0
AllNamed ls = All (λ (l : Text × Text). IsName l.0) ls

-- how the format writes a code point of a label value
unfoldable pub escape_char : ℕ → Text
escape_char c =
    if c == b'\\'
    then b'\\' ∷ b'\\' ∷ []
    else if c == b'"'
    then b'\\' ∷ b'"' ∷ []
    else if c == b'\n'
    then b'\\' ∷ b'n' ∷ []
    else c ∷ []

unfoldable pub escape : Text → Text
escape [] = []
escape (c ∷ s) = escape_char c ++ escape s

-- the labels as the format writes them behind the opening brace, and what follows them
unfoldable pub print_labels : Labels → Text → Text
print_labels [] rest = b'}' ∷ rest
print_labels ((n, v) ∷ ls) rest =
    let more = print_labels ls rest in
    n ++ (b'=' ∷ b'"' ∷ (escape v ++ (b'"' ∷ (if is_nil ls then more else b',' ∷ more))))

unescape_from-escape : (v : Text) → unescape_from false (escape v) ≡ v
unfolding unescape_from escape unescaped escape_char
unescape_from-escape [] = refl
unescape_from-escape (c ∷ s) = ground (arith, unescape_from-escape s)

take_value-escape :
    (v rest : Text) → take_value false (escape v ++ (b'"' ∷ rest)) ≡ some (escape v, rest)
unfolding take_value escape escape_char
take_value-escape [] rest = refl
take_value-escape (c ∷ s) rest = ground (arith, take_value-escape s rest)

name_start_lem : (c : ℕ) → is_name_start c ≡ true → (is_space c ≡ false) × ((c == b'}') ≡ false)
unfolding is_name_start is_space
name_start_lem c h = ground arith

value_pair-print :
    (n v : Text) (d : ℕ) (rest : Text)
    → (d ≡ b'}') ⊎ (d ≡ b',')
    → value_pair n (b'=' ∷ b'"' ∷ (escape v ++ (b'"' ∷ d ∷ rest)))
      ≡ some (record { name = n; raw = escape v; closes = d == b'}'; rest = rest })
unfolding value_pair after separator is_space
value_pair-print n v d rest h =
    let tail = escape v ++ (b'"' ∷ d ∷ rest) in
    let not_space : is_space d ≡ false = ground arith in
    rw (skip_spaces-cons b'=' (b'"' ∷ tail) refl, skip_spaces-cons b'"' tail refl)
      (rw (take_value-escape v (d ∷ rest)) (rw (skip_spaces-cons d rest not_space) (ground arith)))

-- what one round of the loop reads
match_pair-print :
    (n v : Text) (d : ℕ) (rest : Text)
    → IsName n
    → (d ≡ b'}') ⊎ (d ≡ b',')
    → match_pair (n ++ (b'=' ∷ b'"' ∷ (escape v ++ (b'"' ∷ d ∷ rest))))
      ≡ some (record { name = n; raw = escape v; closes = d == b'}'; rest = rest })
unfolding match_pair match_pair_at IsName is_name_char is_name_start
match_pair-print [] v d rest name h = absurd name
match_pair-print (c ∷ n) v d rest name h =
    let tail = escape v ++ (b'"' ∷ d ∷ rest) in
    let s = b'=' ∷ b'"' ∷ tail in
    rw (skip_spaces-cons c (n ++ s) (name_start_lem c name.0).0) (
      rw (name.0, span-append is_name_char (c ∷ n) b'=' (b'"' ∷ tail) name.1 refl)
        (value_pair-print (c ∷ n) v d rest h))

block_end-print : (n s : Text) → IsName n → block_end (n ++ s) ≡ none
unfolding block_end after IsName
block_end-print [] s h = absurd h
block_end-print (c ∷ n) s h =
    rw (skip_spaces-cons c (n ++ s) (name_start_lem c h.0).0) (rw (name_start_lem c h.0).1)

lookup-none-insert :
    (n v : Text) (before : Labels)
    → lookup n before ≡ none
    → insert n v before ≡ before ++ (n, v) ∷ []
unfolding lookup insert
lookup-none-insert n v [] h = refl
lookup-none-insert n v ((j, w) ∷ before) h = ground (arith, lookup-none-insert n v before)

block_end-brace : (rest : Text) → block_end (b'}' ∷ rest) ≡ some rest
unfolding block_end after is_space
block_end-brace rest = rw (skip_spaces-cons b'}' rest refl)

-- a round of the loop at the text of one label
parse_pairs_round :
    (fuel : ℕ) (before : Labels) (n v : Text) (d : ℕ) (rest : Text)
    → IsName n
    → (d ≡ b'}') ⊎ (d ≡ b',')
    → lookup n before ≡ none
    → parse_pairs (suc fuel) before (n ++ (b'=' ∷ b'"' ∷ (escape v ++ (b'"' ∷ d ∷ rest)))) ≡ (
        let labels = before ++ (n, v) ∷ [] in
        elim (d == b'}') [ true ↦ parsed labels rest | false ↦ parse_pairs fuel labels rest ])
unfolding parse_pairs unescape_label
parse_pairs_round fuel before n v d rest name h new =
    let s = b'=' ∷ b'"' ∷ (escape v ++ (b'"' ∷ d ∷ rest)) in
    let kept : insert n (unescape_label (escape v)) before ≡ before ++ (n, v) ∷ [] =
      rw (unescape_from-escape v) (lookup-none-insert n v before new) in
    let go : Labels → Block = λ (labels : Labels). elim (d == b'}') [
      | true ↦ parsed labels rest
      | false ↦ parse_pairs fuel labels rest
    ] in
    rw (block_end-print n s name, parse_pairs)
      (rw (match_pair-print n v d rest name h) (ap go kept))

parse_pairs-print :
    (fuel : ℕ) (before ls : Labels) (rest : Text)
    → length ls < fuel
    → AllNamed ls
    → IsDistinct before ls
    → parse_pairs fuel before (print_labels ls rest) ≡ parsed (before ++ ls) rest
unfolding parse_pairs print_labels IsDistinct
parse_pairs-print zero before ls rest l names new = absurd (omega arith)
parse_pairs-print (suc fuel) before [] rest l names new =
    rw (block_end-brace rest, parse_pairs) (rw (append-nil before))
parse_pairs-print (suc fuel) before ((n, v) ∷ []) rest l names new =
    parse_pairs_round fuel before n v b'}' rest names.0 (inl refl) new.0
parse_pairs-print (suc fuel) before ((n, v) ∷ l2 ∷ ls) rest l names new =
    parse_pairs_round fuel before n v b',' (print_labels (l2 ∷ ls) rest) names.0 (inr refl) new.0
    ∙ parse_pairs-print fuel (before ++ (n, v) ∷ []) (l2 ∷ ls) rest (omega arith) names.1 new.1
    ∙ rw (append_assoc before ((n, v) ∷ []) (l2 ∷ ls))

length-print_labels-le : (ls : Labels) (rest : Text) → length ls ≤ length (print_labels ls rest)
unfolding print_labels
length-print_labels-le [] rest = omega arith
length-print_labels-le ((n, v) ∷ ls) rest =
    let more = if is_nil ls then print_labels ls rest else b',' ∷ print_labels ls rest in
    let shorter : length (print_labels ls rest) ≤ length more = ground arith in
    omega (
      arith,
      shorter,
      length-print_labels-le ls rest,
      length-append n (b'=' ∷ b'"' ∷ (escape v ++ (b'"' ∷ more))),
      length-append (escape v) (b'"' ∷ more),
    )

-- Labels.
pub parse_label_block-print :
    (ls : Labels) (rest : Text)
    → AllNamed ls
    → IsDistinct [] ls
    → parse_label_block (print_labels ls rest) ≡ parsed ls rest
unfolding parse_label_block
parse_label_block-print ls rest names new =
    parse_pairs-print (suc (length (print_labels ls rest))) [] ls rest
      (omega (arith, length-print_labels-le ls rest)) names new
