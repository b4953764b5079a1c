-- ===== src/Metrics/Lines/RoundTrip.antt =====
-- The text format of the exporters, and what `_parse` of
-- simple_network_dashboard/metrics_poller.py reads from it.
-- a sample, with the text of its value
use simple_network_dashboard.Prelude.{
  lookup, ℕ, ◌≡◌, refl, sym, ap, ◌∙◌, Bool, true, false, ◌||◌, Option, some, List, [], ◌∷◌, ◌++◌,
  map, arith, if◌then◌else◌, is_nil, All, All-append, All-mono, append-nil, append_assoc, nat_eq,
  ◌==◌, lookup-insert,
}
use simple_network_dashboard.Text.{
  Text, text_same_iff, text_eq, is_space, strip, starts_with, split, is_line_end, lines_from,
  split_lines,
}
use simple_network_dashboard.Text.Laws.{
  NotSpaces, IsInLine, not_line_end, rstrip-append, split-NotSpaces, split_lines-append,
  skip_spaces-cons, span-append,
}
use simple_network_dashboard.Metrics.Labels.{Labels}
use simple_network_dashboard.Metrics.Labels.RoundTrip.{
  IsDistinct, AllNamed, escape, print_labels, parse_label_block-print,
}
use simple_network_dashboard.Metrics.Labels.InLine.{print_labels-append, labels-IsInLine}
use simple_network_dashboard.Metrics.Lines.{
  Entry, Metrics, entries, add_entry, is_metric_char, value_of, read_value, read_labels,
  read_sample, parse_line, add_lines, parse,
}

pub record Sample : Type 0 where
  pub name : Text
  pub labels : Labels
  pub value : Text

-- What the format allows. A line feed in a label value is written as an escape, and no other code
-- point at which Python ends a line may stand in one.
pub record IsSample (s : Sample) : Type 0 where
  pub name_ne_nil : is_nil s.name ≡ false
  pub name_chars : All (λ (c : ℕ). is_metric_char c ≡ true) s.name
  pub not_comment : starts_with s.name (b'#' ∷ []) ≡ false
  pub label_names : AllNamed s.labels
  pub label_values : All (λ (l : Text × Text). IsInLine (escape l.1)) s.labels
  pub distinct : IsDistinct [] s.labels
  pub value_ne_nil : is_nil s.value ≡ false
  pub value_chars : NotSpaces s.value

-- the line of a sample
pub print_sample : Sample → Text
print_sample s = s.name ++ (b'{' ∷ print_labels s.labels (b' ' ∷ s.value))

pub print_samples : List Sample → Text
print_samples [] = []
print_samples (s ∷ ss) = print_sample s ++ (b'\n' ∷ print_samples ss)

metric_char_lem : (c : ℕ) → is_metric_char c ≡ true → is_space c ≡ false
unfolding is_metric_char
metric_char_lem c h = ground arith

sample-IsInLine : (s : Sample) → IsSample s → IsInLine (print_sample s)
unfolding print_sample is_line_end
sample-IsInLine s h =
    let name =
      All-mono _ (λ (c : ℕ). is_line_end c ≡ false) s.name
        (λ (c : ℕ) m. not_line_end c (metric_char_lem c m)) h.name_chars in
    let value = All-mono _ (λ (c : ℕ). is_line_end c ≡ false) s.value not_line_end h.value_chars in
    All-append _ s.name _ name
      (refl, labels-IsInLine s.labels _ h.label_names h.label_values (refl, value))

strip-sample :
    (n t v : Text)
    → is_nil n ≡ false
    → All (λ (c : ℕ). is_metric_char c ≡ true) n
    → is_nil v ≡ false
    → NotSpaces v
    → strip (n ++ (t ++ v)) ≡ n ++ (t ++ v)
unfolding strip
strip-sample [] t v ne name vne value = cc
strip-sample (c ∷ n) t v ne name vne value =
    rw (skip_spaces-cons c (n ++ (t ++ v)) (metric_char_lem c name.0))
      (rw (← append_assoc (c ∷ n) t v) (rstrip-append (c ∷ n ++ t) v vne value))

strip-print_sample : (s : Sample) → IsSample s → strip (print_sample s) ≡ print_sample s
unfolding print_sample
strip-print_sample s h = rw (print_labels-append s.labels (b' ' ∷ []) s.value) (
    strip-sample s.name (b'{' ∷ print_labels s.labels (b' ' ∷ [])) s.value h.name_ne_nil
      h.name_chars h.value_ne_nil h.value_chars)

not_nil_or_comment :
    (n t : Text)
    → is_nil n ≡ false
    → starts_with n (b'#' ∷ []) ≡ false
    → (is_nil (n ++ t) || starts_with (n ++ t) (b'#' ∷ [])) ≡ false
unfolding starts_with
not_nil_or_comment [] t ne h = cc
not_nil_or_comment (c ∷ n) t ne h = h

-- the entries of a metric that samples with these values make
pub samples_of : {V : Type 0} → Text → List (Sample × V) → List (Entry V)
samples_of name [] = []
samples_of name ((s, v) ∷ ss) =
    let rest = samples_of name ss in
    if s.name == name then record { labels = s.labels; value = v } ∷ rest else rest

entries-add_entry :
    {V : Type 0} (m : Metrics V) (n : Text) (e : Entry V) (name : Text)
    → entries name (add_entry m (n, e)) ≡ entries name m ++ (if n == name then e ∷ [] else [])
unfolding entries add_entry
entries-add_entry m n e name = ground (
  arith,
  lookup-insert name n (entries n m ++ e ∷ []) m,
  text_same_iff n name,
  append-nil (entries name m),
)

module _ {V : Type 0} (float : Text → Option V) (is_int : Text → Bool) where
  read_value-print :
      (name : Text) (labels : Labels) (value : Text) {v : V}
      → is_nil value ≡ false
      → NotSpaces value
      → float value ≡ some v
      → read_value float is_int name labels (b' ' ∷ value)
        ≡ some (name, record { labels = labels; value = v })
  unfolding read_value value_of split is_space
  read_value-print name labels value ne h f = rw (split-NotSpaces value ne h) (rw f)

  read_sample-print :
      (s : Sample) {v : V}
      → IsSample s
      → float s.value ≡ some v
      → read_sample float is_int (print_sample s)
        ≡ some (s.name, record { labels = s.labels; value = v })
  unfolding read_sample read_labels print_sample is_metric_char is_space
  read_sample-print s h f =
      let tail = print_labels s.labels (b' ' ∷ s.value) in
      rw (span-append is_metric_char s.name b'{' tail h.name_chars refl) (
        rw h.name_ne_nil (
          rw (parse_label_block-print s.labels (b' ' ∷ s.value) h.label_names h.distinct)
            (read_value-print s.name s.labels s.value h.value_ne_nil h.value_chars f)))

  parse_line-print :
      (s : Sample) {v : V}
      → IsSample s
      → float s.value ≡ some v
      → parse_line float is_int (print_sample s)
        ≡ some (s.name, record { labels = s.labels; value = v })
  unfolding parse_line
  parse_line-print s h f =
      let tail = b'{' ∷ print_labels s.labels (b' ' ∷ s.value) in
      let read : (is_nil (print_sample s) || starts_with (print_sample s) (b'#' ∷ [])) ≡ false =
        unfold print_sample in not_nil_or_comment s.name tail h.name_ne_nil h.not_comment in
      rw (strip-print_sample s h) (rw read (read_sample-print s h f))

  add_lines-some :
      (m : Metrics V) (line : Text) (lines : List Text) {sample : Text × Entry V}
      → parse_line float is_int line ≡ some sample
      → add_lines float is_int m (line ∷ lines) ≡ add_lines float is_int (add_entry m sample) lines
  unfolding add_lines
  add_lines-some m line lines e = rw (e, add_lines)

  add_lines-print :
      (ss : List (Sample × V)) (m : Metrics V) (name : Text)
      → All (λ (p : Sample × V). IsSample p.0 × (float p.0.value ≡ some p.1)) ss
      → entries name (
          add_lines float is_int m (split_lines (print_samples (map (λ (p : Sample × V). p.0) ss))))
        ≡ entries name m ++ samples_of name ss
  unfolding print_samples samples_of
  add_lines-print [] m name h =
      unfold add_lines split_lines lines_from in sym (append-nil (entries name m))
  add_lines-print ((s, v) ∷ ss) m name h =
      let e : Entry V = record { labels = s.labels; value = v } in
      let rest = print_samples (map (λ (p : Sample × V). p.0) ss) in
      let here = if s.name == name then e ∷ [] else [] in
      rw (split_lines-append (print_sample s) rest (sample-IsInLine s h.0.0)) (
        ap (entries name)
          (add_lines-some m (print_sample s) (split_lines rest) (parse_line-print s h.0.0 h.0.1))
        ∙ add_lines-print ss (add_entry m (s.name, e)) name h.1
        ∙ ap (λ es. es ++ samples_of name ss) (entries-add_entry m s.name e name)
        ∙ append_assoc (entries name m) here (samples_of name ss)
        ∙ ap (λ es. entries name m ++ es) (ground arith))

  -- Of samples in the exporters' format, one to a line, `_parse` keeps under each metric name
  -- exactly the samples of that name, in order, with their labels in order, every label value as it
  -- was before it was escaped, and the number of the value. The hypothesis says what the format
  -- allows: names of the right shape, no label twice, a value that `float` accepts, and in label
  -- values no code point but the line feed at which Python ends a line.
  pub parse-print_samples :
      (ss : List (Sample × V)) (name : Text)
      → All (λ (p : Sample × V). IsSample p.0 × (float p.0.value ≡ some p.1)) ss
      → entries name (parse float is_int (print_samples (map (λ (p : Sample × V). p.0) ss)))
        ≡ samples_of name ss
  unfolding parse
  parse-print_samples ss name h = add_lines-print ss [] name h ∙ unfold entries lookup in refl
