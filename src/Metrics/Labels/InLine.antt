-- ===== src/Metrics/Labels/InLine.antt =====
-- The printed labels of simple_network_dashboard/metrics_poller.py's format, as part of a line.
use simple_network_dashboard.Prelude.{
  ℕ, ◌≡◌, refl, true, false, [], ◌∷◌, ◌++◌, arith, All, All-append, All-mono, append_assoc, nat_eq,
}
use simple_network_dashboard.Text.{Text, text_eq, is_line_end}
use simple_network_dashboard.Text.Laws.{IsInLine}
use simple_network_dashboard.Metrics.Labels.{Labels, is_name_start, is_name_char}
use simple_network_dashboard.Metrics.Labels.RoundTrip.{IsName, AllNamed, escape, print_labels}

pub print_labels-append :
    (ls : Labels) (r v : Text) → print_labels ls (r ++ v) ≡ print_labels ls r ++ v
unfolding print_labels
print_labels-append [] r v = refl
print_labels-append ((n, w) ∷ []) r v = simp append_assoc
print_labels-append ((n, w) ∷ l ∷ ls) r v = simp (print_labels-append (l ∷ ls) r v, append_assoc)

name_char_lem : (c : ℕ) → is_name_char c ≡ true → is_line_end c ≡ false
unfolding is_name_char is_name_start is_line_end
name_char_lem c h = ground arith

name-IsInLine : (n : Text) → IsName n → IsInLine n
unfolding IsName
name-IsInLine [] h = absurd h
name-IsInLine (c ∷ n) h = All-mono _ _ (c ∷ n) name_char_lem h.1

pub labels-IsInLine :
    (ls : Labels) (rest : Text)
    → AllNamed ls
    → All (λ (l : Text × Text). IsInLine (escape l.1)) ls
    → IsInLine rest
    → IsInLine (print_labels ls rest)
unfolding print_labels is_line_end
labels-IsInLine [] rest names values h = (refl, h)
labels-IsInLine ((n, v) ∷ []) rest names values h =
    All-append _ n _ (name-IsInLine n names.0)
      (refl, (refl, All-append _ (escape v) _ values.0 (refl, (refl, h))))
labels-IsInLine ((n, v) ∷ l ∷ ls) rest names values h =
    let more = labels-IsInLine (l ∷ ls) rest names.1 values.1 h in
    All-append _ n _ (name-IsInLine n names.0)
      (refl, (refl, All-append _ (escape v) _ values.0 (refl, (refl, more))))
