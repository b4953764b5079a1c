-- ===== src/Text/Laws.antt =====
-- Laws of the methods of Python's `str` that the program uses.
use simple_network_dashboard.Prelude.{
  ℕ, ◌≡◌, refl, Bool, true, false, [], ◌∷◌, ◌++◌, arith, is_nil, All, nat_eq, ◌==◌,
}
use simple_network_dashboard.Text.{
  Text, is_space, span, skip_spaces, rstrip, split, is_line_end, lines_from, split_lines,
}

abbrev pub NotSpaces : Text → Type 0
NotSpaces s = All (λ (c : ℕ). is_space c ≡ false) s

-- a text that a line can hold
abbrev pub IsInLine : Text → Type 0
IsInLine s = All (λ (c : ℕ). is_line_end c ≡ false) s

pub not_line_end : (c : ℕ) → is_space c ≡ false → is_line_end c ≡ false
unfolding is_space is_line_end
not_line_end c h = ground arith

pub rstrip-NotSpaces : (s : Text) → NotSpaces s → rstrip s ≡ s
unfolding rstrip
rstrip-NotSpaces [] h = refl
rstrip-NotSpaces (c ∷ s) h = rw (h.0, rstrip-NotSpaces s h.1)

pub rstrip-append : (s v : Text) → is_nil v ≡ false → NotSpaces v → rstrip (s ++ v) ≡ s ++ v
unfolding rstrip
rstrip-append [] v ne h = rstrip-NotSpaces v h
rstrip-append (c ∷ s) v ne h =
    let kept : is_nil (s ++ v) ≡ false = is_nil-append s v ne in
    rw (rstrip-append s v ne h) (ground (arith, kept))
  where
    is_nil-append : (s v : Text) → is_nil v ≡ false → is_nil (s ++ v) ≡ false
    is_nil-append [] v ne = ne
    is_nil-append (c ∷ s) v ne = refl

pub split-NotSpaces : (s : Text) → is_nil s ≡ false → NotSpaces s → split s ≡ s ∷ []
unfolding split
split-NotSpaces [] ne h = cc
split-NotSpaces (c ∷ []) ne h = rw h.0
split-NotSpaces (c ∷ d ∷ s) ne h = ground (arith, split-NotSpaces (d ∷ s) refl h.1)

not_return : (c : ℕ) → is_line_end c ≡ false → (c == 13) ≡ false
unfolding is_line_end
not_return c h = ground arith

lines_from-append :
    (l rest : Text)
    → IsInLine l
    → lines_from false (l ++ (b'\n' ∷ rest)) ≡ l ∷ lines_from false rest
unfolding lines_from is_line_end
lines_from-append [] rest h = refl
lines_from-append (c ∷ l) rest h = rw (not_return c h.0, lines_from-append l rest h.1) (rw h.0)

pub split_lines-append :
    (l rest : Text) → IsInLine l → split_lines (l ++ (b'\n' ∷ rest)) ≡ l ∷ split_lines rest
unfolding split_lines
split_lines-append l rest h = lines_from-append l rest h

pub skip_spaces-cons : (c : ℕ) (s : Text) → is_space c ≡ false → skip_spaces (c ∷ s) ≡ c ∷ s
unfolding skip_spaces
skip_spaces-cons c s h = rw h

pub span-append :
    (p : ℕ → Bool) (n : Text) (d : ℕ) (rest : Text)
    → All (λ (c : ℕ). p c ≡ true) n
    → p d ≡ false
    → span p (n ++ (d ∷ rest)) ≡ (n, d ∷ rest)
unfolding span
span-append p [] d rest h k = rw k
span-append p (c ∷ n) d rest h k = rw (h.0, span-append p n d rest h.1 k)
