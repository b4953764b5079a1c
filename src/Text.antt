-- ===== src/Text.antt =====
-- The methods of Python's `str` that the program uses, on lists of code points.
pub mod Laws
use Prim.Native.Char.{code}
use simple_network_dashboard.Prelude.{
  ℕ, String, ◌≡◌, ◌↔◌, Bool, true, false, ◌&&◌, ◌||◌, List, [], ◌∷◌, arith, leb, if◌then◌else◌,
  is_nil, any, Eq, nat_eq, ◌==◌,
}

abbrev pub Text : Type 0
Text = List ℕ

-- the code points of a literal
abbrev pub codes : String → Text
codes String.[] = []
codes (String.◌∷◌ c s) = code c ∷ codes s

abbrev pub text_same : Text → Text → Bool
text_same [] [] = true
text_same (a ∷ s) (b ∷ t) = a == b && text_same s t
text_same _ _ = false

pub text_same_iff : (s t : Text) → (text_same s t ≡ true) ↔ (s ≡ t)
text_same_iff (a ∷ s) (b ∷ t) = ground (arith, text_same_iff s t)
text_same_iff _ _ = ground arith

instance abbrev pub text_eq : Eq Text
text_eq = record { same = text_same; same_iff = text_same_iff }

-- `c.isspace()`, which is also `\s` of a regular expression
abbrev pub space_ranges : List (ℕ × ℕ)
space_ranges =
    (9, 13)
    ∷ (28, 32)
    ∷ (133, 133)
    ∷ (160, 160)
    ∷ (5760, 5760)
    ∷ (8192, 8202)
    ∷ (8232, 8233)
    ∷ (8239, 8239)
    ∷ (8287, 8287)
    ∷ (12288, 12288)
    ∷ []

unfoldable pub is_space : ℕ → Bool
is_space c = any (λ (r : ℕ × ℕ). leb r.0 c && leb c r.1) space_ranges

-- the longest prefix whose code points pass a test, and what follows it
unfoldable pub span : (ℕ → Bool) → Text → Text × Text
span p [] = ([], [])
span p (c ∷ s) = let (t, u) = span p s in if p c then (c ∷ t, u) else ([], c ∷ s)

-- `s.lstrip()`, or what follows `\s*`
unfoldable pub skip_spaces : Text → Text
skip_spaces [] = []
skip_spaces (c ∷ s) = let rest = skip_spaces s in if is_space c then rest else c ∷ s

-- `s.rstrip()`
unfoldable pub rstrip : Text → Text
rstrip [] = []
rstrip (c ∷ s) = let rest = rstrip s in if is_space c && is_nil rest then [] else c ∷ rest

-- `s.strip()`
unfoldable pub strip : Text → Text
strip s = rstrip (skip_spaces s)

-- `s.startswith(t)`
unfoldable pub starts_with : Text → Text → Bool
starts_with s [] = true
starts_with [] (d ∷ t) = false
starts_with (c ∷ s) (d ∷ t) = c == d && starts_with s t

-- puts a code point in front of the first field or line
abbrev pub onto_first : ℕ → List Text → List Text
onto_first c [] = (c ∷ []) ∷ []
onto_first c (f ∷ fs) = (c ∷ f) ∷ fs

abbrev pub next_is_space : Text → Bool
next_is_space [] = true
next_is_space (c ∷ s) = is_space c

-- `s.split()`
unfoldable pub split : Text → List Text
split [] = []
split (c ∷ s) =
    let rest = split s in
    if is_space c then rest else if next_is_space s then (c ∷ []) ∷ rest else onto_first c rest

-- the line boundaries of `s.splitlines()`
unfoldable pub is_line_end : ℕ → Bool
is_line_end c = leb 10 c && leb c 13 || leb 28 c && leb c 30 || c == 133 || leb 8232 c && leb c 8233

-- `s.splitlines()`; a line feed that follows a carriage return ends no further line
unfoldable pub lines_from : Bool → Text → List Text
lines_from after_return [] = []
lines_from after_return (c ∷ s) =
    let rest = lines_from (c == 13) s in
    if after_return && c == 10 then rest else if is_line_end c then [] ∷ rest else onto_first c rest

unfoldable pub split_lines : Text → List Text
split_lines s = lines_from false s
