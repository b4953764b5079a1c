-- ===== src/Terminal/History/Plain.antt =====
-- What plain text leaves in the history: a line at the cursor's end, a line typed over another
-- after a carriage return, and nothing while a full-screen program runs.
use simple_network_dashboard.Prelude.{
  ℕ, suc, ◌+◌, ◌-◌, ◌≤◌, ◌<◌, ◌≡◌, refl, ◌∙◌, true, false, List, [], ◌∷◌, ◌++◌, arith, ltb, length,
  set, take, drop, replicate, length-append, length-set, All, append-nil, append_assoc, drop-set,
  take-set, take-append-drop, ◌==◌, nat_eq,
}
use simple_network_dashboard.Config.{term_history_max_lines, term_history_max_line_chars}
use simple_network_dashboard.Terminal.History.{
  text, History, append_bounded, is_printable, write_char, dispatch, feed_char, feed_chars,
}

-- the characters of a text are all stored
abbrev pub AllPrintable : List ℕ → Type 0
AllPrintable = All (λ c. is_printable c ≡ true)

pad-nil : (n m : ℕ) → n ≤ m → replicate {A = ℕ} (n - m) b' ' ≡ []
pad-nil n m h = let e : n - m ≡ 0 = omega arith in rw e

not_control :
    (c : ℕ)
    → is_printable c ≡ true
    → ((c == 10) ≡ false) × ((c == 13) ≡ false) × ((c == 8) ≡ false) × ((c == 0x1b) ≡ false)
unfolding is_printable
not_control c p = (ground arith, ground arith, ground arith, ground arith)

write_char-end :
    (h : History) (c : ℕ)
    → is_printable c ≡ true
    → h.position ≡ length h.line
    → length h.line < term_history_max_line_chars
    → write_char h c ≡ record h { line = h.line ++ c ∷ []; position = h.position + 1 }
unfolding write_char
write_char-end h c p e room =
    let (a, b, d, _) = not_control c p in
    let full : ltb h.position (length h.line) ≡ false = ground arith in
    let fits : ltb (length h.line) term_history_max_line_chars ≡ true = ground arith in
    rw (a, b, d, p, full, fits) (rw (pad-nil h.position (length h.line) (omega arith), append-nil))

write_char-over :
    (h : History) (c : ℕ)
    → is_printable c ≡ true
    → h.position < length h.line
    → write_char h c ≡ record h { line = set h.line h.position c; position = h.position + 1 }
unfolding write_char
write_char-over h c p e =
    let (a, b, d, _) = not_control c p in
    let inside : ltb h.position (length h.line) ≡ true = ground arith in rw (a, b, d, p, inside)

feed_char-text :
    (h : History) (c : ℕ)
    → h.state ≡ text
    → h.fullscreen ≡ false
    → is_printable c ≡ true
    → feed_char h c ≡ write_char h c
unfolding feed_char dispatch
feed_char-text h c s f p = let (_, _, _, a) = not_control c p in rw (s, dispatch) (rw (a, f))

-- From a cursor at the end of the line, printable text that fits goes to the line as it is.
pub feed_chars-append :
    (h : History) (xs : List ℕ)
    → h.state ≡ text
    → h.fullscreen ≡ false
    → h.position ≡ length h.line
    → AllPrintable xs
    → length h.line + length xs ≤ term_history_max_line_chars
    → feed_chars h xs ≡ record h { line = h.line ++ xs; position = h.position + length xs }
unfolding feed_chars
feed_chars-append h [] s f e p room = ground (arith, append-nil h.line)
feed_chars-append h (x ∷ xs) s f e p room =
    let step : feed_char h x ≡ record h { line = h.line ++ x ∷ []; position = h.position + 1 } =
      feed_char-text h x s f p.0 ∙ write_char-end h x p.0 e (omega arith) in
    let h' : History = record h { line = h.line ++ x ∷ []; position = h.position + 1 } in
    let room' : length (h.line ++ x ∷ []) ≡ length h.line + 1 = length-append h.line (x ∷ []) in
    rw step (
      feed_chars-append h' xs s f (omega arith) p.1 (omega arith)
      ∙ ground (arith, append_assoc h.line (x ∷ []) xs))

-- Printable text from the cursor over what is there replaces just that part of the line.
pub feed_chars-over :
    (h : History) (xs : List ℕ)
    → h.state ≡ text
    → h.fullscreen ≡ false
    → AllPrintable xs
    → h.position + length xs ≤ length h.line
    → feed_chars h xs ≡ record h {
      line = take h.position h.line ++ xs ++ drop (h.position + length xs) h.line;
      position = h.position + length xs;
    }
unfolding feed_chars
feed_chars-over h [] s f p room =
    let e : h.position + 0 ≡ h.position = omega arith in rw (e, append-nil, take-append-drop)
feed_chars-over h (x ∷ xs) s f p room =
    let step : feed_char h x
        ≡ record h { line = set h.line h.position x; position = h.position + 1 } =
      feed_char-text h x s f p.0 ∙ write_char-over h x p.0 (omega arith) in
    let h' : History = record h { line = set h.line h.position x; position = h.position + 1 } in
    let room' : length (set h.line h.position x) ≡ length h.line = length-set h.line h.position x in
    let before = take-set h.line h.position x (omega arith) in
    let after = drop-set (h.position + 1 + length xs) h.line h.position x (omega arith) in
    let sum : h.position + 1 + length xs ≡ h.position + suc (length xs) = omega arith in
    rw step
      (feed_chars-over h' xs s f p.1 (omega arith) ∙ rw (before, after, sum) (simp append_assoc))

pub feed_chars-append_text :
    (h : History) (xs ys : List ℕ) → feed_chars h (xs ++ ys) ≡ feed_chars (feed_chars h xs) ys
unfolding feed_chars
feed_chars-append_text h [] ys = refl
feed_chars-append_text h (x ∷ xs) ys = feed_chars-append_text (feed_char h x) xs ys

-- Outside escape sequences and full-screen programs, at the start of an empty line, printable text
-- of at most 4096 characters and a newline become one more line of the history, which then drops
-- its oldest line if it was full; the line and the cursor are reset and nothing else changes.
pub feed_chars-line :
    (h : History) (xs : List ℕ)
    → h.state ≡ text
    → h.fullscreen ≡ false
    → h.line ≡ []
    → h.position ≡ 0
    → AllPrintable xs
    → length xs ≤ term_history_max_line_chars
    → feed_chars h (xs ++ 10 ∷ []) ≡ record h {
      lines = append_bounded term_history_max_lines h.lines xs;
      line = [];
      position = 0;
    }
unfolding feed_chars feed_char dispatch write_char
feed_chars-line h xs s f l p a room =
    let none_yet : length h.line ≡ 0 = rw l in
    let typed = feed_chars-append h xs s f (omega arith) a (omega arith) in
    rw (feed_chars-append_text, typed) (rw (s, dispatch) (rw (f, l)))

-- Outside escape sequences and full-screen programs, after a carriage return, printable text no
-- longer than the unfinished line replaces the beginning of that line and leaves the rest of it.
pub feed_chars-return :
    (h : History) (xs : List ℕ)
    → h.state ≡ text
    → h.fullscreen ≡ false
    → AllPrintable xs
    → length xs ≤ length h.line
    → feed_chars h (13 ∷ xs)
      ≡ record h { line = xs ++ drop (length xs) h.line; position = length xs }
unfolding feed_chars
feed_chars-return h xs s f a room =
    let start : feed_char h 13 ≡ record h { position = 0 } =
      (unfold feed_char dispatch write_char in rw (s, dispatch) (rw f)) in
    let zero_plus : 0 + length xs ≡ length xs = omega arith in
    rw start (feed_chars-over (record h { position = 0 }) xs s f a (omega arith) ∙ rw zero_plus)
