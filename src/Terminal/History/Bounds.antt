-- ===== src/Terminal/History/Bounds.antt =====
-- The size bounds of the history, whatever the device writes.
use simple_network_dashboard.Prelude.{
  ℕ, ◌+◌, ◌-◌, ◌≤◌, ◌≡◌, Bool, true, false, List, [], ◌∷◌, ◌++◌, arith, if◌then◌else◌, length,
  replicate, length-append, length-set, length-drop, length-take, length-replicate, All, All-append,
  All-drop,
}
use simple_network_dashboard.Config.{term_history_max_lines, term_history_max_line_chars}
use simple_network_dashboard.Terminal.History.{
  Mode, text, History, empty_history, append_bounded, handle_csi, write_char, dispatch, feed_char,
  feed_chars, feed,
}

-- What holds of a history between two characters.
pub record IsBounded (h : History) : Type 0 where
  pub few_lines : length h.lines ≤ term_history_max_lines
  pub short_lines : All (λ l. length l ≤ term_history_max_line_chars) h.lines
  pub short_line : length h.line ≤ term_history_max_line_chars
  pub cursor : h.position ≤ length h.line

pub empty_history-IsBounded : IsBounded empty_history
unfolding empty_history
empty_history-IsBounded = record {
  few_lines = omega arith;
  short_lines = tt;
  short_line = omega arith;
  cursor = omega arith;
}

module _ {ℓ} {A : Type ℓ} where
  length-append_bounded-le : (n : ℕ) (xs : List A) (x : A) → length (append_bounded n xs x) ≤ n
  unfolding append_bounded
  length-append_bounded-le n xs x =
      omega (arith, length-drop (length (xs ++ x ∷ []) - n) (xs ++ x ∷ []))

  pub append_bounded-All {κ} :
      (P : A → Type κ) (n : ℕ) (xs : List A) (x : A)
      → All P xs
      → P x
      → All P (append_bounded n xs x)
  unfolding append_bounded
  append_bounded-All P n xs x h p =
      All-drop P (length (xs ++ x ∷ []) - n) (xs ++ x ∷ []) (All-append P xs (x ∷ []) h (p, tt))

length-pad :
    (xs : List ℕ) (n : ℕ) (c : ℕ)
    → n ≤ length xs
    → length (xs ++ replicate {A = ℕ} (n - length xs) b' ' ++ c ∷ []) ≡ length xs + 1
length-pad xs n c h = omega (
  arith,
  length-append (xs ++ replicate {A = ℕ} (n - length xs) b' ') (c ∷ []),
  length-append xs (replicate {A = ℕ} (n - length xs) b' '),
  length-replicate {A = ℕ} (n - length xs) b' ',
)

write_char-IsBounded : (h : History) (c : ℕ) → IsBounded h → IsBounded (write_char h c)
unfolding write_char
write_char-IsBounded h c b = record {
  few_lines =
      ground (arith, length-append_bounded-le term_history_max_lines h.lines h.line, b.few_lines);
  short_lines = grind (
    arith,
    append_bounded-All (λ (l : List ℕ). length l ≤ term_history_max_line_chars)
        term_history_max_lines h.lines h.line b.short_lines b.short_line,
    b.short_lines,
  );
  short_line = ground (
    arith,
    length-set h.line h.position c,
    length-pad h.line h.position c b.cursor,
    b.short_line,
  );
  cursor =
      ground
        (arith, length-set h.line h.position c, length-pad h.line h.position c b.cursor, b.cursor);
}

handle_csi-IsBounded :
    (h : History) (params : List ℕ) (final : ℕ)
    → IsBounded h
    → IsBounded (handle_csi h params final)
unfolding handle_csi
handle_csi-IsBounded h params final b = record {
  few_lines = ground (arith, b.few_lines);
  short_lines = grind (arith, b.short_lines);
  short_line = ground (arith, b.short_line, b.cursor, length-take h.position h.line b.cursor);
  cursor = ground (arith, b.cursor, length-take h.position h.line b.cursor);
}

IsBounded-if :
    (t : Bool) (x y : History) → IsBounded x → IsBounded y → IsBounded (if t then x else y)
IsBounded-if true x y bx by = bx
IsBounded-if false x y bx by = by

-- the bounds do not depend on the parser's state
IsBounded-same :
    (h : History) (m : Mode) (p : List ℕ) (n : ℕ)
    → IsBounded h
    → IsBounded (record h { state = m; csi_text = p; seq = n })
IsBounded-same h m p n b = record {
  few_lines = b.few_lines;
  short_lines = b.short_lines;
  short_line = b.short_line;
  cursor = b.cursor;
}

ruleset bounded_rules = (IsBounded-if, IsBounded-same, write_char-IsBounded, handle_csi-IsBounded)

dispatch-IsBounded : (m : Mode) (h : History) (c : ℕ) → IsBounded h → IsBounded (dispatch m h c)
unfolding dispatch
dispatch-IsBounded text h c b = search bounded_rules
dispatch-IsBounded _ h c b = search bounded_rules

feed_chars-IsBounded : (h : History) (cs : List ℕ) → IsBounded h → IsBounded (feed_chars h cs)
unfolding feed_chars feed_char
feed_chars-IsBounded h [] b = b
feed_chars-IsBounded h (c ∷ cs) b =
    feed_chars-IsBounded (dispatch h.state h c) cs (dispatch-IsBounded h.state h c b)

-- From a history within its bounds, whatever the device writes, in pieces of any size, the history
-- holds at most 1500 lines of at most 4096 characters each, its unfinished line is as short, and
-- the cursor stays inside it.
pub feed-IsBounded : (h : History) (cs : List ℕ) (n : ℕ) → IsBounded h → IsBounded (feed h cs n)
unfolding feed
feed-IsBounded h cs n b =
    feed_chars-IsBounded (record h { seq = n }) cs (IsBounded-same h h.state h.csi_text n b)
