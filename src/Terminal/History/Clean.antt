-- ===== src/Terminal/History/Clean.antt =====
-- What the history keeps can be shown as plain text: no control characters get into it.
use simple_network_dashboard.Prelude.{
  ℕ, zero, suc, ◌-◌, ◌≡◌, refl, Bool, true, false, not, ◌&&◌, ◌||◌, List, [], ◌∷◌, ◌++◌, ltb,
  if◌then◌else◌, length, set, take, drop, replicate, is_nil, any, All, All-append, ◌==◌, nat_eq,
}
use simple_network_dashboard.Terminal.History.{
  Mode, text, History, empty_history, text_eq, split_on, is_screen_mode, starts_with_question,
  handle_csi, is_printable, write_char, dispatch, feed_char, feed_chars, feed,
}
use simple_network_dashboard.Terminal.History.Bounds.{append_bounded-All}

abbrev pub IsText : List ℕ → Type 0
IsText = All (λ c. is_printable c ≡ true)

-- the stored lines and the unfinished line hold printable characters and tabs only
pub record IsClean (h : History) : Type 0 where
  pub lines : All IsText h.lines
  pub line : IsText h.line

pub empty_history-IsClean : IsClean empty_history
unfolding empty_history
empty_history-IsClean = record { lines = tt; line = tt }

set-IsText : (xs : List ℕ) (i c : ℕ) → IsText xs → is_printable c ≡ true → IsText (set xs i c)
set-IsText [] i c h p = h
set-IsText (x ∷ xs) zero c h p = (p, h.1)
set-IsText (x ∷ xs) (suc i) c h p = (h.0, set-IsText xs i c h.1 p)

take-IsText : (n : ℕ) (xs : List ℕ) → IsText xs → IsText (take n xs)
take-IsText zero xs h = tt
take-IsText (suc n) [] h = tt
take-IsText (suc n) (x ∷ xs) h = (h.0, take-IsText n xs h.1)

replicate-IsText : (n : ℕ) → IsText (replicate n b' ')
unfolding is_printable
replicate-IsText zero = tt
replicate-IsText (suc n) = (refl, replicate-IsText n)

IsClean-if :
    (t : Bool) (x y : History)
    → (t ≡ true → IsClean x)
    → (t ≡ false → IsClean y)
    → IsClean (if t then x else y)
IsClean-if true x y bx by = bx refl
IsClean-if false x y bx by = by refl

-- only the lines matter
IsClean-same :
    (h : History) (m : Mode) (p : List ℕ) (n i : ℕ) (f : Bool)
    → IsClean h
    → IsClean (record h { state = m; csi_text = p; seq = n; position = i; fullscreen = f })
IsClean-same h m p n i f k = record { lines = k.lines; line = k.line }

write_char-IsClean : (h : History) (c : ℕ) → IsClean h → IsClean (write_char h c)
unfolding write_char
write_char-IsClean h c k =
    IsClean-if (c == 10) _ _
      (λ _. record {
        lines = append_bounded-All IsText 1500 h.lines h.line k.lines k.line;
        line = tt;
      })
      λ _.
        IsClean-if (c == 13) _ _ (λ _. same 0)
          λ _.
            IsClean-if (c == 8) _ _ (λ _. same (h.position - 1))
              λ _.
                IsClean-if (is_printable c) _ _
                  (λ p.
                    IsClean-if (ltb h.position (length h.line)) _ _
                      (λ _. record {
                        lines = k.lines;
                        line = set-IsText h.line h.position c k.line p;
                      })
                      λ _.
                        IsClean-if (ltb (length h.line) 4096) _ _
                          (λ _. record {
                            lines = k.lines;
                            line =
                                All-append (λ d. is_printable d ≡ true) (h.line ++ pad) (c ∷ [])
                                  (All-append (λ d. is_printable d ≡ true) h.line pad k.line
                                    (replicate-IsText (h.position - length h.line)))
                                  (p, tt);
                          })
                          λ _. k)
                  λ _. k
  where
    same : (i : ℕ) → IsClean (record h { position = i })
    same i = IsClean-same h h.state h.csi_text h.seq i h.fullscreen k

    pad : List ℕ
    pad = replicate (h.position - length h.line) b' '

handle_csi-IsClean :
    (h : History) (params : List ℕ) (final : ℕ) → IsClean h → IsClean (handle_csi h params final)
unfolding handle_csi
handle_csi-IsClean h params final k =
    IsClean-if (final == b'K' && (is_nil params || text_eq params (b'0' ∷ [])) && not h.fullscreen)
      _ _ (λ _. record { lines = k.lines; line = take-IsText h.position h.line k.line })
      λ _.
        IsClean-if (not (final == b'h' || final == b'l') || not (starts_with_question params)) _ _
          (λ _. k)
          λ _.
            IsClean-if (any is_screen_mode (split_on b';' (drop 1 params))) _ _
              (λ _. IsClean-same h h.state h.csi_text h.seq h.position (final == b'h') k) λ _. k

IsClean-state :
    (h : History) (m : Mode) (p : List ℕ)
    → IsClean h
    → IsClean (record h { state = m; csi_text = p })
IsClean-state h m p k = IsClean-same h m p h.seq h.position h.fullscreen k

IsClean-branch : (t : Bool) (x y : History) → IsClean x → IsClean y → IsClean (if t then x else y)
IsClean-branch t x y bx by = IsClean-if t x y (λ _. bx) (λ _. by)

ruleset clean_rules = (IsClean-branch, IsClean-state, write_char-IsClean, handle_csi-IsClean)

dispatch-IsClean : (m : Mode) (h : History) (c : ℕ) → IsClean h → IsClean (dispatch m h c)
unfolding dispatch
dispatch-IsClean text h c b = search clean_rules
dispatch-IsClean _ h c b = search clean_rules

feed_chars-IsClean : (h : History) (cs : List ℕ) → IsClean h → IsClean (feed_chars h cs)
unfolding feed_chars feed_char
feed_chars-IsClean h [] b = b
feed_chars-IsClean h (c ∷ cs) b =
    feed_chars-IsClean (dispatch h.state h c) cs (dispatch-IsClean h.state h c b)

-- From a history of printable text, whatever the device writes, every stored line and the
-- unfinished line consist of printable characters and tabs: no escape or control character gets in.
pub feed-IsClean : (h : History) (cs : List ℕ) (n : ℕ) → IsClean h → IsClean (feed h cs n)
unfolding feed
feed-IsClean h cs n b =
    feed_chars-IsClean (record h { seq = n }) cs
      (IsClean-same h h.state h.csi_text n h.position h.fullscreen b)
