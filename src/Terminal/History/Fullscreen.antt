-- ===== src/Terminal/History/Fullscreen.antt =====
-- A full-screen program leaves no text in the history.
use simple_network_dashboard.Prelude.{
  ℕ, ◌≡◌, refl, ◌∙◌, true, false, List, [], ◌∷◌, ◌++◌, arith, All, ◌==◌, nat_eq,
}
use simple_network_dashboard.Terminal.History.{
  Mode, text, csi, History, handle_csi, dispatch, feed_char, feed_chars,
}
use simple_network_dashboard.Terminal.History.Plain.{feed_chars-append_text}

-- the text that a history holds, apart from the parser's state
pub record SameText (h h' : History) : Type 0 where
  pub lines : h'.lines ≡ h.lines
  pub line : h'.line ≡ h.line
  pub position : h'.position ≡ h.position

handle_csi-SameText :
    (h : History) (params : List ℕ) (final : ℕ)
    → h.fullscreen ≡ true
    → SameText h (handle_csi h params final)
unfolding handle_csi
handle_csi-SameText h params final f = ground arith

dispatch-SameText :
    (m : Mode) (h : History) (c : ℕ) → h.fullscreen ≡ true → SameText h (dispatch m h c)
unfolding dispatch
dispatch-SameText csi h c f =
    let h' : History = record h { csi_text = h.csi_text ++ c ∷ [] } in
    let kept = handle_csi-SameText h' h.csi_text c f in
    ground (arith, kept.lines, kept.line, kept.position)
dispatch-SameText _ h c f = ground arith

-- While the full-screen flag is up, no character changes the lines, the unfinished line or the
-- cursor.
pub feed_char-SameText : (h : History) (c : ℕ) → h.fullscreen ≡ true → SameText h (feed_char h c)
unfolding feed_char
feed_char-SameText h c f = dispatch-SameText h.state h c f

-- ESC [ ? 1049 h, and ESC [ ? 1049 l
abbrev pub enter_screen : List ℕ
enter_screen = 0x1b ∷ b'[' ∷ b'?' ∷ b'1' ∷ b'0' ∷ b'4' ∷ b'9' ∷ b'h' ∷ []

abbrev pub leave_screen : List ℕ
leave_screen = 0x1b ∷ b'[' ∷ b'?' ∷ b'1' ∷ b'0' ∷ b'4' ∷ b'9' ∷ b'l' ∷ []

abbrev last_csi : ℕ → List ℕ
last_csi c = b'?' ∷ b'1' ∷ b'0' ∷ b'4' ∷ b'9' ∷ c ∷ []

run_enter :
    (h : History)
    → h.state ≡ text
    → feed_chars h enter_screen
      ≡ record h { state = text; csi_text = last_csi b'h'; fullscreen = true }
unfolding feed_chars feed_char dispatch handle_csi
run_enter h s = rw (s, dispatch)

run_leave :
    (h : History)
    → h.state ≡ text
    → feed_chars h leave_screen
      ≡ record h { state = text; csi_text = last_csi b'l'; fullscreen = false }
unfolding feed_chars feed_char dispatch handle_csi
run_leave h s = rw (s, dispatch)

run_inside :
    (h : History) (xs : List ℕ)
    → h.state ≡ text
    → h.fullscreen ≡ true
    → All (λ c. (c == 0x1b) ≡ false) xs
    → feed_chars h xs ≡ h
unfolding feed_chars feed_char
run_inside h [] s f a = refl
run_inside h (x ∷ xs) s f a =
    let step : dispatch h.state h x ≡ h = (unfold dispatch in rw (s, dispatch) (rw (a.0, f))) in
    rw step (run_inside h xs s f a.1)

-- Outside escape sequences and full-screen programs, a program that switches to the alternate
-- screen, writes what it likes except escape characters and switches back leaves the history as it
-- was, but for the parser's last control sequence.
pub feed_chars-screen :
    (h : History) (xs : List ℕ)
    → h.state ≡ text
    → h.fullscreen ≡ false
    → All (λ c. (c == 0x1b) ≡ false) xs
    → feed_chars h (enter_screen ++ xs ++ leave_screen) ≡ record h { csi_text = last_csi b'l' }
feed_chars-screen h xs s f a =
    let inside : History = record h { state = text; csi_text = last_csi b'h'; fullscreen = true } in
    let run = feed_chars-append_text in
    run h (enter_screen ++ xs) leave_screen
    ∙ rw
        (
          run h enter_screen xs,
          run_enter h s,
          run_inside inside xs refl refl a,
          run_leave inside refl,
        )
        (rw (s, f))
