-- ===== src/Terminal/History.antt =====
-- simple_network_dashboard/terminal_history.py: `TerminalHistory`, the recoverable text of one
-- run. A character is its code point, and a text the list of them.
mod Bounds
mod Plain
mod Clean
mod Fullscreen
mod Tests
pub mod Budget
use simple_network_dashboard.Prelude.{
  ℕ, ◌+◌, ◌-◌, Bool, true, false, not, ◌&&◌, ◌||◌, List, [], ◌∷◌, ◌++◌, ltb, leb, if◌then◌else◌,
  length, set, take, drop, replicate, is_nil, any, ◌==◌, nat_eq,
}
use simple_network_dashboard.Config.{term_history_max_lines, term_history_max_line_chars}

-- the strings that `_state` takes
pub data Mode : Type 0 where
  text escape csi osc string charset osc_escape string_escape : Mode

pub record History : Type 0 where
  pub lines : List (List ℕ)
  pub line : List ℕ
  pub position : ℕ
  pub state : Mode
  pub csi_text : List ℕ
  pub fullscreen : Bool
  pub seq : ℕ

pub empty_history : History
empty_history = record {
  lines = [];
  line = [];
  position = 0;
  state = text;
  csi_text = [];
  fullscreen = false;
  seq = 0;
}

-- `deque(maxlen=n).append(x)`: what is too much falls off the front
pub append_bounded {ℓ} : {A : Type ℓ} → ℕ → List A → A → List A
append_bounded n xs x = let ys = xs ++ x ∷ [] in drop (length ys - n) ys

-- equality of texts
pub text_eq : List ℕ → List ℕ → Bool
text_eq [] [] = true
text_eq [] (y ∷ ys) = false
text_eq (x ∷ xs) [] = false
text_eq (x ∷ xs) (y ∷ ys) = x == y && text_eq xs ys

-- `s.split(c)`: the pieces, the first of them begun by `piece`
split_from : ℕ → List ℕ → List ℕ → List (List ℕ)
split_from c piece [] = piece ∷ []
split_from c piece (x ∷ xs) =
    let cut = piece ∷ split_from c [] xs in
    let go_on = split_from c (piece ++ x ∷ []) xs in if x == c then cut else go_on

pub split_on : ℕ → List ℕ → List (List ℕ)
unfolding split_from
split_on c xs = split_from c [] xs

-- "47", "1047", "1049"
is_screen_mode : List ℕ → Bool
unfolding text_eq
is_screen_mode s =
    text_eq s (52 ∷ 55 ∷ [])
    || text_eq s (49 ∷ 48 ∷ 52 ∷ 55 ∷ [])
    || text_eq s (49 ∷ 48 ∷ 52 ∷ 57 ∷ [])

-- `params.startswith("?")` and, when it does, the modes of `params[1:].split(";")`
starts_with_question : List ℕ → Bool
starts_with_question [] = false
starts_with_question (c ∷ cs) = c == b'?'

-- `_handle_csi`; its `sequence` is `params` followed by `final`
pub handle_csi : History → List ℕ → ℕ → History
unfolding is_screen_mode starts_with_question split_on
handle_csi h params final =
    if final == b'K' && (is_nil params || text_eq params (b'0' ∷ [])) && not h.fullscreen
    then record h { line = take h.position h.line }
    else if not (final == b'h' || final == b'l') || not (starts_with_question params)
    then h
    else if any is_screen_mode (split_on b';' (drop 1 params))
    then record h { fullscreen = final == b'h' }
    else h

-- `char == "\t" or (ord(char) >= 32 and not 0x7F <= ord(char) <= 0x9F)`
pub is_printable : ℕ → Bool
is_printable c = c == 9 || leb 32 c && not (leb 0x7f c && leb c 0x9f)

-- `_write_char`
pub write_char : History → ℕ → History
unfolding is_printable
write_char h c =
    if c == 10
    then record h {
      lines = append_bounded term_history_max_lines h.lines h.line;
      line = [];
      position = 0;
    }
    else if c == 13
    then record h { position = 0 }
    else if c == 8
    then record h { position = h.position - 1 }
    else if is_printable c
    then (if ltb h.position (length h.line)
        then record h { line = set h.line h.position c; position = h.position + 1 }
        else if ltb (length h.line) term_history_max_line_chars
        then record h {
          line = h.line ++ replicate (h.position - length h.line) b' ' ++ c ∷ [];
          position = h.position + 1;
        }
        else h)
    else h

-- the branches of `_feed_char`, by the state
dispatch : Mode → History → ℕ → History
dispatch text h c =
    if c == 0x1b
    then record h { state = escape }
    else if not h.fullscreen
    then write_char h c
    else h
dispatch escape h c =
    if c == b'['
    then record h { state = csi; csi_text = [] }
    else if c == b']'
    then record h { state = osc }
    else if c == b'P' || c == b'X' || c == b'^' || c == b'_'
    then record h { state = string }
    else if c == b'(' || c == b')'
    then record h { state = charset }
    else record h { state = text }
dispatch charset h c = record h { state = text }
dispatch csi h c =
    let h' = record h { csi_text = h.csi_text ++ c ∷ [] } in
    if leb b'@' c && leb c b'~'
    then (let done = handle_csi h' h.csi_text c in record done { state = text })
    else h'
dispatch osc h c =
    if c == 7
    then record h { state = text }
    else if c == 0x1b
    then record h { state = osc_escape }
    else h
dispatch string h c = if c == 0x1b then record h { state = string_escape } else h
dispatch osc_escape h c =
    if c == 0x5c
    then record h { state = text }
    else if not (c == 0x1b)
    then record h { state = osc }
    else h
dispatch string_escape h c =
    if c == 0x5c
    then record h { state = text }
    else if not (c == 0x1b)
    then record h { state = string }
    else h

pub feed_char : History → ℕ → History
unfolding dispatch
feed_char h c = dispatch h.state h c

-- the loop of `feed`
pub feed_chars : History → List ℕ → History
feed_chars h [] = h
feed_chars h (c ∷ cs) = feed_chars (feed_char h c) cs

-- `feed`
pub feed : History → List ℕ → ℕ → History
feed h cs n = feed_chars (record h { seq = n }) cs

-- `snapshot`
pub record Snapshot : Type 0 where
  pub lines : List (List ℕ)
  pub partial : List ℕ
  pub fullscreen : Bool
  pub seq : ℕ

pub snapshot : History → Snapshot
snapshot h = record { lines = h.lines; partial = h.line; fullscreen = h.fullscreen; seq = h.seq }
