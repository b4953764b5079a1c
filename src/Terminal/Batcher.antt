-- ===== src/Terminal/Batcher.antt =====
-- `OutputBatcher` of simple_network_dashboard/terminal_run.py. The incremental decoder of the
-- standard library and the clock are parameters; the batcher records how many times it has read
-- the clock, and `clock n` is what the reading after `n` others shows.
mod Passes
pub mod Silence
mod Stream
mod Tests
use simple_network_dashboard.Prelude.{
  ℕ, ◌+◌, Bool, true, false, Option, none, some, List, [], ◌∷◌, ◌++◌, leb, if◌then◌else◌, length,
  is_nil,
}
use simple_network_dashboard.Config.{term_batch_interval, term_batch_max_chars}

-- `codecs.getincrementaldecoder(...)`: a state, and `decode(data, final)`
pub record Decoder : Type 1 where
  pub State : Type 0
  pub start : State
  pub decode : State → List ℕ → Bool → List ℕ × State

pub record Batcher (d : Decoder) : Type 0 where
  pub decoder : d.State
  pub text : List ℕ
  pub started : Option ℕ
  pub seq : ℕ
  pub readings : ℕ

unfoldable pub new_batcher : (d : Decoder) → Batcher d
new_batcher d = record { decoder = d.start; text = []; started = none; seq = 0; readings = 0 }

-- `(text, seq)`
abbrev pub Batch : Type 0
Batch = List ℕ × ℕ

-- the comparison of `_due`; `_started` is set whenever there is text
unfoldable pub waited : Option ℕ → ℕ → Bool
waited none now = false
waited (some start) now = leb (start + term_batch_interval) now

module _ {d : Decoder} (clock : ℕ → ℕ) where
  -- `if text: if not self._text: self._started = self._clock(); self._text += text`
  unfoldable pub take_text : Batcher d → List ℕ → Batcher d
  take_text b [] = b
  take_text b (c ∷ cs) =
      let t = record b { text = b.text ++ c ∷ cs } in
      if is_nil b.text
      then record t { started = some (clock b.readings); readings = b.readings + 1 }
      else t

  -- `_due`
  unfoldable pub due : Batcher d → Bool × Batcher d
  unfolding waited
  due b =
      if is_nil b.text
      then (false, b)
      else if leb term_batch_max_chars (length b.text)
      then (true, b)
      else (waited b.started (clock b.readings), record b { readings = b.readings + 1 })

  -- the end of `flush`: one batch takes all the text
  unfoldable pub emit : Batcher d → List Batch × Batcher d
  emit b = ((b.text, b.seq + 1) ∷ [], record b { text = []; started = none; seq = b.seq + 1 })

  -- `flush()`
  unfoldable pub flush_due : Batcher d → List Batch × Batcher d
  flush_due b =
      if is_nil b.text
      then ([], b)
      else let (is_due, b') = due b in if is_due then emit b' else ([], b')

  -- `flush(final=True)`
  unfoldable pub flush_final : Batcher d → List Batch × Batcher d
  flush_final b =
      let (tail, s) = d.decode b.decoder [] true in
      let b' = take_text (record b { decoder = s }) tail in
      if is_nil b'.text then ([], b') else emit b'

  -- `add(data)`
  unfoldable pub add : Batcher d → List ℕ → List Batch × Batcher d
  add b bytes =
      let (text, s) = d.decode b.decoder bytes false in
      let (is_due, b') = due (take_text (record b { decoder = s }) text) in
      if is_due then flush_due b' else ([], b')

  -- what a reader does with a batcher, in order: `add` of each chunk and `flush()` in between
  pub run : Batcher d → List (Option (List ℕ)) → List Batch × Batcher d
  run b [] = ([], b)
  run b (none ∷ calls) =
      let (out, b') = flush_due b in let (rest, b'') = run b' calls in (out ++ rest, b'')
  run b (some bytes ∷ calls) =
      let (out, b') = add b bytes in let (rest, b'') = run b' calls in (out ++ rest, b'')
