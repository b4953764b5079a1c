-- ===== src/Terminal/Reader.antt =====
-- `read_channel` of simple_network_dashboard/terminal_run.py: the loop that reads what a command
-- writes, through the sudo gate and the batcher, until the command ends or the caller withdraws.
-- What the channel holds in each round, and what the callback `emit` answers, come from outside.
mod Stages
mod Handling
mod Order
mod Tests
use simple_network_dashboard.Prelude.{
  ℕ, ◌+◌, Bool, true, false, not, ◌&&◌, ◌||◌, Option, none, some, List, [], ◌∷◌, ◌++◌,
  if◌then◌else◌, is_nil, nat_eq, ◌==◌,
}
use simple_network_dashboard.Terminal.Size.{Integer, nonneg, neg}
use simple_network_dashboard.Terminal.Gate.{Gate, GateEvent, feed}
use simple_network_dashboard.Terminal.Batcher.{Decoder, Batcher, Batch, flush_due, flush_final, add}

-- what the reader does outside itself: a call of `emit`, of `send_password`, of `on_gate_passed`,
-- and of `chan.close`
pub data Act : Type 0 where
  emitted : Batch → Act
  password_sent gate_announced closed : Act

-- the variables of `read_channel`, what it did so far, and how many times `emit` was called
pub record Reader (d : Decoder) : Type 0 where
  pub gate : Option Gate
  pub batcher : Batcher d
  pub announced : Bool
  pub refused : Bool
  pub superseded : Bool
  pub acts : List Act
  pub emits : ℕ

-- what a round of the loop finds: the answer of `should_continue`, what is received from the two
-- streams, empty if nothing is ready, and whether the command has exited with nothing left to read
pub record Round : Type 0 where
  pub continues : Bool
  pub out : List ℕ
  pub err : List ℕ
  pub exited : Bool

pub record ReadResult : Type 0 where
  pub gate_passed : Bool
  pub refused : Bool
  pub superseded : Bool
  pub exit_code : Integer

unfoldable pub new_reader : {d : Decoder} → Option Gate → Batcher d → Reader d
new_reader gate batcher = record {
  gate = gate;
  batcher = batcher;
  announced = false;
  refused = false;
  superseded = false;
  acts = [];
  emits = 0;
}

unfoldable pub does : {d : Decoder} → Reader d → Act → Reader d
does r a = record r { acts = r.acts ++ a ∷ [] }

unfoldable pub send_if : {d : Decoder} → Reader d → Bool → Reader d
send_if r asked = if asked then does r password_sent else r

unfoldable pub announce : {d : Decoder} → Reader d → Bool → Reader d
announce r passed =
    if passed && not r.announced then does (record r { announced = true }) gate_announced else r

unfoldable pub gate_lets : Option Gate → Bool
gate_lets none = true
gate_lets (some g) = g.passed

unfoldable pub is_97 : Integer → Bool
is_97 (nonneg n) = n == 97
is_97 (neg n) = false

unfoldable pub result_of : {d : Decoder} → Reader d → Integer → ReadResult
result_of r code = record {
  gate_passed = gate_lets r.gate;
  refused = r.refused || not (gate_lets r.gate) && is_97 code;
  superseded = r.superseded;
  exit_code = code;
}

-- `accepts n` is what `emit` answers the call after `n` others
module _ {d : Decoder} (clock : ℕ → ℕ) (accepts : ℕ → Bool) where
  -- `for text, seq in batches: if not emit(text, seq): ...`, and whether all were accepted
  unfoldable pub emit_all : Reader d → List Batch → Reader d × Bool
  emit_all r [] = (r, true)
  emit_all r (b ∷ bs) =
      let r' = record (does r (emitted b)) { emits = r.emits + 1 } in
      let rest = emit_all r' bs in if accepts r.emits then rest else (r', false)

  -- the end of `handle`
  unfoldable pub deliver : Reader d → List ℕ → Reader d × Bool
  deliver r raw = let (out, b) = add clock r.batcher raw in emit_all (record r { batcher = b }) out

  -- `handle` once the gate has given its event
  unfoldable pub on_event : Reader d → Gate → GateEvent → Reader d × Bool
  on_event r g e =
      let r' = announce (send_if (record r { gate = some g }) e.send_password) g.passed in
      if e.refused then (does (record r' { refused = true }) closed, false) else deliver r' e.output

  -- the gate always gives one (`feed-Step` of Terminal/Gate/Security)
  unfoldable pub on_fed : Reader d → Option (Gate × GateEvent) → Reader d × Bool
  on_fed r none = (r, false)
  on_fed r (some (g, e)) = on_event r g e

  -- `handle`
  unfoldable pub handle : Reader d → List ℕ → Reader d × Bool
  handle r raw = elim r.gate [ none ↦ deliver r raw | some g ↦ on_fed r (feed g raw) ]

  -- one of the two streams in a round, and whether the other is looked at
  unfoldable pub receive : Reader d → List ℕ → Reader d × Bool
  receive r [] = (r, true)
  receive r (c ∷ cs) =
      let (r', handled) = handle r (c ∷ cs) in
      if handled then (r', true) else (record r' { superseded = not r'.refused }, false)

  unfoldable pub receive_both : Reader d → List ℕ → List ℕ → Reader d
  receive_both r out err = let (r', more) = receive r out in if more then (receive r' err).0 else r'

  unfoldable pub flush : Reader d → List Batch × Batcher d → Reader d
  flush r (out, b) =
      let (r', accepted) = emit_all (record r { batcher = b }) out in
      if accepted then r' else record r' { superseded = true }

  -- a round of the loop, and whether there is another
  unfoldable pub one_round : Reader d → Round → Reader d × Bool
  one_round r t =
      let r1 = receive_both r t.out t.err in
      let r2 = flush r1 (flush_due clock r1.batcher) in
      if not t.continues
      then (record r { superseded = true }, false)
      else if r1.superseded || r1.refused
      then (r1, false)
      else if r2.superseded
      then (r2, false)
      else (r2, not (is_nil t.out && is_nil t.err && t.exited))

  -- the loop over the rounds given, and whether it goes on after them
  unfoldable pub read_rounds : Reader d → List Round → Reader d × Bool
  read_rounds r [] = (r, true)
  read_rounds r (t ∷ ts) =
      let (r', more) = one_round r t in
      let rest = read_rounds r' ts in if more then rest else (r', false)

  -- `while chan.recv_ready(): ...` after the loop
  unfoldable pub drain : Reader d → List (List ℕ) → Reader d
  drain r [] = r
  drain r ([] ∷ chunks) = r
  drain r ((c ∷ cs) ∷ chunks) =
      let (r', handled) = handle r (c ∷ cs) in
      let rest = drain r' chunks in if handled then rest else r'

  -- what follows the loop, up to the exit status
  unfoldable pub finish : Reader d → List (List ℕ) → List (List ℕ) → Reader d
  finish r outs errs =
      let r1 = drain (drain r outs) errs in
      let r2 = if r.superseded || r.refused then r else flush r1 (flush_final clock r1.batcher) in
      if r2.superseded then does r2 closed else r2

  -- `read_channel`, with the rounds of its loop; no result while the loop goes on after them
  unfoldable pub read_channel :
      Option Gate
      → Batcher d
      → List Round
      → List (List ℕ)
      → List (List ℕ)
      → Integer
      → Reader d × Option ReadResult
  read_channel gate batcher rounds outs errs code =
      let (r, more) = read_rounds (new_reader gate batcher) rounds in
      let r' = finish r outs errs in if more then (r, none) else (r', some (result_of r' code))
