-- ===== src/Terminal/Gate.antt =====
-- `SudoGate` of simple_network_dashboard/terminal_run.py: it holds back what sudo writes until
-- the marker that the wrapped command prints first. Bytes are numbers.
pub mod Security
mod Tests
use mathlib.Core.Option
use simple_network_dashboard.Prelude.{
  ℕ, zero, suc, ◌+◌, ◌-◌, min, max, Bool, true, false, ◌&&◌, ◌||◌, Option, none, some, List, [],
  ◌∷◌, ◌++◌, map, leb, if◌then◌else◌, ◌>>=◌, length, drop, nat_eq, ◌==◌,
}

-- `s.startswith(p)`
unfoldable pub is_prefix : List ℕ → List ℕ → Bool
is_prefix [] s = true
is_prefix (x ∷ p) [] = false
is_prefix (x ∷ p) (y ∷ s) = x == y && is_prefix p s

-- `s.find(p)`, with `none` for -1
unfoldable pub find : List ℕ → List ℕ → Option ℕ
find p [] = if is_prefix p [] then some 0 else none
find p (x ∷ s) = if is_prefix p (x ∷ s) then some 0 else Option.map suc (find p s)

pub record Gate : Type 0 where
  pub phrase : List ℕ
  pub mark : List ℕ
  pub pending : List ℕ
  pub asked : Bool
  pub refused : Bool
  pub passed : Bool

pub record GateEvent : Type 0 where
  pub send_password : Bool
  pub refused : Bool
  pub output : List ℕ

-- `SudoGate(phrase, mark)`
unfoldable pub new_gate : List ℕ → List ℕ → Gate
new_gate phrase mark = record {
  phrase = phrase;
  mark = mark;
  pending = [];
  asked = false;
  refused = false;
  passed = false;
}

-- the loop of `_suffix_prefix`, from `size` down to 1
unfoldable pub suffix_prefix_from : Gate → List ℕ → ℕ → List ℕ
suffix_prefix_from g bytes zero = []
suffix_prefix_from g bytes (suc n) =
    let suffix = drop (length bytes - suc n) bytes in
    let shorter = suffix_prefix_from g bytes n in
    if is_prefix suffix g.phrase || is_prefix suffix g.mark then suffix else shorter

unfoldable pub suffix_prefix : Gate → List ℕ → List ℕ
unfolding suffix_prefix_from
suffix_prefix g bytes =
    suffix_prefix_from g bytes (min (length bytes) (max (length g.phrase) (length g.mark) - 1))

-- `min(candidates)`: the tuples order "mark" before "phrase" at one position
pub data Found : Type 0 where
  nothing : Found
  at_mark : ℕ → Found
  at_phrase : ℕ → Found

unfoldable pub first_found : Option ℕ → Option ℕ → Found
first_found none none = nothing
first_found (some p) none = at_phrase p
first_found none (some m) = at_mark m
first_found (some p) (some m) = if leb m p then at_mark m else at_phrase p

unfoldable pub event : Bool → Bool → List ℕ → GateEvent
event s r o = record { send_password = s; refused = r; output = o }

-- The body of the loop of `feed` on a buffer that is not empty; `again` is the next round.
unfoldable pub act :
    Found
    → Gate
    → List ℕ
    → Bool
    → (Gate → List ℕ → Option (Gate × GateEvent))
    → Option (Gate × GateEvent)
unfolding event
act nothing g buf sent again =
    some (record g { pending = suffix_prefix g buf }, event sent false [])
act (at_mark n) g buf sent again =
    some (record g { passed = true }, event sent false (drop (n + length g.mark) buf))
act (at_phrase n) g buf sent again =
    if g.asked
    then some (record g { refused = true }, event sent true [])
    else again (record g { asked = true }) (drop (n + length g.phrase) buf)

-- The loop of `feed`, on fuel; `none` means that the fuel ran out. Only the first phrase leads to
-- another round, so two rounds are enough.
unfoldable pub scan : ℕ → Gate → List ℕ → Bool → Option (Gate × GateEvent)
unfolding event
scan fuel g [] sent = some (g, event sent false [])
scan zero g (b ∷ bs) sent = none
scan (suc fuel) g (b ∷ bs) sent =
    act (first_found (find g.phrase (b ∷ bs)) (find g.mark (b ∷ bs))) g (b ∷ bs) sent
      λ g' rest. scan fuel g' rest true

unfoldable pub feed : Gate → List ℕ → Option (Gate × GateEvent)
unfolding event
feed g bytes =
    if g.passed
    then some (g, event false false bytes)
    else if g.refused
    then some (g, event false true [])
    else scan 2 (record g { pending = [] }) (g.pending ++ bytes) false

-- the events of a whole stream, chunk by chunk
pub feed_all : Gate → List (List ℕ) → Option (Gate × List GateEvent)
feed_all g [] = some (g, [])
feed_all g (c ∷ cs) = do (g', e) ← feed g c; (g'', es) ← feed_all g' cs; some (g'', e ∷ es)
