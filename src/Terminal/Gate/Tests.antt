-- ===== src/Terminal/Gate/Tests.antt =====
-- Runs of the gate, and instances of its theorems.
use simple_network_dashboard.Prelude.{
  ℕ, ◌≤◌, ◌≡◌, refl, Bool, true, false, Option, none, some, List, [], ◌∷◌, map, nat_eq,
}
use simple_network_dashboard.Terminal.Gate.{
  is_prefix, find, Gate, GateEvent, new_gate, suffix_prefix, first_found, act, scan, feed, feed_all,
}
use simple_network_dashboard.Terminal.Gate.Security.{IsSound, requests, feed_all-requests}

-- phrase "pw:", mark "#ok"
abbrev gate : Gate
gate = new_gate (b'p' ∷ b'w' ∷ b':' ∷ []) (b'#' ∷ b'o' ∷ b'k' ∷ [])

gate-IsSound : IsSound gate
unfolding new_gate
gate-IsSound = record { exclusive = λ e. cc }

-- sudo asks, is answered, and the command's output comes after the marker
abbrev asks_and_passes : List (List ℕ)
asks_and_passes = (b'p' ∷ b'w' ∷ []) ∷ (b':' ∷ b'#' ∷ []) ∷ (b'o' ∷ b'k' ∷ b'!' ∷ []) ∷ []

-- sudo asks twice
abbrev asks_twice : List (List ℕ)
asks_twice = (b'p' ∷ b'w' ∷ b':' ∷ []) ∷ (b'p' ∷ b'w' ∷ b':' ∷ []) ∷ (b'x' ∷ []) ∷ []

outputs : Option (Gate × List GateEvent) → List (List ℕ)
outputs none = []
outputs (some (g, es)) = map (λ (e : GateEvent). e.output) es

refusals : Option (Gate × List GateEvent) → List Bool
refusals none = []
refusals (some (g, es)) = map (λ (e : GateEvent). e.refused) es

passes_test : outputs (feed_all gate asks_and_passes) ≡ [] ∷ [] ∷ (b'!' ∷ []) ∷ []
unfolding outputs feed_all feed scan act first_found find is_prefix suffix_prefix new_gate
passes_test = refl

refuses_test : refusals (feed_all gate asks_twice) ≡ false ∷ true ∷ true ∷ []
unfolding refusals feed_all feed scan act first_found find is_prefix suffix_prefix new_gate
refuses_test = refl

feed_all-requests_example :
    (g' : Gate) × (es : List GateEvent) × (feed_all gate asks_twice ≡ some (g', es))
    × (requests es ≤ 1)
    × (gate.asked ≡ true → requests es ≡ 0)
feed_all-requests_example = feed_all-requests gate asks_twice gate-IsSound
