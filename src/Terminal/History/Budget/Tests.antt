-- ===== src/Terminal/History/Budget/Tests.antt =====
-- Runs of the trimming, and instances of its theorems.
use mathlib.Core.List.{Forall₂}
use simple_network_dashboard.Prelude.{ℕ, ◌/◌, ◌≡◌, refl, false, List, [], ◌∷◌, map, length}
use simple_network_dashboard.Terminal.History.{Snapshot}
use simple_network_dashboard.Terminal.History.Budget.{
  dumps_cost, dumps_length, kept_from, trim_terminal, trim_to_budget,
}
use simple_network_dashboard.Terminal.History.Budget.Fits.{IsTrimmed, trim_to_budget-IsTrimmed}

abbrev hello : List ℕ
hello = b'h' ∷ b'e' ∷ b'l' ∷ b'l' ∷ b'o' ∷ []

abbrev bye : List ℕ
bye = b'b' ∷ b'y' ∷ b'e' ∷ []

-- two terminals, the first of which must drop its oldest line
abbrev two_terminals : List Snapshot
two_terminals =
    record { lines = hello ∷ hello ∷ []; partial = bye; seq = 1; fullscreen = false }
    ∷ record { lines = bye ∷ []; partial = []; seq = 2; fullscreen = false }
    ∷ []

trims_test :
    map (λ (t : Snapshot). t.lines) (trim_to_budget two_terminals 32)
    ≡ (hello ∷ []) ∷ (bye ∷ []) ∷ []
unfolding trim_to_budget trim_terminal kept_from dumps_length dumps_cost
trims_test = refl

trim_to_budget-IsTrimmed_example :
    Forall₂ (IsTrimmed (32 / length two_terminals)) two_terminals (trim_to_budget two_terminals 32)
trim_to_budget-IsTrimmed_example = trim_to_budget-IsTrimmed two_terminals 32
