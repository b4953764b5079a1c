-- ===== src/Delivery/Tests.antt =====
-- Runs of the hand-over, and instances of its theorems. Messages are numbers.
use simple_network_dashboard.Prelude.{ℕ, ◌≡◌, refl, true, List, [], ◌∷◌, ◌++◌}
use simple_network_dashboard.Delivery.{
  Delivery, Action, on_push, on_push_terminal, on_set_event, on_drain, on_shutdown, on_cancel,
  new_delivery, start, push, push_terminal, set_event, drain, shutdown, cancel_drain, step, run,
}
use simple_network_dashboard.Delivery.Wakeups.{IsLive, run-IsLive}
use simple_network_dashboard.Delivery.Order.{content, accepted_all, run-content}

abbrev started : Delivery ℕ
started = start new_delivery

abbrev actions : List (Action ℕ)
actions =
    on_push 7 10
    ∷ on_push_terminal 8 20 true
    ∷ on_set_event
    ∷ on_drain
    ∷ on_drain
    ∷ on_push 9 30
    ∷ on_shutdown
    ∷ on_cancel
    ∷ on_drain
    ∷ []

delivers_test : (run started actions).delivered ≡ 7 ∷ []
unfolding run step push push_terminal set_event drain shutdown cancel_drain start new_delivery
delivers_test = refl

started-IsLive : IsLive started
unfolding start new_delivery
started-IsLive = record {
  has_loop = refl;
  alive = λ k. (refl, refl);
  awake = λ k e. absurd (e refl);
}

run-IsLive_example : IsLive (run started actions)
run-IsLive_example = run-IsLive started actions started-IsLive

run-content_example :
    content (run started actions) ≡ content started ++ accepted_all started actions
run-content_example = run-content started actions
