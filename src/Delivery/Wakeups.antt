-- ===== src/Delivery/Wakeups.antt =====
-- No lost wake-up: until it is shut down, a queue that holds messages is being drained, or is about
-- to be.
use simple_network_dashboard.Prelude.{◌<◌, ◌≡◌, ◌≢◌, ◌⊎◌, true, false, List, [], ◌∷◌, arith}
use simple_network_dashboard.Delivery.{
  running, Delivery, Action, on_push, on_push_terminal, on_set_event, on_drain, on_shutdown,
  on_cancel, push, push_terminal, set_event, drain, shutdown, cancel_drain, step, run,
}

pub record IsLive {M : Type 0} (q : Delivery M) : Type 0 where
  pub has_loop : q.loop ≡ running
  pub alive : q.is_shutdown ≡ false → (q.ended ≡ false) × (q.cancelling ≡ false)
  pub awake :
      q.is_shutdown ≡ false → q.queue ≢ [] → (q.draining ≡ true) ⊎ (q.event ≡ true) ⊎ (0 < q.wakes)

step-IsLive : {M : Type 0} (q : Delivery M) (a : Action M) → IsLive q → IsLive (step q a)
unfolding step
step-IsLive q (on_push msg size) h =
    unfold push in
    record {
      has_loop = ground (arith, h.has_loop);
      alive = λ k. ground (arith, h.alive);
      awake = λ k e. ground (arith, h.has_loop, h.alive, h.awake);
    }
step-IsLive q (on_push_terminal msg size go_on) h =
    unfold push_terminal in
    record {
      has_loop = ground (arith, h.has_loop);
      alive = λ k. ground (arith, h.alive);
      awake = λ k e. ground (arith, h.has_loop, h.alive, h.awake);
    }
step-IsLive q on_set_event h =
    unfold set_event in
    record {
      has_loop = ground (arith, h.has_loop);
      alive = λ k. ground (arith, h.alive);
      awake = λ k e. ground (arith, h.has_loop, h.alive, h.awake);
    }
step-IsLive q on_drain h =
    unfold drain in
    record {
      has_loop = ground (arith, h.has_loop);
      alive = λ k. ground (arith, h.alive);
      awake = λ k e. ground (arith, h.has_loop, h.alive, h.awake);
    }
step-IsLive q on_shutdown h =
    unfold shutdown in
    record {
      has_loop = ground (arith, h.has_loop);
      alive = λ k. ground (arith, h.alive);
      awake = λ k e. ground (arith, h.has_loop, h.alive, h.awake);
    }
step-IsLive q on_cancel h =
    unfold cancel_drain in
    record {
      has_loop = ground (arith, h.has_loop);
      alive = λ k. ground (arith, h.alive);
      awake = λ k e. ground (arith, h.has_loop, h.alive, h.awake);
    }

-- From a queue with an open loop and a drain task that lives, any interleaving of pushes, terminal
-- pushes, loop steps, shut-down and cancellation leads to a queue that, unless it was shut down,
-- has such a task still, and whenever messages wait in it the task is in its inner loop, its event
-- is set, or a wake-up is on its way.
pub run-IsLive :
    {M : Type 0} (q : Delivery M) (actions : List (Action M)) → IsLive q → IsLive (run q actions)
unfolding run
run-IsLive q [] h = h
run-IsLive q (a ∷ rest) h = run-IsLive (step q a) rest (step-IsLive q a h)
