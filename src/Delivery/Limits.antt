-- ===== src/Delivery/Limits.antt =====
-- The byte count, and what bounds the queue.
use simple_network_dashboard.Prelude.{
  ℕ, ◌+◌, ◌*◌, ◌≤◌, ◌<◌, ◌≡◌, refl, ◌≢◌, ◌⊎◌, Bool, true, false, List, [], ◌∷◌, arith, length,
  sum_of, length-append, sum_of-append,
}
use simple_network_dashboard.Config.{delivery_queue_max_bytes, delivery_queue_max_items}
use simple_network_dashboard.Delivery.{
  Delivery, returned, Action, on_push, on_push_terminal, on_set_event, on_drain, on_shutdown,
  on_cancel, new_delivery, start, push, push_terminal, set_event, take_first, drain, shutdown,
  cancel_drain, step, run,
}

pub record IsCounted {M : Type 0} (q : Delivery M) : Type 0 where
  pub exact : q.bytes ≡ sum_of (λ (e : M × ℕ). e.1) q.queue

module _ {M : Type 0} where
  abbrev sizes : List (M × ℕ) → ℕ
  sizes = sum_of (λ (e : M × ℕ). e.1)

  take_first-exact :
      (l : List (M × ℕ)) (q : Delivery M)
      → q.bytes ≡ sizes l
      → q.queue ≡ l
      → (take_first l q).bytes ≡ sizes (take_first l q).queue
  unfolding take_first
  take_first-exact [] q e s = rw s (omega arith)
  take_first-exact ((msg, size) ∷ rest) q e s = omega arith

  step-IsCounted : (q : Delivery M) (a : Action M) → IsCounted q → IsCounted (step q a)
  unfolding step
  step-IsCounted q (on_push msg size) h =
      unfold push in
      record {
        exact =
            ground (arith, h.exact, sum_of-append (λ (e : M × ℕ). e.1) q.queue ((msg, size) ∷ []));
      }
  step-IsCounted q (on_push_terminal msg size go_on) h =
      unfold push_terminal in
      record {
        exact =
            ground (arith, h.exact, sum_of-append (λ (e : M × ℕ). e.1) q.queue ((msg, size) ∷ []));
      }
  step-IsCounted q on_set_event h = unfold set_event in record { exact = ground (arith, h.exact) }
  step-IsCounted q on_drain h =
      unfold drain in
      record { exact = ground (arith, h.exact, take_first-exact q.queue q h.exact refl) }
  step-IsCounted q on_shutdown h = unfold shutdown in record { exact = h.exact }
  step-IsCounted q on_cancel h = unfold cancel_drain in record { exact = ground (arith, h.exact) }

  -- If the byte count is the sum of the sizes of the queued messages, it still is after any
  -- interleaving of steps.
  pub run-IsCounted :
      (q : Delivery M) (actions : List (Action M)) → IsCounted q → IsCounted (run q actions)
  unfolding run
  run-IsCounted q [] h = h
  run-IsCounted q (a ∷ rest) h = run-IsCounted (step q a) rest (step-IsCounted q a h)

  -- nine tenths of the capacity, in bytes and in items
  pub record IsWithinShare (q : Delivery M) : Type 0 where
    pub few_bytes : q.bytes * 10 ≤ delivery_queue_max_bytes * 9
    pub few_items : length q.queue * 10 ≤ delivery_queue_max_items * 9

  -- Terminal output that is accepted has left the reserved tenth of the queue free, in bytes and in
  -- items; and it is refused without being queued when the run is over or the queue is shut down.
  pub push_terminal-IsWithinShare :
      (q : Delivery M) (msg : M) (size : ℕ) (go_on : Bool)
      → ((push_terminal q msg size go_on).1 ≡ returned true
          → IsWithinShare (push_terminal q msg size go_on).0)
        × ((push_terminal q msg size go_on).1 ≢ returned true
            → (push_terminal q msg size go_on).0 ≡ q)
        × ((q.is_shutdown ≡ true) ⊎ (go_on ≡ false)
            → (push_terminal q msg size go_on).1 ≡ returned false)
  unfolding push_terminal
  push_terminal-IsWithinShare q msg size go_on = (
    λ e. ground (arith, length-append q.queue ((msg, size) ∷ [])),
    λ e. ground arith,
    λ e. ground arith,
  )

  -- No size bounds what `push` takes: for every number there is a running queue that holds more
  -- bytes than that after one message.
  pub push_unbounded :
      (msg : M) (limit : ℕ) → limit < (push (start new_delivery) msg (limit + 1)).bytes
  unfolding push start new_delivery
  push_unbounded msg limit = omega arith
