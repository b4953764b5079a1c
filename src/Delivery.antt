-- ===== src/Delivery.antt =====
-- simple_network_dashboard/delivery_queue.py: the hand-over of messages from the SSH workers to the
-- event loop. The interleaving of threads and loop is a sequence of steps, each of which holds the
-- queue's condition. `len(json.dumps(msg))` is the argument `size`.
mod Limits
mod Wakeups
mod Order
mod Tests
use simple_network_dashboard.Prelude.{
  ℕ, ◌+◌, ◌-◌, ◌*◌, Bool, true, false, not, ◌&&◌, ◌||◌, List, [], ◌∷◌, ◌++◌, ltb, leb,
  if◌then◌else◌, length, is_nil,
}
use simple_network_dashboard.Config.{delivery_queue_max_bytes, delivery_queue_max_items}

-- `_loop`: not yet given, open or closed
pub data Loop : Type 0 where
  unset running closed : Loop

pub record Delivery (M : Type 0) : Type 0 where
  pub queue : List (M × ℕ)
  pub bytes : ℕ
  pub loop : Loop
  -- `_event`, and the calls of `event.set` that wait in the loop
  pub event : Bool
  pub wakes : ℕ
  -- whether the drain task is in its inner loop, and not at `await self._event.wait()`
  pub draining : Bool
  pub is_shutdown : Bool
  -- whether the cancellation of the drain task waits in the loop, and whether the task has ended
  pub cancelling : Bool
  pub ended : Bool
  -- what `_deliver` has been given, oldest first
  pub delivered : List M

is_running : Loop → Bool
is_running running = true
is_running _ = false

-- What one round of the loop of `push_terminal` comes to: it has returned a truth value, or it
-- waits for room.
pub data Attempt : Type 0 where
  returned : Bool → Attempt
  waits : Attempt

-- the steps of workers and loop, in any order
pub data Action (M : Type 0) : Type 0 where
  on_push : M → ℕ → Action M
  on_push_terminal : M → ℕ → Bool → Action M
  on_set_event on_drain on_shutdown on_cancel : Action M

module _ {M : Type 0} where
  pub new_delivery : Delivery M
  new_delivery = record {
    queue = [];
    bytes = 0;
    loop = unset;
    event = false;
    wakes = 0;
    draining = false;
    is_shutdown = false;
    cancelling = false;
    ended = false;
    delivered = [];
  }

  -- `start`
  pub start : Delivery M → Delivery M
  start q = record q { loop = running; event = false; draining = false; ended = false }

  -- `wake`; there is an event once there is a loop
  wake : Delivery M → Delivery M
  unfolding is_running
  wake q = if is_running q.loop then record q { wakes = q.wakes + 1 } else q

  -- append and count, and wake the drain task if the queue was empty
  enqueue : Delivery M → M → ℕ → Delivery M
  unfolding wake
  enqueue q msg size =
      let q' = record q { queue = q.queue ++ (msg, size) ∷ []; bytes = q.bytes + size } in
      if is_nil q.queue then wake q' else q'

  -- `push`
  pub push : Delivery M → M → ℕ → Delivery M
  unfolding enqueue is_running
  push q msg size = if q.is_shutdown || not (is_running q.loop) then q else enqueue q msg size

  -- the capacity test of `push_terminal`, with the reserved tenth written in whole numbers
  has_room : Delivery M → ℕ → Bool
  has_room q size =
      leb ((q.bytes + size) * 10) (delivery_queue_max_bytes * 9)
      && leb ((length q.queue + 1) * 10) (delivery_queue_max_items * 9)

  -- one round of the loop of `push_terminal`; `go_on` is what `should_continue()` answers
  pub push_terminal : Delivery M → M → ℕ → Bool → Delivery M × Attempt
  unfolding enqueue has_room
  push_terminal q msg size go_on =
      if q.is_shutdown || not go_on
      then (q, returned false)
      else if has_room q size
      then (enqueue q msg size, returned true)
      else (q, waits)

  -- the loop runs a waiting `event.set`
  pub set_event : Delivery M → Delivery M
  set_event q = if ltb 0 q.wakes then record q { wakes = q.wakes - 1; event = true } else q

  take_first : List (M × ℕ) → Delivery M → Delivery M
  take_first [] q = record q { event = false; draining = false }
  take_first ((msg, size) ∷ rest) q = record q {
    queue = rest;
    bytes = q.bytes - size;
    delivered = q.delivered ++ msg ∷ [];
  }

  -- `_drain`: it passes `wait()` once the event is set; in its inner loop it takes the first
  -- message, or finds none, clears the event and waits again
  pub drain : Delivery M → Delivery M
  unfolding take_first
  drain q =
      if q.ended
      then q
      else if q.draining
      then take_first q.queue q
      else if q.event
      then record q { draining = true }
      else q

  -- `shutdown`; a task that has not ended is to be cancelled by the loop
  pub shutdown : Delivery M → Delivery M
  shutdown q = record q { is_shutdown = true; cancelling = not q.ended || q.cancelling }

  -- the loop cancels the drain task, which ends where it waits
  pub cancel_drain : Delivery M → Delivery M
  cancel_drain q = if q.cancelling then record q { cancelling = false; ended = true } else q

  pub step : Delivery M → Action M → Delivery M
  step q (on_push msg size) = push q msg size
  step q (on_push_terminal msg size go_on) = (push_terminal q msg size go_on).0
  step q on_set_event = set_event q
  step q on_drain = drain q
  step q on_shutdown = shutdown q
  step q on_cancel = cancel_drain q

  pub run : Delivery M → List (Action M) → Delivery M
  run q [] = q
  run q (a ∷ rest) = run (step q a) rest
