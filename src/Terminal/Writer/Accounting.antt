-- ===== src/Terminal/Writer/Accounting.antt =====
-- The writer's byte count is exact and bounded, whatever the order of calls.
use simple_network_dashboard.Prelude.{
  ℕ, ◌≤◌, ◌≡◌, refl, true, false, Option, none, some, List, [], ◌∷◌, ◌++◌, arith, if_elim, length,
  keep_if, sum_of, sum_of-append,
}
use simple_network_dashboard.Config.{term_pending_input_max_bytes}
use simple_network_dashboard.Terminal.Writer.{
  Item, write, resize_to, Writer, new_writer, utf8, input, resize, password, interrupt, not_input,
  clear_input, close, pop_item, next_item,
}

abbrev input_size : Item → ℕ
input_size (write bytes true signal) = length bytes
input_size _ = 0

-- `_pending_input` is the size of the queued input, and at most 65536.
pub record IsCounted (w : Writer) : Type 0 where
  pub exact : w.pending_input ≡ sum_of input_size w.items
  pub bounded : w.pending_input ≤ term_pending_input_max_bytes

pub new_writer-IsCounted : IsCounted new_writer
unfolding new_writer
new_writer-IsCounted = omega arith

-- the calls that reach a writer, from the app and from its own thread
pub data Call : Type 0 where
  on_input : List ℕ → Call
  on_resize : ℕ → ℕ → Call
  on_password : List ℕ → Call
  on_interrupt on_clear on_close on_next : Call

after_next : Option (Item × Writer) → Writer → Writer
after_next none w = w
after_next (some (item, w')) w = w'

-- the writer after a call
pub after : Writer → Call → Writer
unfolding after_next
after w (on_input chars) = (input w chars).0
after w (on_resize cols rows) = resize w cols rows
after w (on_password chars) = (password w chars).0
after w on_interrupt = interrupt w
after w on_clear = clear_input w
after w on_close = close w
after w on_next = after_next (next_item w) w

sum-clear : (items : List Item) → sum_of input_size (keep_if not_input items) ≡ 0
unfolding not_input
sum-clear [] = refl
sum-clear (write bytes true signal ∷ items) = sum-clear items
sum-clear (write bytes false signal ∷ items) = omega (arith, sum-clear items)
sum-clear (resize_to cols rows ∷ items) = omega (arith, sum-clear items)

pop_item-IsCounted :
    (items : List Item) (w : Writer)
    → w.pending_input ≡ sum_of input_size items
    → IsCounted w
    → IsCounted (after_next (pop_item items w) w)
unfolding after_next pop_item
pop_item-IsCounted [] w e h = h
pop_item-IsCounted (write bytes true signal ∷ items) w e h = record {
  exact = omega arith;
  bounded = omega (arith, h.bounded);
}
pop_item-IsCounted (write bytes false signal ∷ items) w e h = record {
  exact = omega arith;
  bounded = h.bounded;
}
pop_item-IsCounted (resize_to cols rows ∷ items) w e h = record {
  exact = omega arith;
  bounded = h.bounded;
}

next_item-IsCounted : (w : Writer) → IsCounted w → IsCounted (after_next (next_item w) w)
unfolding next_item after_next
next_item-IsCounted w h =
    if_elim (λ o. IsCounted (after_next o w)) w.closed none (pop_item w.items w) (λ _. h)
      λ _. pop_item-IsCounted w.items w h.exact h

after-IsCounted : (w : Writer) (c : Call) → IsCounted w → IsCounted (after w c)
unfolding after
after-IsCounted w (on_input chars) h =
    unfold input in
    ground (
      arith,
      sum_of-append input_size w.items (write (utf8 chars) true none ∷ []),
      h.exact,
      h.bounded,
    )
after-IsCounted w (on_resize cols rows) h =
    unfold resize in
    ground (arith, sum_of-append input_size w.items (resize_to cols rows ∷ []), h.exact, h.bounded)
after-IsCounted w (on_password []) h = unfold password in h
after-IsCounted w (on_password (c ∷ cs)) h =
    unfold password in
    ground (
      arith,
      sum_of-append input_size w.items
          (write (utf8 ((c ∷ cs) ++ 10 ∷ [])) false (some w.next_event) ∷ []),
      h.exact,
      h.bounded,
    )
after-IsCounted w on_interrupt h = unfold interrupt in ground (arith, h.exact, h.bounded)
after-IsCounted w on_clear h =
    unfold clear_input in record { exact = omega (arith, sum-clear w.items); bounded = omega arith }
after-IsCounted w on_close h = unfold close in record { exact = h.exact; bounded = h.bounded }
after-IsCounted w on_next h = next_item-IsCounted w h

-- the writer after a sequence of calls
pub run_calls : Writer → List Call → Writer
run_calls w [] = w
run_calls w (c ∷ cs) = run_calls (after w c) cs

-- If the byte count is the size of the input that waits, and at most 65536, then so it is after any
-- calls in any order, from the app or from the writer's own thread.
pub run_calls-IsCounted : (w : Writer) (cs : List Call) → IsCounted w → IsCounted (run_calls w cs)
unfolding run_calls
run_calls-IsCounted w [] h = h
run_calls-IsCounted w (c ∷ cs) h = run_calls-IsCounted (after w c) cs (after-IsCounted w c h)
