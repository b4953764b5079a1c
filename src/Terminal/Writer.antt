-- ===== src/Terminal/Writer.antt =====
-- `TerminalWriter` of simple_network_dashboard/terminal_run.py: the queue of what is to be written
-- to the device. Each method runs under the writer's condition, so it is one step.
mod Accounting
mod Tests
use simple_network_dashboard.Prelude.{
  ℕ, ◌+◌, ◌-◌, ◌/◌, ◌%◌, Bool, true, false, not, ◌||◌, Option, none, some, List, [], ◌∷◌, ◌++◌, ltb,
  if◌then◌else◌, length, drop, keep_if, ◌==◌, nat_eq,
}
use simple_network_dashboard.Config.{term_pending_input_max_bytes}

-- the tuples of `_items`; a password write carries the event that is set once it is written
pub data Item : Type 0 where
  write : List ℕ → Bool → Option ℕ → Item
  resize_to : ℕ → ℕ → Item

pub record Writer : Type 0 where
  pub items : List Item
  pub pending_input : ℕ
  pub closed : Bool
  pub next_event : ℕ

pub new_writer : Writer
new_writer = record { items = []; pending_input = 0; closed = false; next_event = 0 }

-- `str.encode("utf-8")` of one code point
pub utf8_char : ℕ → List ℕ
utf8_char c =
    if ltb c 0x80
    then c ∷ []
    else if ltb c 0x800
    then (0xc0 + c / 64) ∷ (0x80 + c % 64) ∷ []
    else if ltb c 0x10000
    then (0xe0 + c / 4096) ∷ (0x80 + c / 64 % 64) ∷ (0x80 + c % 64) ∷ []
    else (0xf0 + c / 262144) ∷ (0x80 + c / 4096 % 64) ∷ (0x80 + c / 64 % 64) ∷ (0x80 + c % 64) ∷ []

pub utf8 : List ℕ → List ℕ
utf8 [] = []
utf8 (c ∷ cs) = utf8_char c ++ utf8 cs

-- `input`
pub input : Writer → List ℕ → Writer × Bool
input w chars =
    let encoded = utf8 chars in
    if w.closed || ltb term_pending_input_max_bytes (w.pending_input + length encoded)
    then (w, false)
    else (
      record w {
        items = w.items ++ write encoded true none ∷ [];
        pending_input = w.pending_input + length encoded;
      },
      true,
    )

-- `_put`
put : Writer → Item → Writer
put w item = if w.closed then w else record w { items = w.items ++ item ∷ [] }

-- `resize`
pub resize : Writer → ℕ → ℕ → Writer
unfolding put
resize w cols rows = put w (resize_to cols rows)

-- `password`: the event to wait for, if there is a password
pub password : Writer → List ℕ → Writer × Option ℕ
unfolding put
password w [] = (w, none)
password w (c ∷ cs) =
    let signal = w.next_event in
    let w' = put w (write (utf8 ((c ∷ cs) ++ 10 ∷ [])) false (some signal)) in
    (record w' { next_event = signal + 1 }, some signal)

-- `interrupt`: Ctrl+C goes before everything that waits
pub interrupt : Writer → Writer
interrupt w = if w.closed then w else record w { items = write (3 ∷ []) false none ∷ w.items }

-- `item[0] != "write" or not item[2]`
not_input : Item → Bool
not_input (write bytes from_input signal) = not from_input
not_input (resize_to cols rows) = true

-- `clear_input`
pub clear_input : Writer → Writer
unfolding not_input
clear_input w = record w { items = keep_if not_input w.items; pending_input = 0 }

-- `close`
pub close : Writer → Writer
close w = record w { closed = true }

-- the `popleft` of `_run`, with its bookkeeping
taken : Writer → Item → List Item → Writer
taken w (write bytes true signal) rest = record w {
  items = rest;
  pending_input = w.pending_input - length bytes;
}
taken w (write bytes false signal) rest = record w { items = rest }
taken w (resize_to cols rows) rest = record w { items = rest }

pop_item : List Item → Writer → Option (Item × Writer)
unfolding taken
pop_item [] w = none
pop_item (item ∷ rest) w = some (item, taken w item rest)

-- one round of `_run` up to the item it works on; `none` if it waits or has ended
pub next_item : Writer → Option (Item × Writer)
unfolding pop_item
next_item w = if w.closed then none else pop_item w.items w

-- What one round of the send loop meets: whether the writer has been closed, whether the deadline
-- has passed, and what `chan.send` does.
pub data Sent : Type 0 where
  timeout : Sent
  failed : Sent
  sent : ℕ → Sent

pub record Round : Type 0 where
  pub closed : Bool
  pub expired : Bool
  pub outcome : Sent

-- The send loop of `_run`: the bytes that are left and whether the writer is stuck; `none` while
-- it goes on after the rounds given.
pub send_loop : List Round → List ℕ → Option (List ℕ × Bool)
send_loop rounds [] = some ([], false)
send_loop [] (b ∷ bs) = none
send_loop (r ∷ rounds) (b ∷ bs) =
    let again = send_loop rounds (b ∷ bs) in
    let go_on = λ (n : ℕ). send_loop rounds (drop n (b ∷ bs)) in
    if r.closed
    then some (b ∷ bs, false)
    else if r.expired
    then some (b ∷ bs, true)
    else (elim r.outcome [
      | timeout ↦ again
      | failed ↦ some (b ∷ bs, false)
      | sent n ↦ if n == 0 then some (b ∷ bs, false) else go_on n
    ])
