-- ===== src/SignIn/Throttle.antt =====
-- `LoginThrottle` of simple_network_dashboard/session_manager.py. Every reading of the clock is an
-- argument, in milliseconds and in the order of the readings.
mod Delays
mod Tests
use simple_network_dashboard.Prelude.{
  lookup, insert, remove, ℕ, ◌+◌, ◌-◌, ◌*◌, ◌/◌, ◌^◌, min, String, Option, none, some, ltb, leb,
  if◌then◌else◌, string_eq, nat_eq, Dict,
}

-- `_failures`: the number of failures of an address, and the time of the last one
abbrev pub Throttle : Type 0
Throttle = Dict String (ℕ × ℕ)

-- `15 * 60` seconds
abbrev pub forget_after : ℕ
forget_after = 15 * 60 * 1000

-- `_current`
pub current : Throttle → String → ℕ → Throttle × Option (ℕ × ℕ)
current th address now = elim (lookup address th) [
  | none ↦ (th, none)
  | some item ↦
      if leb forget_after (now - item.1) then (remove address th, none) else (th, some item)
]

-- `min(5 * (2 ** (item[0] - 5)), 300)`, in seconds
pub delay_after : ℕ → ℕ
delay_after n = min (5 * 2 ^ (n - 5)) 300

-- `max(0, math.ceil(remaining))`
remaining : ℕ → ℕ → ℕ
remaining delay passed = (delay * 1000 - passed + 999) / 1000

delay_of : Option (ℕ × ℕ) → ℕ → ℕ
unfolding delay_after remaining
delay_of none now = 0
delay_of (some (n, last)) now = if ltb n 5 then 0 else remaining (delay_after n) (now - last)

-- `retry_after`, with the readings of `_current` and of its own
pub retry_after : Throttle → String → ℕ → ℕ → Throttle × ℕ
unfolding current delay_of
retry_after th address t1 t2 = let (th', item) = current th address t1 in (th', delay_of item t2)

-- `1 if item is None else item[0] + 1`
count_of : Option (ℕ × ℕ) → ℕ
count_of none = 1
count_of (some (n, last)) = n + 1

-- `failure`, with the readings of `_current`, of its own, and the two of `retry_after`
pub failure : Throttle → String → ℕ → ℕ → ℕ → ℕ → Throttle × ℕ
unfolding current retry_after count_of
failure th address t1 t2 t3 t4 =
    let (th', item) = current th address t1 in
    retry_after (insert address (count_of item, t2) th') address t3 t4

-- `success`
unfoldable pub success : Throttle → String → Throttle
success th address = remove address th
