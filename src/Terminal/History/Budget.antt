-- ===== src/Terminal/History/Budget.antt =====
-- `trim_to_budget` of simple_network_dashboard/terminal_history.py: what of the recovery
-- histories one init frame carries.
mod Fits
mod Tests
use simple_network_dashboard.Prelude.{
  ℕ, ◌+◌, ◌-◌, ◌/◌, ◌&&◌, ◌||◌, List, [], ◌∷◌, map, reverse, ltb, leb, if◌then◌else◌, length, drop,
  sum_of, ◌==◌, nat_eq,
}
use simple_network_dashboard.Terminal.History.{Snapshot}

-- the characters that `json.dumps` writes for one character of a text
pub dumps_cost : ℕ → ℕ
dumps_cost c =
    if c == 0x22 || c == 0x5c
    then 2
    else if c == 8 || c == 9 || c == 10 || c == 12 || c == 13
    then 2
    else if leb 32 c && leb c 126
    then 1
    else if leb c 0xffff
    then 6
    else 12

-- `len(json.dumps(text))`
pub dumps_length : List ℕ → ℕ
dumps_length s = 2 + sum_of dumps_cost s

-- the loop over `reversed(terminal["lines"])`
pub kept_from : ℕ → ℕ → ℕ → List (List ℕ) → ℕ
kept_from share used kept [] = kept
kept_from share used kept (l ∷ ls) =
    let used' = used + (dumps_length l + 2) in
    let more = kept_from share used' (kept + 1) ls in if ltb share used' then kept else more

-- the loop body for one terminal
pub trim_terminal : ℕ → Snapshot → Snapshot
trim_terminal share t =
    let kept = kept_from share (dumps_length t.partial) 0 (reverse t.lines) in
    record t { lines = drop (length t.lines - kept) t.lines }

pub trim_to_budget : List Snapshot → ℕ → List Snapshot
trim_to_budget [] budget = []
trim_to_budget (t ∷ ts) budget =
    let share = budget / length (t ∷ ts) in map (trim_terminal share) (t ∷ ts)
