-- ===== src/Http/Port.antt =====
-- `_parse_port` of simple_network_dashboard/main.py. What `int` makes of a text is a parameter, with a
-- negative number as 0, which is out of range too.
use Prim.Native.Char.{code}
use Prim.Native.String.{String}
use simple_network_dashboard.Prelude.{
  ℕ, ◌≤◌, String, Bool, true, false, ◌&&◌, Option, none, some, List, [], ◌∷◌, arith, leb,
  if◌then◌else◌, if_elim, option_elim, string_eq, nat_eq, ◌==◌,
}

pub data Port : Type 0 where
  port : ℕ → Port
  no_value not_numeric out_of_range : Port

-- what follows the prefix, if the text begins with it
after_prefix : String → String → Option String
after_prefix String.[] s = some s
after_prefix (String.◌∷◌ c p) String.[] = none
after_prefix (String.◌∷◌ c p) (String.◌∷◌ d s) =
    let rest = after_prefix p s in if code c == code d then rest else none

-- an argument: `--port`, `--port=` with its value, or any other
data Argument : Type 0 where
  flag other : Argument
  valued : String → Argument

argument : String → Argument
argument arg =
    if arg == "--port"
    then flag
    else elim (after_prefix "--port=" arg) [ none ↦ other | some raw ↦ valued raw ]

-- what follows a number that was accepted
and_then : Port → (ℕ → Port) → Port
and_then (port n) next = next n
and_then p next = p

-- a port is from 1 to 65535
IsPort : Port → Type 0
IsPort (port n) = (1 ≤ n) × (n ≤ 65535)
IsPort _ = Unit

and_then-IsPort :
    (p : Port) (next : ℕ → Port)
    → IsPort p
    → ((n : ℕ) → (1 ≤ n) × (n ≤ 65535) → IsPort (next n))
    → IsPort (and_then p next)
unfolding and_then IsPort
and_then-IsPort (port n) next h k = k n h
and_then-IsPort no_value next h k = tt
and_then-IsPort not_numeric next h k = tt
and_then-IsPort out_of_range next h k = tt

module _ (int : String → Option ℕ) where
  -- the number, if it can be a port
  checked : String → Port
  checked raw = elim (int raw) [
    | none ↦ not_numeric
    | some n ↦ if leb 1 n && leb n 65535 then port n else out_of_range
  ]

  -- the loop over `argv[i:]`; the flag is set while `--port` waits for its value
  parse_loop : List String → Bool → ℕ → Port
  parse_loop [] true n = no_value
  parse_loop [] false n = port n
  parse_loop (raw ∷ rest) true n = and_then (checked raw) (λ m. parse_loop rest false m)
  parse_loop (arg ∷ rest) false n = elim (argument arg) [
    | flag ↦ parse_loop rest true n
    | other ↦ parse_loop rest false n
    | valued raw ↦ and_then (checked raw) (λ m. parse_loop rest false m)
  ]

  -- `_parse_port`
  parse_port : List String → Port
  parse_port argv = parse_loop argv false 3000

  checked-IsPort : (raw : String) → IsPort (checked raw)
  unfolding checked IsPort
  checked-IsPort raw =
      option_elim IsPort (int raw) _ _ (λ _. tt)
        (λ n _. if_elim IsPort (leb 1 n && leb n 65535) _ _ (λ t. ground (arith, t)) (λ _. tt))

  parse_loop-IsPort :
      (argv : List String) (waits : Bool) (n : ℕ)
      → (1 ≤ n) × (n ≤ 65535)
      → IsPort (parse_loop argv waits n)
  unfolding parse_loop IsPort
  parse_loop-IsPort [] true n h = tt
  parse_loop-IsPort [] false n h = h
  parse_loop-IsPort (raw ∷ rest) true n h =
      and_then-IsPort (checked raw) _ (checked-IsPort raw) (λ m k. parse_loop-IsPort rest false m k)
  parse_loop-IsPort (arg ∷ rest) false n h =
      by_kind (argument arg) (parse_loop-IsPort rest true n h) (parse_loop-IsPort rest false n h)
        (λ m k. parse_loop-IsPort rest false m k)
    where
      by_kind :
          (a : Argument)
          → IsPort (parse_loop rest true n)
          → IsPort (parse_loop rest false n)
          → ((m : ℕ) → (1 ≤ m) × (m ≤ 65535) → IsPort (parse_loop rest false m))
          → IsPort (elim a as (λ x. Port) [
            | flag ↦ parse_loop rest true n
            | other ↦ parse_loop rest false n
            | valued raw ↦ and_then (checked raw) (λ m. parse_loop rest false m)
          ])
      by_kind flag a b c = a
      by_kind other a b c = b
      by_kind (valued raw) a b c = and_then-IsPort (checked raw) _ (checked-IsPort raw) c

  -- a port that is returned can be bound, whatever the arguments
  parse_port-IsPort : (argv : List String) → IsPort (parse_port argv)
  unfolding parse_port
  parse_port-IsPort argv = parse_loop-IsPort argv false 3000 (omega arith)
