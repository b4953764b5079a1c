-- ===== src/Http/Body.antt =====
-- How much of a request body simple_network_dashboard/main.py drains.
use simple_network_dashboard.Prelude.{
  ℕ, ◌+◌, ◌≤◌, ◌≡◌, inl, inr, ◌&&◌, none, some, List, [], ◌∷◌, arith, ltb, leb, Bool-cases,
  Option-cases, length, sum_of, nat_eq,
}
use simple_network_dashboard.Text.{Text}
use simple_network_dashboard.Config.{max_request_body_bytes}
use simple_network_dashboard.Http.{Request, drain_body, within_limit}

abbrev pub body_size : Request → ℕ
body_size r = sum_of length r.stream

drain_body_lem :
    (n : ℕ) (s : List Text)
    → n ≤ max_request_body_bytes
    → drain_body n s ≡ leb (n + sum_of length s) max_request_body_bytes
unfolding drain_body
drain_body_lem n [] h = ground arith
drain_body_lem n (chunk ∷ rest) h =
    elim (Bool-cases (ltb max_request_body_bytes (n + length chunk))) [
      | inl t ↦ rw t (ground arith)
      | inr t ↦
          let same : n + (length chunk + sum_of length rest)
              ≡ n + length chunk + sum_of length rest =
            omega arith in
          rw (t, same) (drain_body_lem (n + length chunk) rest (ground arith))
    ]

-- the declared length, if there is one, and the bytes that arrive are at most 1 MiB
pub within_limit_lem :
    (r : Request)
    → within_limit r ≡ (
        leb (elim r.declared_length as (λ x. ℕ) [ none ↦ 0 | some n ↦ n ]) max_request_body_bytes
        && leb (body_size r) max_request_body_bytes)
unfolding within_limit
within_limit_lem r =
    let drained = drain_body_lem 0 r.stream (omega arith) in
    let from_zero : 0 + body_size r ≡ body_size r = omega arith in
    let total = rw from_zero at drained in
    elim (Option-cases r.declared_length) [
      | inl n ↦ rw n (ground (arith, total))
      | inr (k, e) ↦ rw e (ground (arith, total))
    ]
