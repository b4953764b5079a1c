-- ===== src/Metrics/Numbers.antt =====
-- The floating-point numbers that simple_network_dashboard/metrics_poller.py computes with: a type
-- with Python's operations on them. `round x n` keeps `n` digits after the point.
use simple_network_dashboard.Prelude.{ℕ, Bool}

pub record Numbers : Type 1 where
  pub Number : Type 0
  pub of_nat : ℕ → Number
  pub add : Number → Number → Number
  pub sub : Number → Number → Number
  pub mul : Number → Number → Number
  pub div : Number → Number → Number
  pub round : Number → ℕ → Number
  -- `x <= y`, which is false if one of them is not a number
  pub le : Number → Number → Bool
  -- `x == 0`
  pub is_zero : Number → Bool
