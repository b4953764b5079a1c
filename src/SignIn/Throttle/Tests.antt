-- ===== src/SignIn/Throttle/Tests.antt =====
-- Runs of the throttle, and instances of its theorems.
use simple_network_dashboard.Prelude.{
  lookup, ℕ, ◌+◌, ◌*◌, ◌≤◌, ◌≡◌, refl, some, [], ◌∷◌, arith, string_eq, nat_eq,
}
use simple_network_dashboard.SignIn.Throttle.{
  Throttle, current, delay_after, remaining, delay_of, retry_after,
}

abbrev five_failures : Throttle
five_failures = ("192.0.2.7", (5, 1000)) ∷ []

waits_test : (retry_after five_failures "192.0.2.7" 2500 2500).1 ≡ 4
unfolding retry_after current delay_of delay_after remaining lookup
waits_test = refl

in_order : (item : ℕ × ℕ) → lookup "192.0.2.7" five_failures ≡ some item → item.1 ≤ 2500
unfolding lookup
in_order (n, last) e = ground (arith, e)

enough : 2500 + (retry_after five_failures "192.0.2.7" 2500 2500).1 * 1000 ≤ 6500
enough = omega (arith, waits_test)
