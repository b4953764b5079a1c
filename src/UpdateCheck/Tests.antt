-- ===== src/UpdateCheck/Tests.antt =====
-- Runs of simple_network_dashboard/update_check.py.
-- `int` of a single digit
use simple_network_dashboard.Prelude.{
  ℕ, ◌-◌, ◌≡◌, refl, true, false, ◌&&◌, Option, none, some, [], ◌∷◌, leb, if◌then◌else◌, nat_eq,
}
use simple_network_dashboard.Text.{Text, codes}
use simple_network_dashboard.UpdateCheck.{
  timeout_error, http_error, url_error, no_response, server_trouble, http_reason, cause_reason,
  update_error_reason, split_dots, part_value, version_tuple, tuple_gt, update_available,
}
use simple_network_dashboard.UpdateCheck.Versions.{IsOrder, update_available-IsOrder}

abbrev digit : Text → Option ℕ
digit (c ∷ []) = if leb 48 c && leb c 57 then some (c - 48) else none
digit _ = none

newer : update_available digit (codes "1.9.0") (codes "2.0") ≡ true
unfolding update_available version_tuple split_dots part_value tuple_gt
newer = refl

not_newer : update_available digit (codes "1.2.0") (codes "1.2.x") ≡ false
unfolding update_available version_tuple split_dots part_value tuple_gt
not_newer = refl

wrapped_timeout : update_error_reason (url_error (some timeout_error)) ≡ no_response
unfolding update_error_reason cause_reason
wrapped_timeout = refl

gateway : update_error_reason (http_error 503) ≡ server_trouble 503
unfolding update_error_reason http_reason
gateway = refl

update-IsOrder : IsOrder digit (codes "1") (codes "2") (codes "3")
update-IsOrder = update_available-IsOrder digit (codes "1") (codes "2") (codes "3")
