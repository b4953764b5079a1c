-- ===== src/SignIn/Store/Tests.antt =====
-- Instances of the theorems on sessions. The digest of a token is the token.
use simple_network_dashboard.Prelude.{
  lookup, String, ◌≡◌, refl, true, false, [], ◌∷◌, string_eq, nat_eq, Dict,
}
use simple_network_dashboard.SignIn.Store.{Stored, is_good}
use simple_network_dashboard.SignIn.Store.Validity.{IsUnique, is_valid}

abbrev digest : String → String
digest s = s

abbrev one_session : Dict String Stored
one_session = ("t1", record { generation = "g1"; expires_at = 500 }) ∷ []

one_session-IsUnique : IsUnique one_session
unfolding lookup
one_session-IsUnique = (refl, tt)

valid_test :
    (is_valid digest one_session "t1" "g1" 499 ≡ true)
    × (is_valid digest one_session "t1" "g1" 500 ≡ false)
    × (is_valid digest one_session "t1" "g2" 499 ≡ false)
unfolding is_valid is_good lookup
valid_test = (refl, refl, refl)
