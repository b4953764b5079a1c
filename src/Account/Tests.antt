-- ===== src/Account/Tests.antt =====
-- Theorems on simple_network_dashboard/auth.py at concrete inputs. The hash stands for one of the
-- library: a fixed salt and digest behind the right prefix.
use simple_network_dashboard.Prelude.{
  lookup, ◌≤◌, ◌≡◌, refl, Bool, true, false, some, ◌∷◌, ◌++◌, if◌then◌else◌, length, take,
  replicate, string_eq, nat_eq, ◌==◌, ==_refl,
}
use simple_network_dashboard.Text.{Text, codes, text_eq, starts_with}
use simple_network_dashboard.Http.Login.{accepted}
use simple_network_dashboard.Account.{
  AuthState, is_base64, is_url_char, is_run, hash_prefix, is_auth_hash, is_session_generation,
  is_version, as_text, has_shape, validate_hash, validate_generation, read_fields,
  validate_auth_state,
}
use simple_network_dashboard.Account.Password.{
  matches, mismatch, Hasher, normalize_password, prompt_for_password, create_auth_state,
  verify_password, document,
}
use simple_network_dashboard.Account.Reset.{Host}
use simple_network_dashboard.Account.Truth.{verify_password-prompted}

abbrev fits : Text → Bool
fits t = true

abbrev a_hash : Text
a_hash = hash_prefix ++ (replicate 22 b'A' ++ (b'$' ∷ replicate 43 b'B'))

abbrev a_state : AuthState
a_state = record { password_hash = a_hash; session_generation = replicate 43 b'g' }

abbrev host : Host
host = record { state = some (document a_state); staged = false; running = true }

a_state_read : validate_auth_state fits (document a_state) ≡ some a_state
unfolding validate_auth_state read_fields document lookup as_text validate_hash validate_generation
    has_shape is_version is_auth_hash is_session_generation is_run is_base64 is_url_char starts_with
a_state_read = refl

-- a library whose digest of a text is its first 43 characters
abbrev plain : Hasher
plain = record {
  hash = λ t. hash_prefix ++ (replicate 22 b'A' ++ (b'$' ∷ take 43 (t ++ replicate 43 b'B')));
  verify = λ a t.
      if a == hash_prefix ++ (replicate 22 b'A' ++ (b'$' ∷ take 43 (t ++ replicate 43 b'B')))
      then matches
      else mismatch;
  parameters_fit = fits;
}

plain_matches : (t : Text) → plain.verify (plain.hash t) t ≡ matches
plain_matches t = rw (==_refl (plain.hash t))

abbrev same_text : Text → Text
same_text t = t

abbrev password : Text
password = codes "correcthorsebattery"

abbrev new_state : AuthState
new_state = record { password_hash = plain.hash password; session_generation = replicate 43 b'g' }

password_prompted : prompt_for_password same_text (some password) (some password) ≡ some password
unfolding prompt_for_password normalize_password
password_prompted = refl

password_created : create_auth_state same_text plain (replicate 43 b'g') password ≡ some new_state
unfolding create_auth_state normalize_password
password_created = refl

password_hashed : is_auth_hash (plain.hash password) ≡ true
unfolding is_auth_hash is_run is_base64 starts_with
password_hashed = refl

generation_random : is_session_generation (replicate 43 b'g') ≡ true
unfolding is_session_generation is_run is_url_char
generation_random = refl

verify_password-prompted_example :
    (verify_password same_text plain (document new_state) password ≡ accepted)
    × (15 ≤ length password)
    × (length password ≤ 128)
verify_password-prompted_example =
    verify_password-prompted same_text (λ t. refl) plain plain_matches password (some password)
      (replicate 43 b'g') password_prompted password_created password_hashed refl generation_random
