-- ===== src/Account/Password.antt =====
-- Passwords in simple_network_dashboard/auth.py. Unicode normalisation and the library for Argon2 are
-- parameters.
use simple_network_dashboard.Prelude.{
  ℕ, Bool, ◌&&◌, Option, none, some, [], ◌∷◌, leb, if◌then◌else◌, ◌>>=◌, length, string_eq, nat_eq,
  ◌==◌,
}
use simple_network_dashboard.Text.{Text, text_eq}
use simple_network_dashboard.Http.Login.{Verified, accepted, rejected, verify_raises}
use simple_network_dashboard.Account.{
  integer, text, Document, object, AuthState, validate_auth_state,
}

abbrev pub min_password_length : ℕ
min_password_length = 15

abbrev pub max_password_length : ℕ
max_password_length = 128

-- how `PASSWORD_HASHER.verify` ends: it returns, or raises `VerifyMismatchError`, `InvalidHashError`
-- or another exception
pub data Compared : Type 0 where
  matches mismatch invalid_hash other_error : Compared

-- the library, with a random salt for the next hash
pub record Hasher : Type 0 where
  pub hash : Text → Text
  pub verify : Text → Text → Compared
  pub parameters_fit : Text → Bool

-- `NFC`
module _ (nfc : Text → Text) where
  -- `normalize_password`; none if it raises
  unfoldable pub normalize_password : Text → Option Text
  normalize_password password =
      let n = nfc password in
      if leb min_password_length (length n) && leb (length n) max_password_length
      then some n
      else none

  -- `prompt_for_password` of two entries, none if one is interrupted; none if it raises
  unfoldable pub prompt_for_password : Option Text → Option Text → Option Text
  prompt_for_password first second = do
    entered ← first
    password ← normalize_password entered
    confirmation ← second
    if password == nfc confirmation then some password else none

  -- `create_auth_state`, with a random generation; none if it raises
  unfoldable pub create_auth_state : Hasher → Text → Text → Option AuthState
  create_auth_state h generation password = do
    n ← normalize_password password
    some (record { password_hash = h.hash n; session_generation = generation })

  -- the answer of the library, as `verify_password` handles it
  unfoldable pub verdict : Compared → Verified
  verdict matches = accepted
  verdict mismatch = rejected
  verdict invalid_hash = rejected
  verdict other_error = verify_raises

  -- `verify_password`; a state that is not valid makes it raise
  unfoldable pub verify_password : Hasher → Document → Text → Verified
  verify_password h state password = elim (validate_auth_state h.parameters_fit state) [
    | none ↦ verify_raises
    | some s ↦ elim (normalize_password password) [
      | none ↦ rejected
      | some n ↦ verdict (h.verify s.password_hash n)
    ]
  ]

-- the document that is written for a state
unfoldable pub document : AuthState → Document
document s = object (
    ("version", integer 1)
    ∷ ("password_hash", text s.password_hash)
    ∷ ("session_generation", text s.session_generation)
    ∷ [])
