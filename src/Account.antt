-- ===== src/Account.antt =====
-- The shape of the password state in simple_network_dashboard/auth.py: `validate_auth_state`. What the
-- library for Argon2 makes of a hash is a parameter.
pub mod Password
pub mod Reset
mod Truth
mod Tests
use simple_network_dashboard.Prelude.{
  lookup, ℕ, String, Bool, false, not, ◌&&◌, ◌||◌, Option, none, some, List, [], ◌∷◌, leb,
  if◌then◌else◌, ◌>>=◌, length, take, drop, is_none, any, string_eq, nat_eq, ◌==◌, Dict,
}
use simple_network_dashboard.Text.{Text, codes, starts_with}

-- a value of a JSON document; of a number that is not written as an integer only whether it equals 1
-- matters
pub data Json : Type 0 where
  null other : Json
  boolean is_one : Bool → Json
  integer : ℕ → Json
  text : Text → Json

-- a document: an object, or anything else
pub data Document : Type 0 where
  object : Dict String Json → Document
  no_object : Document

-- the password state once it is valid
pub record AuthState : Type 0 where
  pub password_hash : Text
  pub session_generation : Text

-- `[A-Za-z0-9+/]`
unfoldable pub is_base64 : ℕ → Bool
is_base64 c =
    leb b'A' c && leb c b'Z'
    || leb b'a' c && leb c b'z'
    || leb b'0' c && leb c b'9'
    || c == b'+'
    || c == b'/'

-- `[A-Za-z0-9_-]`
unfoldable pub is_url_char : ℕ → Bool
is_url_char c =
    leb b'A' c && leb c b'Z'
    || leb b'a' c && leb c b'z'
    || leb b'0' c && leb c b'9'
    || c == b'_'
    || c == b'-'

-- `c{n}` of a regular expression, on the whole text
unfoldable pub is_run : (ℕ → Bool) → ℕ → Text → Bool
is_run p n t = length t == n && not (any (λ c. not (p c)) t)

abbrev pub hash_prefix : Text
hash_prefix = codes "$argon2id$v=19$m=19456,t=2,p=1$"

-- `_AUTH_HASH_RE.fullmatch`
unfoldable pub is_auth_hash : Text → Bool
is_auth_hash t =
    let rest = drop (length hash_prefix) t in
    starts_with t hash_prefix
    && is_run is_base64 22 (take 22 rest)
    && starts_with (drop 22 rest) (b'$' ∷ [])
    && is_run is_base64 43 (drop 23 rest)

-- `_SESSION_GENERATION_RE.fullmatch`
unfoldable pub is_session_generation : Text → Bool
is_session_generation t = is_run is_url_char 43 t

-- `state["version"] != AUTH_STATE_VERSION`, negated: Python holds `True` and `1.0` to be 1
unfoldable pub is_version : Option Json → Bool
is_version (some (integer n)) = n == 1
is_version (some (boolean b)) = b
is_version (some (is_one b)) = b
is_version _ = false

unfoldable pub as_text : Option Json → Option Text
as_text (some (text t)) = some t
as_text _ = none

abbrev pub state_keys : List String
state_keys = "version" ∷ "password_hash" ∷ "session_generation" ∷ []

-- `set(state) == {...}`, of an object with each key once
unfoldable pub has_shape : Dict String Json → Bool
has_shape d = length d == 3 && not (any (λ k. is_none (lookup k d)) state_keys)

-- `parameters_fit` is whether the library can read the parameters of a hash and they are those of
-- the dashboard
module _ (parameters_fit : Text → Bool) where
  unfoldable pub validate_hash : Option Text → Option Text
  validate_hash none = none
  validate_hash (some h) = if is_auth_hash h && parameters_fit h then some h else none

  unfoldable pub validate_generation : Option Text → Option Text
  validate_generation none = none
  validate_generation (some g) = if is_session_generation g then some g else none

  -- the checks of the hash and of the generation
  unfoldable pub read_fields : Dict String Json → Option AuthState
  read_fields d = do
    h ← validate_hash (as_text (lookup "password_hash" d))
    g ← validate_generation (as_text (lookup "session_generation" d))
    some (record { password_hash = h; session_generation = g })

  -- `validate_auth_state`; none if it raises
  unfoldable pub validate_auth_state : Document → Option AuthState
  validate_auth_state no_object = none
  validate_auth_state (object d) =
      if has_shape d && is_version (lookup "version" d) then read_fields d else none
