-- ===== src/UpdateCheck.antt =====
-- simple_network_dashboard/update_check.py: what the browser is told when a check fails, and the
-- comparison of versions.
mod Versions
mod Tests
use simple_network_dashboard.Prelude.{
  ℕ, Bool, true, false, ◌&&◌, ◌||◌, Option, none, some, List, [], ◌∷◌, map, ltb, leb, if◌then◌else◌,
  string_eq, nat_eq, ◌==◌,
}
use simple_network_dashboard.Text.{Text, onto_first}

-- The exceptions that `_update_error_reason` tells apart. `socket.timeout` is `TimeoutError`. Of an
-- `OSError` of another class only its number matters, and of any other exception nothing.
pub data Cause : Type 0 where
  certificate_error ssl_eof_error ssl_zero_return_error ssl_error : Cause
  gaierror timeout_error connection_refused connection_reset : Cause
  os_error : Bool → Cause
  other_cause : Cause

-- an exception: `HTTPError` with its code, `JSONDecodeError`, `URLError` with its reason if that is
-- not `None`, or any other
pub data CheckError : Type 0 where
  http_error : ℕ → CheckError
  json_error : CheckError
  url_error : Option Cause → CheckError
  plain : Cause → CheckError

-- the sentences
pub data Reason : Type 0 where
  rate_limited no_release unexpected_answer bad_certificate cut_off insecure : Reason
  no_lookup no_response refused_or_reset no_network unreachable unexpected : Reason
  server_trouble : ℕ → Reason
  http_answer : ℕ → Reason

unfoldable pub http_reason : ℕ → Reason
http_reason code =
    if code == 403
    then rate_limited
    else if code == 404
    then no_release
    else if leb 500 code && ltb code 600
    then server_trouble code
    else http_answer code

-- from the unwrapped cause on; `fallback` is what is left to say
unfoldable pub cause_reason : Cause → Reason → Reason
cause_reason certificate_error fallback = bad_certificate
cause_reason ssl_eof_error fallback = cut_off
cause_reason ssl_zero_return_error fallback = cut_off
cause_reason ssl_error fallback = insecure
cause_reason gaierror fallback = no_lookup
cause_reason timeout_error fallback = no_response
cause_reason connection_refused fallback = refused_or_reset
cause_reason connection_reset fallback = refused_or_reset
cause_reason (os_error net_unreachable) fallback = if net_unreachable then no_network else fallback
cause_reason other_cause fallback = fallback

-- `_update_error_reason`
unfoldable pub update_error_reason : CheckError → Reason
update_error_reason (http_error code) = http_reason code
update_error_reason json_error = unexpected_answer
update_error_reason (url_error none) = unreachable
update_error_reason (url_error (some cause)) = cause_reason cause unreachable
update_error_reason (plain cause) = cause_reason cause unexpected

-- `v.split(".")`
unfoldable pub split_dots : Text → List Text
split_dots [] = [] ∷ []
split_dots (c ∷ s) = let rest = split_dots s in if c == b'.' then [] ∷ rest else onto_first c rest

-- `int(p)` of a part, for which `int` is given; 0 if it raises. Versions have no negative parts.
unfoldable pub part_value : Option ℕ → ℕ
part_value none = 0
part_value (some n) = n

-- `_version_tuple`
unfoldable pub version_tuple : (Text → Option ℕ) → Text → List ℕ
version_tuple int v = map (λ p. part_value (int p)) (split_dots v)

-- `a > b` on tuples
unfoldable pub tuple_gt : List ℕ → List ℕ → Bool
tuple_gt [] b = false
tuple_gt (x ∷ a) [] = true
tuple_gt (x ∷ a) (y ∷ b) = ltb y x || x == y && tuple_gt a b

-- `update_available` in the answer of `check_update`
unfoldable pub update_available : (Text → Option ℕ) → Text → Text → Bool
update_available int current latest =
    tuple_gt (version_tuple int latest) (version_tuple int current)
