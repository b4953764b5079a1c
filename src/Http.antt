-- ===== src/Http.antt =====
-- The middleware of simple_network_dashboard/main.py: `limit_request_body_size`, which comes first,
-- and `protect_http_requests`. What is read of the password state, how the session file behaves and
-- the time of the check are one argument.
pub mod Web
pub mod Login
pub mod Presence
mod Port
mod Tests
mod Gate
mod Body
use simple_network_dashboard.Prelude.{
  ℕ, ◌+◌, String, Bool, true, false, not, ◌&&◌, ◌||◌, Option, none, some, List, [], ◌∷◌, ltb, leb,
  if◌then◌else◌, length, any, string_eq, nat_eq, ◌==◌,
}
use simple_network_dashboard.Text.{Text, codes, starts_with}
use simple_network_dashboard.Config.{max_request_body_bytes, public_paths, unsafe_methods}
use simple_network_dashboard.SignIn.Store.{
  SessionFile, Published, Returned, value, raised, validate,
}

pub record Request : Type 0 where
  pub path : String
  pub method : String
  pub session_cookie : Option String
  pub csrf_cookie : Option String
  pub csrf_header : Option String
  -- what `int` makes of the `Content-Length` header, a negative number as 0; none if it is absent or
  -- no number
  pub declared_length : Option ℕ
  -- the body as it arrives
  pub stream : List Text

-- the circumstances of one check: the `session_generation` that `load_auth_state` reads, or none if
-- it raises; whether the session file can be read, how its replacement ends, and the time
pub record Check : Type 0 where
  pub generation : Option String
  pub readable : Bool
  pub ending : Published
  pub now : ℕ

-- `_is_public_path`
pub is_public_path : String → Bool
is_public_path path =
    any (λ p. p == path) public_paths || starts_with (codes path) (codes "/static/")

pub is_unsafe : String → Bool
is_unsafe method = any (λ u. u == method) unsafe_methods

-- whether `hmac.compare_digest` compares the text; it raises `TypeError` on any other
pub is_ascii : String → Bool
is_ascii s = not (any (λ c. leb 128 c) (codes s))

pub data Csrf : Type 0 where
  csrf_valid csrf_invalid csrf_raises : Csrf

compare_tokens : String → String → Csrf
compare_tokens cookie header =
    if cookie == "" || header == ""
    then csrf_invalid
    else if not (is_ascii cookie && is_ascii header)
    then csrf_raises
    else if cookie == header
    then csrf_valid
    else csrf_invalid

-- `_csrf_is_valid`
pub csrf_is_valid : Option String → Option String → Csrf
csrf_is_valid (some cookie) (some header) = compare_tokens cookie header
csrf_is_valid _ _ = csrf_invalid

-- what the middleware answers; `handled` says that the request goes on, and whether the answer gets
-- a new CSRF cookie
pub data Verdict : Type 0 where
  too_large csrf_failed sign_in_required to_login server_error : Verdict
  handled : Bool → Verdict

is_true : Returned Bool → Bool
is_true (value b) = b
is_true raised = false

-- `not request.cookies.get(CSRF_COOKIE_NAME)`
lacks_cookie : Option String → Bool
lacks_cookie none = true
lacks_cookie (some c) = c == ""

needs_csrf_cookie : Request → Bool
needs_csrf_cookie r =
    r.method == "GET"
    && lacks_cookie r.csrf_cookie
    && (r.path == "/login" || not (is_public_path r.path))

-- the CSRF test of a request whose method needs it
check_csrf : Request → Verdict
check_csrf r =
    let go = handled (needs_csrf_cookie r) in
    if not (is_unsafe r.method) then go else elim (csrf_is_valid r.csrf_cookie r.csrf_header) [
      | csrf_valid ↦ go
      | csrf_invalid ↦ csrf_failed
      | csrf_raises ↦ server_error
    ]

-- the test of the stream, with the bytes drained so far
drain_body : ℕ → List Text → Bool
drain_body n [] = true
drain_body n (chunk ∷ rest) =
    let more = drain_body (n + length chunk) rest in
    if ltb max_request_body_bytes (n + length chunk) then false else more

-- `limit_request_body_size`: whether the request goes on
pub within_limit : Request → Bool
within_limit r = elim r.declared_length [
  | some n ↦ if ltb max_request_body_bytes n then false else drain_body 0 r.stream
  | none ↦ drain_body 0 r.stream
]

module _ (digest : String → String) where
  -- `_session_token_is_valid`
  pub session_token_is_valid : SessionFile → Check → Option String → SessionFile × Bool
  session_token_is_valid file c token = elim c.generation [
    | none ↦ (file, false)
    | some generation ↦
        let (file', r) = validate digest file c.readable c.ending token generation c.now in
        (file', is_true r)
  ]

  -- `protect_http_requests`
  pub protect_http_requests : SessionFile → Check → Request → SessionFile × Verdict
  protect_http_requests file c r =
      let (file', signed_in) = session_token_is_valid file c r.session_cookie in
      if r.path == "/api/auth/login"
      then (file, check_csrf r)
      else if is_public_path r.path
      then (file, handled (needs_csrf_cookie r))
      else if not signed_in
      then (
        file',
        if starts_with (codes r.path) (codes "/api/") then sign_in_required else to_login,
      )
      else (file', check_csrf r)

  -- a request on its way to the routes
  pub receive : SessionFile → Check → Request → SessionFile × Verdict
  receive file c r =
      let checked = protect_http_requests file c r in
      if within_limit r then checked else (file, too_large)
