-- ===== src/Metrics/Fetch.antt =====
-- `fetch_metrics` of simple_network_dashboard/metrics_poller.py. The resolver's answer and all that
-- the HTTP library gives back are arguments; `extract` stands for the parsing and extraction of a
-- body that was read whole.
pub mod Safety
use simple_network_dashboard.Prelude.{
  ℕ, ◌+◌, ◌-◌, ◌*◌, String, Bool, not, ◌&&◌, ◌||◌, Option, none, some, [], ◌∷◌, ◌++◌, ltb, leb,
  if◌then◌else◌, length, is_nil, any, nat_eq,
}
use simple_network_dashboard.Text.{Text}
use simple_network_dashboard.Config.{metrics_max_response_bytes}
use simple_network_dashboard.Metrics.Target.{
  is_valid_host_string, Ip, is_allowed_metrics_target, Lookup, Resolved, not_resolved, raises,
  target, resolve_metrics_hostname,
}

-- what the HTTP library, or the deadline of the whole fetch, raises
pub data Exn : Type 0 where
  connect_error timeout_exception deadline : Exn
  http_status_error : ℕ → Exn
  other_exception : String → Exn

-- the body as it arrives
pub data Stream : Type 0 where
  end_of_body : Stream
  breaks : Exn → Stream
  chunk : Text → Stream → Stream

pub record Response : Type 0 where
  pub error_status : Option ℕ
  pub content_length : Option Text
  pub body : Stream

pub data Reply : Type 0 where
  no_reply : Exn → Reply
  reply : Response → Reply

-- `{"error": …}`
pub data FetchError : Type 0 where
  invalid_host blocked dns bad_response response_too_large unreachable timeout : FetchError
  http_status : ℕ → FetchError
  failed : String → FetchError

-- what `fetch_metrics` returns, or that it raises
pub data Fetched (M : Type 0) : Type 0 where
  metrics : M → Fetched M
  error : FetchError → Fetched M
  raised : Fetched M

-- the handlers at the end of `fetch_metrics`
unfoldable pub handle : Exn → FetchError
handle connect_error = unreachable
handle timeout_exception = timeout
handle deadline = timeout
handle (http_status_error n) = http_status n
handle (other_exception name) = failed name

unfoldable pub is_digit : ℕ → Bool
is_digit c = leb b'0' c && leb c b'9'

-- `int` of ASCII digits
unfoldable pub decimal_from : ℕ → Text → ℕ
decimal_from acc [] = acc
decimal_from acc (c ∷ s) = decimal_from (acc * 10 + (c - b'0')) s

unfoldable pub decimal : Text → ℕ
decimal s = decimal_from 0 s

-- Python's `int` raises `ValueError` on more digits
abbrev pub max_int_digits : ℕ
max_int_digits = 4300

-- the checks of the `Content-Length` header: the error, if any
unfoldable pub check_content_length : Option Text → Option FetchError
check_content_length none = none
check_content_length (some l) =
    if is_nil l || any (λ c. not (is_digit c)) l
    then some bad_response
    else if ltb max_int_digits (length l)
    then some (failed "ValueError")
    else if ltb metrics_max_response_bytes (decimal l)
    then some response_too_large
    else none

module _ {M : Type 0} (extract : Text → M) where
  -- the loop over the chunks, with `received` and the joined `chunks`
  unfoldable pub read_body : ℕ → Text → Stream → Fetched M
  read_body received read end_of_body = metrics (extract read)
  read_body received read (breaks e) = error (handle e)
  read_body received read (chunk bytes more) =
      let total = received + length bytes in
      let rest = read_body total (read ++ bytes) more in
      if ltb metrics_max_response_bytes total then error response_too_large else rest

  unfoldable pub fetch : Reply → Fetched M
  fetch (no_reply e) = error (handle e)
  fetch (reply r) = elim r.error_status [
    | some n ↦ error (handle (http_status_error n))
    | none ↦ elim (check_content_length r.content_length) [
      | some e ↦ error e
      | none ↦ read_body 0 [] r.body
    ]
  ]

  -- once the host is a name
  unfoldable pub fetch_resolved : Reply → Resolved → Option Text × Fetched M
  fetch_resolved r not_resolved = (none, error dns)
  fetch_resolved r raises = (none, raised)
  fetch_resolved r (target none) = (none, error blocked)
  fetch_resolved r (target (some a)) = (some a, fetch r)

  -- `fetch_metrics`: the address of the URL that was requested, if any, and what is returned
  unfoldable pub fetch_metrics :
      (Text → Option Ip) → Text → Lookup → Reply → Option Text × Fetched M
  fetch_metrics ip_address host found r =
      if not (is_valid_host_string host)
      then (none, error invalid_host)
      else elim (ip_address host) [
        | some ip ↦
            if is_allowed_metrics_target ip then (some host, fetch r) else (none, error blocked)
        | none ↦ fetch_resolved r (resolve_metrics_hostname ip_address found)
      ]
