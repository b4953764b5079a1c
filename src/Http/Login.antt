-- ===== src/Http/Login.antt =====
-- The routes `login` and `logout` of simple_network_dashboard/main.py. Reading and verifying the
-- password state, the clock and the new token come from outside. A call of `release_owner`
-- that raises, which the route only logs, leaves the SSH manager in a state from outside.
pub mod Answers
use simple_network_dashboard.Prelude.{
  ℕ, String, Bool, false, not, ◌&&◌, Option, none, some, if◌then◌else◌, string_eq, nat_eq, ◌==◌,
}
use simple_network_dashboard.Text.{Text, codes, span, strip}
use simple_network_dashboard.SignIn.Throttle.{retry_after, failure, success}
use simple_network_dashboard.SignIn.Store.{
  SessionFile, Published, Returned, value, raised, create, revoke,
}
use simple_network_dashboard.Ssh.Manager.{Manager}
use simple_network_dashboard.Http.Web.{Web, cancel_pending_release}
use simple_network_dashboard.Ssh.Owners.{release_owner}

-- what `ipaddress.ip_address` makes of a text: whether it is a loopback address, and how it is written
abbrev pub Parser : Type 0
Parser = Text → Option (Bool × String)

-- `forwarded.split(",", 1)[0].strip()`
unfoldable pub candidate : String → Text
candidate forwarded = strip (span (λ c. not (c == b',')) (codes forwarded)).0

-- `_effective_client_address`; no peer and no header are the empty text
unfoldable pub effective_client_address : Parser → String → String → String
effective_client_address ip_address peer forwarded =
    let plain = if peer == "" then "unknown" else peer in
    let trusted = elim (ip_address (codes peer)) as (λ x. Bool) [ none ↦ false | some a ↦ a.0 ] in
    let named = elim (ip_address (candidate forwarded)) as (λ x. String) [
      | none ↦ plain
      | some a ↦ a.1
    ] in
    if trusted && not (forwarded == "") then named else plain

-- how `verify_password` ends
pub data Verified : Type 0 where
  accepted rejected verify_raises : Verified

-- the readings of the clock: two of the first `retry_after`, four of `failure`, in milliseconds, and
-- that of `create`, in seconds
pub record Clock : Type 0 where
  pub checked : ℕ × ℕ
  pub failed_at : ℕ × ℕ × ℕ × ℕ
  pub created_at : ℕ

-- what comes from outside: the `session_generation` that `load_auth_state` reads, if it does not
-- raise; how the verification ends; whether the session file can be read and how its replacement
-- ends; the random token; and the clock
pub record Outside : Type 0 where
  pub generation : Option String
  pub verified : Verified
  pub readable : Bool
  pub ending : Published
  pub token : String
  pub clock : Clock

-- answer 429, 503, 401 or 200
pub data LoginAnswer : Type 0 where
  throttled : ℕ → LoginAnswer
  unavailable : LoginAnswer
  refused : ℕ → LoginAnswer
  signed_in : String → Bool → LoginAnswer

failed : Web → String → Clock → Web × LoginAnswer
failed w address k =
    let (t1, t2, t3, t4) = k.failed_at in
    let (throttle, wait) = failure w.throttle address t1 t2 t3 t4 in
    (record w { throttle = throttle }, refused wait)

-- from the creation of the session on
start_session : Web → String → Bool → SessionFile × Returned (String × ℕ) → Web × LoginAnswer
start_session w address remembered (file, raised) = (record w { file = file }, unavailable)
start_session w address remembered (file, value (token, expiry)) =
    (record w { file = file; throttle = success w.throttle address }, signed_in token remembered)

pub data LogoutAnswer : Type 0 where
  logout_unavailable signed_out : LogoutAnswer

-- the SSH manager after `release_owner` in `logout`
released : Manager → String → Option Manager → Manager
released m owner none = release_owner m owner
released m owner (some left) = left

module _ (digest : String → String) where
  -- once the address need not wait
  check_password : Web → String → Bool → Outside → Web × LoginAnswer
  check_password w address remembered o = elim o.generation [
    | none ↦ (w, unavailable)
    | some generation ↦ elim o.verified [
      | verify_raises ↦ (w, unavailable)
      | rejected ↦ failed w address o.clock
      | accepted ↦ start_session w address remembered (
          create digest w.file o.readable o.ending generation remembered o.token o.clock.created_at)
    ]
  ]

  -- `login` for a client of this address
  pub login : Web → String → Bool → Outside → Web × LoginAnswer
  login w address remembered o =
      let (throttle, wait) = retry_after w.throttle address o.clock.checked.0 o.clock.checked.1 in
      let w' = record w { throttle = throttle } in
      if not (wait == 0) then (w', throttled wait) else check_password w' address remembered o

  -- `left` is what `release_owner` leaves if it raises, and none if it does not
  end_session :
      Web → Option Manager → Option String → SessionFile × Returned Unit → Web × LogoutAnswer
  end_session w left token (file, raised) = (record w { file = file }, logout_unavailable)
  end_session w left none (file, value done) = (record w { file = file }, signed_out)
  end_session w left (some token) (file, value done) =
      let owner = digest token in
      let w1 = cancel_pending_release (record w { file = file }) owner in
      if token == ""
      then (record w { file = file }, signed_out)
      else (record w1 { ssh = released w1.ssh owner left }, signed_out)

  -- `logout`
  pub logout : Web → Bool → Published → Option Manager → Option String → Web × LogoutAnswer
  logout w readable ending left token =
      end_session w left token (revoke digest w.file readable ending token)
