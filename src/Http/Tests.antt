-- ===== src/Http/Tests.antt =====
-- Runs of the middleware, of sign-in and of the WebSocket route of simple_network_dashboard/main.py,
-- and their theorems at concrete inputs.
use simple_network_dashboard.Prelude.{
  lookup, insert, remove, String, ◌≡◌, refl, true, false, none, some, List, [], ◌∷◌, All, string_eq,
  nat_eq, Dict,
}
use simple_network_dashboard.Text.{codes, starts_with}
use simple_network_dashboard.SignIn.Store.{
  Stored, replaced, is_good, purge, changed, validate_in, validate,
}
use simple_network_dashboard.SignIn.Store.Validity.{IsUnique}
use simple_network_dashboard.Sockets.{new_sockets, connect, drop_socket, owner_count}
use simple_network_dashboard.Ssh.Manager.{new_manager}
use simple_network_dashboard.Http.{
  Request, Check, is_public_path, is_unsafe, is_ascii, compare_tokens, csrf_is_valid, csrf_failed,
  handled, is_true, lacks_cookie, needs_csrf_cookie, check_csrf, drain_body, within_limit,
  session_token_is_valid, protect_http_requests, receive,
}
use simple_network_dashboard.Http.Gate.{IsAdmitted, receive-IsAdmitted}
use simple_network_dashboard.Http.Web.{Web, cancel_pending_release}
use simple_network_dashboard.Http.Login.{accepted, Outside, login, logout}
use simple_network_dashboard.Http.Login.Answers.{
  IsAnswered, login-IsAnswered, IsSignedOut, logout-IsSignedOut,
}
use simple_network_dashboard.Http.Presence.{socket_opened, socket_closed, grace_over}
use simple_network_dashboard.Http.Presence.Grace.{
  Event, opened, closed, grace, happen, happen_all, Waits, IsTidy, IsReleased,
  grace_over-IsReleased, Stays, grace_over-socket_opened,
}

abbrev digest : String → String
digest s = s

abbrev one_session : Dict String Stored
one_session = ("t1", record { generation = "g1"; expires_at = 500 }) ∷ []

one_session-IsUnique : IsUnique one_session
unfolding lookup
one_session-IsUnique = (refl, tt)

abbrev check : Check
check = record { generation = some "g1"; readable = true; ending = replaced; now = 400 }

abbrev deletion : Request
deletion = record {
  path = "/api/devices/dev_1";
  method = "DELETE";
  session_cookie = some "t1";
  csrf_cookie = some "c";
  csrf_header = some "c";
  declared_length = none;
  stream = codes "ab" ∷ codes "c" ∷ [];
}

deletion-handled : (receive digest (some one_session) check deletion).1 ≡ handled false
unfolding receive protect_http_requests session_token_is_valid is_true check_csrf csrf_is_valid
    compare_tokens is_ascii is_unsafe needs_csrf_cookie is_public_path lacks_cookie within_limit
    drain_body validate validate_in purge changed is_good lookup starts_with
deletion-handled = refl

forged_refused :
    (receive digest (some one_session) check (record deletion { csrf_header = some "d" })).1
    ≡ csrf_failed
unfolding receive protect_http_requests session_token_is_valid is_true check_csrf csrf_is_valid
    compare_tokens is_ascii is_unsafe needs_csrf_cookie is_public_path lacks_cookie within_limit
    drain_body validate validate_in purge changed is_good lookup starts_with
forged_refused = refl

receive-IsAdmitted_example : IsAdmitted digest (some one_session) check deletion
receive-IsAdmitted_example =
    receive-IsAdmitted digest (some one_session) check deletion false one_session-IsUnique
      deletion-handled

abbrev web : Web
web = record {
  throttle = [];
  file = some one_session;
  sockets = new_sockets;
  ssh = new_manager;
  releases = [];
}

abbrev outside : Outside
outside = record {
  generation = some "g1";
  verified = accepted;
  readable = true;
  ending = replaced;
  token = "t2";
  clock = record { checked = (1000, 1000); failed_at = (1000, 1000, 1000, 1000); created_at = 1 };
}

login-IsAnswered_example :
    IsAnswered digest web "192.0.2.7" true outside (login digest web "192.0.2.7" true outside)
login-IsAnswered_example = login-IsAnswered digest web "192.0.2.7" true outside

logout-IsSignedOut_example :
    IsSignedOut digest web none "t1" (logout digest web true replaced none (some "t1"))
logout-IsSignedOut_example = logout-IsSignedOut digest web true replaced none "t1" refl

abbrev comes_and_goes : List Event
comes_and_goes = opened 1 "o" "s" ∷ closed 1 "o" ∷ []

web-IsTidy : IsTidy web
unfolding IsTidy
web-IsTidy = λ owner h. cc

o-Waits : Waits (happen_all web comes_and_goes) "o"
unfolding happen_all happen socket_opened socket_closed connect drop_socket owner_count insert
    remove cancel_pending_release new_sockets
o-Waits = refl

grace_over-IsReleased_example : IsReleased (happen_all web comes_and_goes) "o"
grace_over-IsReleased_example = grace_over-IsReleased web comes_and_goes "o" web-IsTidy o-Waits

o-Stays : All (Stays "o") (opened 2 "p" "t" ∷ grace "o" ∷ closed 2 "p" ∷ [])
unfolding Stays
o-Stays = (tt, (tt, (refl, tt)))

grace_over-socket_opened_example :
    grace_over
      (happen_all (socket_opened web 1 "o" "s") (opened 2 "p" "t" ∷ grace "o" ∷ closed 2 "p" ∷ []))
      "o"
    ≡ happen_all (socket_opened web 1 "o" "s") (opened 2 "p" "t" ∷ grace "o" ∷ closed 2 "p" ∷ [])
grace_over-socket_opened_example =
    grace_over-socket_opened web 1 "o" "s" (opened 2 "p" "t" ∷ grace "o" ∷ closed 2 "p" ∷ [])
      o-Stays
