-- ===== src/Http/Presence.antt =====
-- How the WebSocket route of simple_network_dashboard/main.py follows the coming and going of an
-- owner's browsers: `ws_endpoint` at its start and end, and `_release_after_grace`.
-- `owner_socket_changed` only wakes waiting threads.
pub mod Grace
use simple_network_dashboard.Prelude.{
  ℕ, String, not, some, [], ◌∷◌, ◌++◌, if◌then◌else◌, any, string_eq, nat_eq, ◌==◌,
}
use simple_network_dashboard.Sockets.{connect, drop_socket, owner_count}
use simple_network_dashboard.Ssh.Owners.{release_owner}
use simple_network_dashboard.Http.Web.{Web, cancel_pending_release}

-- the start of `ws_endpoint`, once the request is valid
unfoldable pub socket_opened : Web → ℕ → String → String → Web
socket_opened w ws owner socket_id =
    cancel_pending_release (record w { sockets = connect w.sockets ws (some owner) socket_id })
      owner

-- its end
unfoldable pub socket_closed : Web → ℕ → String → Web
socket_closed w ws owner =
    let w1 = record w { sockets = drop_socket w.sockets ws } in
    let w2 = cancel_pending_release w1 owner in
    if owner_count w1.sockets owner == 0
    then record w2 { releases = w2.releases ++ owner ∷ [] }
    else w1

-- `_release_after_grace` once it has slept; a task that was cancelled does not get here
unfoldable pub grace_over : Web → String → Web
grace_over w owner =
    let w1 = cancel_pending_release w owner in
    if not (any (λ o. o == owner) w.releases)
    then w
    else if owner_count w1.sockets owner == 0
    then record w1 { ssh = release_owner w1.ssh owner }
    else w1
