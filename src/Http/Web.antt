-- ===== src/Http/Web.antt =====
-- The state that the routes for signing in and the WebSocket of simple_network_dashboard/main.py
-- share.
-- `_login_throttle`, the file of `_session_store`, `ws_mgr`, `ssh_mgr` and the owners in
-- `_pending_releases`, whose tasks sleep
use simple_network_dashboard.Prelude.{String, not, List, keep_if, string_eq, nat_eq, ◌==◌}
use simple_network_dashboard.SignIn.Throttle.{Throttle}
use simple_network_dashboard.SignIn.Store.{SessionFile}
use simple_network_dashboard.Sockets.{Sockets}
use simple_network_dashboard.Ssh.Manager.{Manager}

pub record Web : Type 0 where
  pub throttle : Throttle
  pub file : SessionFile
  pub sockets : Sockets
  pub ssh : Manager
  pub releases : List String

-- `_cancel_pending_release`
unfoldable pub cancel_pending_release : Web → String → Web
cancel_pending_release w owner = record w { releases = keep_if (λ o. not (o == owner)) w.releases }
