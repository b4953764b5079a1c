-- ===== src/Ssh/Owners.antt =====
-- What simple_network_dashboard/ssh_manager.py and terminal_control.py do for one signed-in owner:
-- release of all that it holds, and the snapshots for a reconnecting page.
pub mod Release
use simple_network_dashboard.Prelude.{
  ℕ, String, false, ◌&&◌, Option, none, some, List, [], ◌∷◌, ◌++◌, map, ltb, if◌then◌else◌, keep_if,
  ◌==◌, nat_eq, string_eq, Dict,
}
use simple_network_dashboard.Config.{term_init_history_max_chars}
use simple_network_dashboard.Terminal.History.{History, Snapshot, snapshot}
use simple_network_dashboard.Terminal.History.Budget.{trim_to_budget}
use simple_network_dashboard.Ssh.Session.{Session}
use simple_network_dashboard.Ssh.Manager.{Pending, Manager, write_session, owner_pop, clear_pending}
use simple_network_dashboard.Ssh.Close.{close}
use simple_network_dashboard.Ssh.Commands.{is_connected}

-- the loops of `release_owner`
unfoldable pub release_each : Manager → String → Dict String ℕ → Manager
release_each m owner [] = m
release_each m owner ((did, g) ∷ rest) =
    let m' = if (m.heap g).owner == owner then close m did (some g) else m in
    release_each m' owner rest

unfoldable pub forget_each : Manager → String → Dict String Pending → Manager
unfolding clear_pending
forget_each m owner [] = m
forget_each m owner ((did, p) ∷ rest) =
    let m' = if p.owner == owner then clear_pending m did else m in forget_each m' owner rest

-- `release_owner`
unfoldable pub release_owner : Manager → String → Manager
unfolding release_each forget_each owner_pop
release_owner m owner =
    let m1 = release_each m owner m.sessions in owner_pop (forget_each m1 owner m1.pending) owner

-- `locked_device_ids`
unfoldable pub locked_device_ids : Manager → List String
unfolding is_connected
locked_device_ids m =
    map (λ (e : String × ℕ). e.0)
      (keep_if (λ (e : String × ℕ). is_connected (m.heap e.1).state) m.sessions)

-- `owner_ssh_snapshot`
unfoldable pub owner_ssh_snapshot : Manager → String → List String × List String
unfolding is_connected
owner_ssh_snapshot m owner =
    let mine =
      keep_if (λ (e : String × ℕ). (m.heap e.1).owner == owner && is_connected (m.heap e.1).state)
        m.sessions in
    (
      map (λ (e : String × ℕ). e.0) mine,
      map (λ (e : String × ℕ). e.0) (keep_if (λ (e : String × ℕ). (m.heap e.1).busy) mine),
    )

-- an entry of `owner_terminal_snapshot`
pub record TerminalEntry : Type 0 where
  pub device_id : String
  pub run_id : Option String
  pub size : Option (ℕ × ℕ)
  pub label : Option String
  pub snapshot : Snapshot

-- the end of the loop body: what was sent counts as acknowledged
unfoldable pub caught_up : Session → ℕ → Session
caught_up s now =
    if ltb s.acked_seq s.sent_seq
    then record s {
      acked_seq = s.sent_seq;
      ack_progress_at = now;
      ack_stalled = false;
      sent_bytes = [];
    }
    else s

-- the loop body of `owner_terminal_snapshot`
unfoldable pub snapshot_one :
    Manager → String → ℕ → String → ℕ → Option History → Manager × List TerminalEntry
unfolding write_session caught_up is_connected
snapshot_one m owner now did g none = (m, [])
snapshot_one m owner now did g (some h) =
    let s = m.heap g in
    let entry : TerminalEntry = record {
      device_id = did;
      run_id = s.run_id;
      size = s.size;
      label = s.label;
      snapshot = snapshot h;
    } in
    if s.owner == owner && is_connected s.state && s.busy
    then (write_session m g (caught_up s now), entry ∷ [])
    else (m, [])

unfoldable pub snapshot_each : Manager → String → ℕ → Dict String ℕ → Manager × List TerminalEntry
unfolding snapshot_one
snapshot_each m owner now [] = (m, [])
snapshot_each m owner now ((did, g) ∷ rest) =
    let (m1, found) = snapshot_one m owner now did g (m.heap g).history in
    let (m2, more) = snapshot_each m1 owner now rest in (m2, found ++ more)

-- each entry with its trimmed history
with_snapshots : List TerminalEntry → List Snapshot → List TerminalEntry
with_snapshots (e ∷ es) (s ∷ ss) = record e { snapshot = s } ∷ with_snapshots es ss
with_snapshots [] ss = []
with_snapshots (e ∷ es) [] = e ∷ es

-- `owner_terminal_snapshot`
unfoldable pub owner_terminal_snapshot : Manager → String → ℕ → Manager × List TerminalEntry
unfolding snapshot_each with_snapshots
owner_terminal_snapshot m owner now =
    let (m', entries) = snapshot_each m owner now m.sessions in
    (
      m',
      with_snapshots entries (
          trim_to_budget (map (λ (e : TerminalEntry). e.snapshot) entries)
            term_init_history_max_chars),
    )
