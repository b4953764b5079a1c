-- ===== src/Account/Reset.antt =====
-- `publish_auth_state`, `_initialize` and `_reset` of simple_network_dashboard/auth.py. Which step
-- fails comes from outside, as do the answers of `systemctl`, and where Ctrl+C interrupts the command.
use simple_network_dashboard.Prelude.{
  Bool, true, false, not, ◌&&◌, ◌||◌, Option, none, some, if◌then◌else◌, is_none, string_eq, nat_eq,
}
use simple_network_dashboard.Text.{Text}
use simple_network_dashboard.Account.{Document, AuthState, validate_auth_state}
use simple_network_dashboard.Account.Password.{document}

-- the first step of `publish_auth_state` that fails, or where it is interrupted: before or after the
-- staged copy has replaced the file, with or without a staged copy left
pub data Fault : Type 0 where
  no_fault unsafe_directory stage_fails write_fails replace_fails sync_fails : Fault
  interrupted_before interrupted_after : Bool → Fault

-- the file of the state, as a reader finds it, whether a staged copy lies beside it, and whether the
-- service runs
pub record Host : Type 0 where
  pub state : Option Document
  pub staged : Bool
  pub running : Bool

-- how publication ends: it returns, or raises with `published`
pub data Publication : Type 0 where
  done : Publication
  failed_with : Bool → Publication
  -- an interrupt, which `except Exception` does not catch
  broken_off : Publication

-- how `systemctl stop` ends: the service is stopped, it reports an error, or it could not be run or was
-- interrupted; in the last two cases the service runs afterwards or not
pub data Stop : Type 0 where
  halted : Stop
  refuses raises_at_stop : Bool → Stop

-- how `systemctl start` and `systemctl is-active` end: what they report, or one of them could not be
-- run or was interrupted, and the service runs afterwards or not
pub data Start : Type 0 where
  reports : Bool → Bool → Start
  raises_at_start : Bool → Start

-- what the command prints, or that it exits with an error
pub data Outcome : Type 0 where
  preserved initialized reset_done : Outcome
  not_root bad_state no_password no_owner not_stopped : Outcome
  not_published published_unsynced kept_stopped changed_unsynced start_unconfirmed : Outcome
  -- an exception or an interrupt that tells nothing of the state
  inconclusive : Outcome

-- after a fault that leaves a staged copy; `unlinks` is whether it can be removed
unfoldable pub unstage : Host → Bool → Host
unstage h unlinks = record h { staged = not unlinks || h.staged }

module _ (parameters_fit : Text → Bool) where
  -- `publish_auth_state`
  unfoldable pub publish_auth_state : Host → Document → Fault → Bool → Host × Publication
  publish_auth_state h d unsafe_directory unlinks = (h, failed_with false)
  publish_auth_state h d fault unlinks =
      if is_none (validate_auth_state parameters_fit d)
      then (h, failed_with false)
      else elim fault [
        | stage_fails ↦ (h, failed_with false)
        | write_fails ↦ (unstage h unlinks, failed_with false)
        | replace_fails ↦ (unstage h unlinks, failed_with false)
        | sync_fails ↦ (record h { state = some d }, failed_with true)
        | interrupted_before left ↦ (record h { staged = left || h.staged }, broken_off)
        | interrupted_after left ↦
            (record h { state = some d; staged = left || h.staged }, broken_off)
        | _ ↦ (record h { state = some d }, done)
      ]

  -- `load_auth_state`
  unfoldable pub load_auth_state : Option Document → Option AuthState
  load_auth_state none = none
  load_auth_state (some d) = validate_auth_state parameters_fit d

  -- what `_initialize` makes of a publication
  unfoldable pub initialized_by : Host × Publication → Host × Outcome
  initialized_by (h, done) = (h, initialized)
  initialized_by (h, failed_with false) = (h, not_published)
  initialized_by (h, failed_with true) = (h, published_unsynced)
  initialized_by (h, broken_off) = (h, inconclusive)

  -- `_initialize`, with the state that was made of the password entered, and whether the owner of the
  -- service is known
  unfoldable pub initialize : Host → Option AuthState → Bool → Fault → Bool → Host × Outcome
  initialize h made has_owner fault unlinks =
      let published = elim made as (λ x. Host × Outcome) [
        | none ↦ (h, no_password)
        | some s ↦
            if not has_owner
            then (h, no_owner)
            else initialized_by (publish_auth_state h (document s) fault unlinks)
      ] in
      if is_none h.state
      then published
      else if is_none (load_auth_state h.state)
      then (h, bad_state)
      else (h, preserved)

  -- `_reset` from the stopped service on
  unfoldable pub restart : Host × Publication → Start → Host × Outcome
  restart (h, failed_with false) start = (h, kept_stopped)
  restart (h, failed_with true) start = (h, changed_unsynced)
  restart (h, broken_off) start = (h, inconclusive)
  restart (h, done) (reports started active) =
      (record h { running = active }, if started && active then reset_done else start_unconfirmed)
  restart (h, done) (raises_at_start runs) = (record h { running = runs }, inconclusive)

  -- `_reset` from `systemctl stop` on, with the state that was made of the password
  unfoldable pub replace_state : Host → AuthState → Stop → Fault → Bool → Start → Host × Outcome
  replace_state h s halted fault unlinks start =
      restart (publish_auth_state (record h { running = false }) (document s) fault unlinks) start
  replace_state h s (refuses runs) fault unlinks start = (record h { running = runs }, not_stopped)
  replace_state h s (raises_at_stop runs) fault unlinks start =
      (record h { running = runs }, inconclusive)

  -- `_reset`
  unfoldable pub reset :
      Host → Bool → Option AuthState → Bool → Stop → Fault → Bool → Start → Host × Outcome
  reset h root made has_owner halt fault unlinks start =
      if not root
      then (h, not_root)
      else if is_none (load_auth_state h.state)
      then (h, bad_state)
      else elim made [
        | none ↦ (h, no_password)
        | some s ↦
            if not has_owner then (h, no_owner) else replace_state h s halt fault unlinks start
      ]
