-- ===== src/Ssh/HostKeys.antt =====
-- The host-key prompts of simple_network_dashboard/ssh_manager.py. What the known-hosts file makes
-- of an approval comes from outside.
pub mod Prompts
use simple_network_dashboard.Prelude.{
  lookup, ℕ, ◌-◌, String, Bool, true, false, not, ◌&&◌, Option, none, some, [], ◌∷◌, ltb,
  if◌then◌else◌, string_eq, nat_eq, ◌==◌, Dict,
}
use simple_network_dashboard.Config.{host_key_pending_seconds}
use simple_network_dashboard.Ssh.Session.{SessionState, host_key_pending, Session}
use simple_network_dashboard.Ssh.Manager.{
  Key, Pending, key_approval_failed, key_declined, prompt_expired, save_host_key, Manager,
  do_effect, slot, session_in, log, clear_pending,
}
use simple_network_dashboard.Ssh.Close.{close}

-- `sess.state == "host_key_pending"`
unfoldable pub is_pending : SessionState → Bool
is_pending host_key_pending = true
is_pending _ = false

-- the session that the sweep closes with its prompt
unfoldable pub still_asked : Option Session → Pending → Bool
unfolding is_pending
still_asked none p = false
still_asked (some s) p = s.generation == p.generation && is_pending s.state

-- the conditions on the session in the slot and the prompt
unfoldable pub answers : Option Session → Pending → String → String → ℕ → Bool
unfolding is_pending
answers none p code owner now = false
answers (some s) p code owner now =
    s.generation == p.generation
    && is_pending s.state
    && p.owner == owner
    && p.code == code
    && not (ltb host_key_pending_seconds (now - p.created_at))

-- `_valid_host_key_pending`
unfoldable pub valid_host_key_pending : Manager → String → String → String → ℕ → Option Pending
unfolding answers session_in
valid_host_key_pending m did code owner now = elim (lookup did m.pending) [
  | none ↦ none
  | some p ↦ if answers (session_in m did) p code owner now then some p else none
]

-- how the update of the known-hosts file ends
pub data HostsUpdate : Type 0 where
  saved unreadable failed : HostsUpdate

pub data Answer : Type 0 where
  expired : Answer
  trusted : String → Key → Answer
  not_saved : Answer
  rejected : Answer

-- what `trust_host_key` does once it has taken the prompt; `bound` is the session that was in the slot
unfoldable pub finish_trust : Manager → String → Pending → Option ℕ → HostsUpdate → Manager × Answer
unfolding log do_effect
finish_trust m did p bound saved = (do_effect m (save_host_key p.host p.key), trusted p.host p.key)
finish_trust m did p bound update =
    (close (log m did key_approval_failed (some p.owner) none) did bound, not_saved)

-- `trust_host_key`, when no other thread comes between the section that takes the prompt and the
-- rest; a code is ASCII text, since `compare_digest` raises on any other and nothing changes
unfoldable pub trust_host_key :
    Manager → String → String → String → ℕ → HostsUpdate → Manager × Answer
unfolding clear_pending log do_effect
trust_host_key m did code owner now update = elim (valid_host_key_pending m did code owner now) [
  | none ↦ (m, expired)
  | some p ↦ finish_trust (clear_pending m did) did p (slot m did) update
]

-- `reject_host_key`
unfoldable pub reject_host_key : Manager → String → String → String → ℕ → Manager × Answer
unfolding clear_pending log
reject_host_key m did code owner now = elim (valid_host_key_pending m did code owner now) [
  | none ↦ (m, expired)
  | some p ↦
      let m1 = log (clear_pending m did) did key_declined (some p.owner) none in
      (close m1 did (slot m did), rejected)
]

-- `_sweep_expired_host_key_prompts`, one device
unfoldable pub sweep_one : Manager → String → ℕ → Manager
unfolding clear_pending log session_in still_asked
sweep_one m did now = elim (lookup did m.pending) [
  | none ↦ m
  | some p ↦
      let m1 = clear_pending m did in
      let told = log m1 did prompt_expired (some p.owner) none in
      if ltb (now - p.created_at) host_key_pending_seconds
      then m
      else if still_asked (session_in m did) p
      then close told did (slot m did)
      else m1
]

unfoldable pub sweep_each : Manager → Dict String Pending → ℕ → Manager
sweep_each m [] now = m
sweep_each m ((did, p) ∷ rest) now = sweep_each (sweep_one m did now) rest now

-- `_sweep_expired_host_key_prompts`
unfoldable pub sweep_expired_host_key_prompts : Manager → ℕ → Manager
unfolding sweep_each sweep_one
sweep_expired_host_key_prompts m now = sweep_each m m.pending now
