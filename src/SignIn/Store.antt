-- ===== src/SignIn/Store.antt =====
-- `SessionStore` of simple_network_dashboard/session_manager.py. The digest of a token (SHA-256)
-- comes from the standard library and is a parameter; times are whole seconds. Whether the file
-- can be read and holds a valid state, and how its replacement ends, come from outside.
pub mod Validity
pub mod Created
mod Tests
use simple_network_dashboard.Prelude.{
  lookup, insert, remove, ℕ, ◌+◌, ◌*◌, String, Bool, false, not, ◌&&◌, Option, none, some, [], ltb,
  if◌then◌else◌, is_none, any, keep_if, string_eq, nat_eq, ◌==◌, Dict,
}

-- a stored record
pub record Stored : Type 0 where
  pub generation : String
  pub expires_at : ℕ

-- the sessions of the file, or none if there is no file
abbrev pub SessionFile : Type 0
SessionFile = Option (Dict String Stored)

-- how `_publish` ends: the file is replaced, or it is not, or it is but the directory cannot be
-- synchronised, which also raises
pub data Published : Type 0 where
  replaced not_replaced replaced_unsynced : Published

-- a value, or an exception
pub data Returned (A : Type 0) : Type 0 where
  value : A → Returned A
  raised : Returned A

abbrev pub session_only_seconds : ℕ
session_only_seconds = 24 * 60 * 60

abbrev pub remembered_seconds : ℕ
remembered_seconds = 30 * 24 * 60 * 60

-- `_load` of a file that can be read
abbrev pub sessions_of : SessionFile → Dict String Stored
sessions_of none = []
sessions_of (some sessions) = sessions

-- what a call returns once `_publish` has ended so
publish : {A : Type 0} → Published → SessionFile → Dict String Stored → A → SessionFile × Returned A
publish replaced file sessions v = (some sessions, value v)
publish not_replaced file sessions v = (file, raised)
publish replaced_unsynced file sessions v = (some sessions, raised)

-- `value["expires_at"] <= now or value["generation"] != generation`, negated
unfoldable pub is_good : ℕ → String → Stored → Bool
is_good now generation r = ltb now r.expires_at && r.generation == generation

-- the loop of `validate` that deletes what is over
unfoldable pub purge : ℕ → String → Dict String Stored → Dict String Stored
unfolding is_good
purge now generation sessions =
    keep_if (λ (e : String × Stored). is_good now generation e.1) sessions

-- whether the loop has deleted anything
unfoldable pub changed : ℕ → String → Dict String Stored → Bool
unfolding is_good
changed now generation sessions =
    any (λ (e : String × Stored). not (is_good now generation e.1)) sessions

module _ (digest : String → String) where
  -- `create` with a new random token
  pub create :
      SessionFile
      → Bool
      → Published
      → String
      → Bool
      → String
      → ℕ
      → SessionFile × Returned (String × ℕ)
  unfolding publish
  create file readable ending generation remembered token now =
      let expires_at = now + (if remembered then remembered_seconds else session_only_seconds) in
      let r : Stored = record { generation = generation; expires_at = expires_at } in
      if readable
      then publish ending file (insert (digest token) r (sessions_of file)) (token, expires_at)
      else (file, raised)

  unfoldable pub validate_in : Dict String Stored → String → String → ℕ → Bool
  unfolding purge
  validate_in sessions token generation now =
      not (is_none (lookup (digest token) sessions))
      && not (is_none (lookup (digest token) (purge now generation sessions)))

  -- `validate`; a token that is none or empty is refused at once
  unfoldable pub validate :
      SessionFile → Bool → Published → Option String → String → ℕ → SessionFile × Returned Bool
  unfolding publish purge changed validate_in
  validate file readable ending none generation now = (file, value false)
  validate file readable ending (some token) generation now =
      let sessions = sessions_of file in
      let valid = validate_in sessions token generation now in
      if token == ""
      then (file, value false)
      else if not readable
      then (file, raised)
      else if changed now generation sessions
      then publish ending file (purge now generation sessions) valid
      else (file, value valid)

  revoke_in : Dict String Stored → Published → String → SessionFile × Returned Unit
  unfolding publish
  revoke_in sessions ending token =
      if is_none (lookup (digest token) sessions)
      then (some sessions, value tt)
      else publish ending (some sessions) (remove (digest token) sessions) tt

  -- `revoke`
  pub revoke : SessionFile → Bool → Published → Option String → SessionFile × Returned Unit
  unfolding revoke_in
  revoke file readable ending none = (file, value tt)
  revoke none readable ending (some token) = (none, value tt)
  revoke (some sessions) readable ending (some token) =
      if token == ""
      then (some sessions, value tt)
      else if not readable
      then (some sessions, raised)
      else revoke_in sessions ending token
