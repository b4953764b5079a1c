-- ===== src/SignIn/Store/Created.antt =====
-- What `SessionStore.create` of simple_network_dashboard/session_manager.py leaves on file.
use simple_network_dashboard.Prelude.{
  lookup, remove, ℕ, ◌+◌, String, ◌≡◌, refl, ◌∙◌, Bool, true, false, not, none, some, arith,
  if◌then◌else◌, if_elim, is_none, string_eq, nat_eq, ◌==◌, Dict, lookup-insert, lookup-remove,
  ==_refl,
}
use simple_network_dashboard.SignIn.Store.{
  Stored, SessionFile, Published, replaced, not_replaced, replaced_unsynced, Returned, value,
  raised, session_only_seconds, remembered_seconds, sessions_of, publish, create, revoke_in, revoke,
}
use simple_network_dashboard.SignIn.Store.Validity.{IsSignedIn}

module _ (digest : String → String) where
  -- a session that was created is on file, and not over yet
  unfoldable pub Creates : ℕ → String → String → SessionFile × Returned (String × ℕ) → Type 0
  Creates now generation token (file, value (t, e)) =
      (t ≡ token) × IsSignedIn digest file (some t) generation now
  Creates now generation token (file, raised) = Unit

  pub create-Creates :
      (file : SessionFile) (readable : Bool) (ending : Published) (generation : String)
      (remembered : Bool) (token : String) (now : ℕ)
      → Creates now generation token
          (create digest file readable ending generation remembered token now)
  unfolding create publish Creates
  create-Creates file false ending generation remembered token now = tt
  create-Creates file true not_replaced generation remembered token now = tt
  create-Creates file true replaced_unsynced generation remembered token now = tt
  create-Creates file true replaced generation remembered token now =
      let r : Stored = record {
        generation = generation;
        expires_at = now + (if remembered then remembered_seconds else session_only_seconds);
      } in
      (
        refl,
        record {
          name = token;
          stored = r;
          is_token = refl;
          on_file =
              lookup-insert (digest token) (digest token) r (sessions_of file)
              ∙ rw (==_refl (digest token)) refl;
          same_generation = refl;
          not_expired = ground arith;
        },
      )

  -- a token that `revoke` was done with has no record left
  unfoldable pub Revokes : String → SessionFile × Returned Unit → Type 0
  Revokes token (file, value done) = lookup (digest token) (sessions_of file) ≡ none
  Revokes token (file, raised) = Unit

  revoke_in-Revokes :
      (sessions : Dict String Stored) (ending : Published) (token : String)
      → Revokes token (revoke_in digest sessions ending token)
  unfolding revoke_in publish
  revoke_in-Revokes sessions ending token =
      if_elim (Revokes token) (is_none (lookup (digest token) sessions)) _ _
        (λ t. unfold Revokes in ground (arith, t)) (λ t. removed ending)
    where
      removed :
          (ending : Published)
          → Revokes token (publish ending (some sessions) (remove (digest token) sessions) tt)
      removed replaced =
          unfold Revokes publish in
          lookup-remove (digest token) (digest token) sessions ∙ rw (==_refl (digest token)) refl
      removed not_replaced = unfold Revokes publish in tt
      removed replaced_unsynced = unfold Revokes publish in tt

  pub revoke-Revokes :
      (file : SessionFile) (readable : Bool) (ending : Published) (token : String)
      → (token == "") ≡ false
      → Revokes token (revoke digest file readable ending (some token))
  unfolding revoke
  revoke-Revokes none readable ending token n = unfold Revokes lookup in refl
  revoke-Revokes (some sessions) readable ending token n = rw n (
      if_elim (Revokes token) (not readable) _ _ (λ _. unfold Revokes in tt)
        (λ _. revoke_in-Revokes sessions ending token))
