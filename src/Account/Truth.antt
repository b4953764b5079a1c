-- ===== src/Account/Truth.antt =====
-- What the command for passwords in simple_network_dashboard/auth.py says of the state it leaves, and
-- that a password that was set is accepted.
use simple_network_dashboard.Prelude.{
  lookup, ◌≤◌, ◌≡◌, sym, ap, ◌∙◌, ◌⊎◌, inl, inr, Bool, true, false, ◌&&◌, Option, some, arith, leb,
  Bool-cases, >>=-eq-some, length, string_eq, nat_eq,
}
use simple_network_dashboard.Text.{Text, text_eq}
use simple_network_dashboard.Http.Login.{accepted}
use simple_network_dashboard.Account.{
  AuthState, is_auth_hash, is_session_generation, is_version, as_text, has_shape, validate_hash,
  validate_generation, read_fields, validate_auth_state,
}
use simple_network_dashboard.Account.Password.{
  min_password_length, max_password_length, matches, Hasher, normalize_password,
  prompt_for_password, create_auth_state, verdict, verify_password, document,
}
use simple_network_dashboard.Account.Reset.{
  Host, Publication, done, failed_with, broken_off, Outcome, reset_done, not_stopped, kept_stopped,
  changed_unsynced, start_unconfirmed, inconclusive, load_auth_state,
}

module _ (parameters_fit : Text → Bool) where
  -- a state that is written and can be read back
  pub record IsReplaced (made : Option AuthState) (h : Host) : Type 0 where
    pub fresh : AuthState
    pub is_made : made ≡ some fresh
    pub written : h.state ≡ some (document fresh)
    pub readable : load_auth_state parameters_fit h.state ≡ some fresh

  -- how a publication leaves the file
  pub IsPublished : Host → AuthState → Host × Publication → Type 0
  IsPublished h s (h', done) = IsReplaced (some s) h' × (h'.running ≡ h.running)
  IsPublished h s (h', failed_with true) = IsReplaced (some s) h' × (h'.running ≡ h.running)
  IsPublished h s (h', failed_with false) = (h'.state ≡ h.state) × (h'.running ≡ h.running)
  IsPublished h s (h', broken_off) = (h'.state ≡ h.state) ⊎ IsReplaced (some s) h'

  -- what each outcome of a reset says
  pub IsReset : Host → Option AuthState → Host × Outcome → Type 0
  IsReset h made (h', reset_done) = IsReplaced made h' × (h'.running ≡ true)
  IsReset h made (h', start_unconfirmed) = IsReplaced made h'
  IsReset h made (h', changed_unsynced) = IsReplaced made h' × (h'.running ≡ false)
  IsReset h made (h', kept_stopped) = (h'.state ≡ h.state) × (h'.running ≡ false)
  IsReset h made (h', not_stopped) = h'.state ≡ h.state
  IsReset h made (h', inconclusive) = (h'.state ≡ h.state) ⊎ IsReplaced made h'
  IsReset h made (h', _) = h' ≡ h

-- a state of the right shape can be read back
document_valid :
    (parameters_fit : Text → Bool) (s : AuthState)
    → is_auth_hash s.password_hash ≡ true
    → parameters_fit s.password_hash ≡ true
    → is_session_generation s.session_generation ≡ true
    → validate_auth_state parameters_fit (document s) ≡ some s
unfolding validate_auth_state read_fields document lookup as_text validate_hash validate_generation
    has_shape is_version
document_valid parameters_fit s shape fits random = ground (arith, shape, fits, random)

-- `NFC` changes nothing a second time, and the library accepts a text against its own hash
module _ (nfc : Text → Text) (nfc_twice : (t : Text) → nfc (nfc t) ≡ nfc t) (h : Hasher)
    (hash_matches : (t : Text) → h.verify (h.hash t) t ≡ matches) where
  normalize_lem :
      (t : Text) {p : Text}
      → normalize_password nfc t ≡ some p
      → (p ≡ nfc t) × (min_password_length ≤ length p) × (length p ≤ max_password_length)
  unfolding normalize_password
  normalize_lem t {p} e =
      let in_range =
        leb min_password_length (length (nfc t)) && leb (length (nfc t)) max_password_length in
      elim (Bool-cases in_range) [
        | inl y ↦
            let same : nfc t ≡ p = ground (arith, y, e) in
            (sym same, rw (← same) (ground (arith, y)), rw (← same) (ground (arith, y)))
        | inr n ↦ absurd (ground (arith, n, e))
      ]

  -- what `create_auth_state` makes can be read back
  created_read :
      (generation : Text) {p : Text} {s : AuthState}
      → create_auth_state nfc h generation p ≡ some s
      → is_auth_hash (h.hash (nfc p)) ≡ true
      → h.parameters_fit (h.hash (nfc p)) ≡ true
      → is_session_generation generation ≡ true
      → (s.password_hash ≡ h.hash (nfc p))
        × (validate_auth_state h.parameters_fit (document s) ≡ some s)
  unfolding create_auth_state
  created_read generation {p} {s} created shape fits random =
      let (m, normal, built) = >>=-eq-some (normalize_password nfc p) _ created in
      let is_m : m ≡ nfc p = (normalize_lem p normal).0 in
      let hash : s.password_hash ≡ h.hash (nfc p) = ground (arith, built, is_m) in
      let gen : s.session_generation ≡ generation = ground (arith, built) in
      (hash, document_valid h.parameters_fit s (rw hash shape) (rw hash fits) (rw gen random))

  -- A password that the prompt takes has from 15 to 128 characters once it is normalised, and what
  -- was typed is accepted against the document of the state that is made of it, if normalising
  -- twice is normalising once, the library accepts a text against its own hash, and the hash and
  -- the random generation have the form that is checked when the state is read.
  pub verify_password-prompted :
      (entered : Text) (second : Option Text) (generation : Text) {p : Text} {s : AuthState}
      → prompt_for_password nfc (some entered) second ≡ some p
      → create_auth_state nfc h generation p ≡ some s
      → is_auth_hash (h.hash p) ≡ true
      → h.parameters_fit (h.hash p) ≡ true
      → is_session_generation generation ≡ true
      → (verify_password nfc h (document s) entered ≡ accepted)
        × (min_password_length ≤ length p)
        × (length p ≤ max_password_length)
  unfolding prompt_for_password verify_password verdict
  verify_password-prompted entered second generation {p} {s} prompted created shape fits random =
      let (n, first, more) = >>=-eq-some (normalize_password nfc entered) _ prompted in
      let (c, confirmed, same) = >>=-eq-some second _ more in
      let is_n : n ≡ p = ground (arith, same) in
      let first' : normalize_password nfc entered ≡ some p = first ∙ ap some is_n in
      let (made, low, high) = normalize_lem entered first' in
      let again : nfc p ≡ p = ap nfc made ∙ nfc_twice entered ∙ sym made in
      let (hash, valid) = created_read generation created (rw again shape) (rw again fits) random in
      let digest : s.password_hash ≡ h.hash p = hash ∙ ap h.hash again in
      (
        rw (valid, verify_password)
            (rw (first', verify_password) (rw digest (rw (hash_matches p)))),
        low,
        high,
      )
