-- ===== src/SignIn/Store/Validity.antt =====
-- Which sessions are valid: the created ones, until they expire, are revoked, or the account's
-- generation changes.
use simple_network_dashboard.Prelude.{
  lookup, insert, remove, ℕ, ◌+◌, ◌<◌, String, ◌≡◌, refl, sym, ap, ◌∙◌, inl, inr, Bool, true, false,
  Option, none, some, [], ◌∷◌, arith, eq_iff, ltb, if◌then◌else◌, Bool-cases, Option-cases, if_elim,
  is_none, string_eq, nat_eq, ◌==◌, Dict, lookup-insert, lookup-remove, ==_refl,
}
use simple_network_dashboard.SignIn.Store.{
  Stored, SessionFile, Published, replaced, not_replaced, replaced_unsynced, Returned, value,
  session_only_seconds, remembered_seconds, sessions_of, publish, is_good, purge, changed, create,
  validate_in, validate, revoke_in, revoke,
}

-- a dictionary has each key once
abbrev pub IsUnique {ℓ} : {V : Type ℓ} → Dict String V → Type ℓ
IsUnique [] = Unit
IsUnique ((k, v) ∷ d) = (lookup k d ≡ none) × IsUnique d

lookup-insert-none {ℓ} :
    {V : Type ℓ} (j k : String) (v : V) (d : Dict String V)
    → (k == j) ≡ false
    → lookup j d ≡ none
    → lookup j (insert k v d) ≡ none
lookup-insert-none j k v d apart e = lookup-insert j k v d ∙ rw apart e

insert-IsUnique {ℓ} :
    {V : Type ℓ} (k : String) (v : V) (d : Dict String V) → IsUnique d → IsUnique (insert k v d)
unfolding insert lookup
insert-IsUnique k v [] u = (refl, tt)
insert-IsUnique k v ((j, w) ∷ d) u = elim (Bool-cases (j == k)) [
  | inl same ↦ rw same u
  | inr differ ↦
      let apart : (k == j) ≡ false = ground (arith, eq_iff j k, eq_iff k j) in
      rw differ (lookup-insert-none j k v d apart u.0, insert-IsUnique k v d u.1)
]

-- the record, if it is good
good : ℕ → String → Option Stored → Option Stored
good now generation none = none
good now generation (some r) = if is_good now generation r then some r else none

lookup-purge :
    (now : ℕ) (generation k : String) (d : Dict String Stored)
    → IsUnique d
    → lookup k (purge now generation d) ≡ good now generation (lookup k d)
unfolding purge lookup good
lookup-purge now generation k [] u = refl
lookup-purge now generation k ((j, r) ∷ d) u =
    ground (arith, eq_iff j k, u.0, lookup-purge now generation k d u.1)

remove-IsUnique {ℓ} :
    {V : Type ℓ} (k : String) (d : Dict String V) → IsUnique d → IsUnique (remove k d)
unfolding remove
remove-IsUnique k [] u = tt
remove-IsUnique {V = V} k ((j, w) ∷ d) u =
    if_elim (λ (x : Dict String V). IsUnique x) (j == k) _ _ (λ _. remove-IsUnique k d u.1)
      λ differ.
        let apart : (k == j) ≡ false = ground (arith, eq_iff j k, eq_iff k j) in
        (lookup-remove j k d ∙ rw apart u.0, remove-IsUnique k d u.1)

module _ (digest : String → String) where
  -- whether the file holds a record for the token that has not expired and is of this generation
  unfoldable pub is_valid : Dict String Stored → String → String → ℕ → Bool
  unfolding is_good
  is_valid sessions token generation now = elim (lookup (digest token) sessions) [
    | none ↦ false
    | some r ↦ is_good now generation r
  ]

  validate_in_lem :
      (sessions : Dict String Stored) (token generation : String) (now : ℕ)
      → IsUnique sessions
      → validate_in digest sessions token generation now ≡ is_valid sessions token generation now
  unfolding validate_in is_valid
  validate_in_lem sessions token generation now u =
      let e = lookup-purge now generation (digest token) sessions u in
      elim (Option-cases (lookup (digest token) sessions)) [
        | inl n ↦ rw (e, n, is_valid) (unfold good in refl)
        | inr (r, s) ↦ elim (Bool-cases (is_good now generation r)) [
          | inl fine ↦ rw (e, s, is_valid) (unfold good in rw fine refl)
          | inr over ↦ rw (e, s, is_valid) (unfold good in rw over refl)
        ]
      ]

  -- For a file with each digest once that can be read and replaced, `validate` of a token that is
  -- not empty answers whether the file holds a record for it that has not expired and is of the
  -- generation asked for.
  pub validate_lem :
      (file : SessionFile) (token generation : String) (now : ℕ)
      → IsUnique (sessions_of file)
      → (token == "") ≡ false
      → (validate digest file true replaced (some token) generation now).1
        ≡ value (is_valid (sessions_of file) token generation now)
  unfolding validate
  validate_lem file token generation now u n =
      let e = validate_in_lem (sessions_of file) token generation now u in
      rw n (
        if_elim
          (λ (r : SessionFile × Returned Bool).
            r.1 ≡ value (is_valid (sessions_of file) token generation now))
          (changed now generation (sessions_of file)) _ _ (λ _. unfold publish in rw e refl)
          λ _. rw e refl)

  absent_lem :
      (sessions : Dict String Stored) (token generation : String) (now : ℕ)
      → lookup (digest token) sessions ≡ none
      → is_valid sessions token generation now ≡ false
  unfolding is_valid
  absent_lem sessions token generation now e = rw (e, is_valid) refl

  -- the record on which a positive answer rests
  pub record IsSignedIn (file : SessionFile) (token : Option String) (generation : String) (now : ℕ)
      : Type 0 where
    pub name : String
    pub stored : Stored
    pub is_token : token ≡ some name
    pub on_file : lookup (digest name) (sessions_of file) ≡ some stored
    pub same_generation : stored.generation ≡ generation
    pub not_expired : now < stored.expires_at

  valid_record :
      (sessions : Dict String Stored) (token generation : String) (now : ℕ)
      → is_valid sessions token generation now ≡ true
      → (r : Stored) × (lookup (digest token) sessions ≡ some r)
        × (r.generation ≡ generation)
        × (now < r.expires_at)
  unfolding is_valid is_good
  valid_record sessions token generation now h =
      elim (Option-cases (lookup (digest token) sessions)) [
        | inl n ↦ absurd (ground (arith, n))
        | inr (r, e) ↦ (r, e, ground (arith, e, eq_iff r.generation generation), ground (arith, e))
      ]

  validate-true :
      (file : SessionFile) (readable : Bool) (ending : Published) (token generation : String)
      (now : ℕ)
      → (validate digest file readable ending (some token) generation now).1 ≡ value true
      → validate_in digest (sessions_of file) token generation now ≡ true
  unfolding validate publish
  validate-true file readable replaced token generation now h = ground arith
  validate-true file readable not_replaced token generation now h = ground arith
  validate-true file readable replaced_unsynced token generation now h = ground arith

  -- whatever the file and its replacement do, only a token with a good record is valid
  pub validate-IsSignedIn :
      (file : SessionFile) (readable : Bool) (ending : Published) (token : Option String)
      (generation : String) (now : ℕ)
      → IsUnique (sessions_of file)
      → (validate digest file readable ending token generation now).1 ≡ value true
      → IsSignedIn file token generation now
  validate-IsSignedIn file readable ending none generation now u h = unfold validate in cc
  validate-IsSignedIn file readable ending (some token) generation now u h =
      let valid = validate-true file readable ending token generation now h in
      let same = validate_in_lem (sessions_of file) token generation now u in
      let (r, e, g, t) = valid_record (sessions_of file) token generation now (sym same ∙ valid) in
      record {
        name = token;
        stored = r;
        is_token = refl;
        on_file = e;
        same_generation = g;
        not_expired = t;
      }

  -- A session that was created under a token that is not empty, in a file with each digest once
  -- that can be read and replaced, is valid for its generation exactly while its expiry lies ahead,
  -- which is 30 days after the creation if it is remembered and a day if not.
  pub validate-create :
      (file : SessionFile) (token generation : String) (remembered : Bool) (now later : ℕ)
      → IsUnique (sessions_of file)
      → (token == "") ≡ false
      → (validate digest
          (create digest file true replaced generation remembered token now).0
          true
          replaced
          (some token)
          generation
          later).1
        ≡ value
            (ltb later (now + (if remembered then remembered_seconds else session_only_seconds)))
  unfolding create publish
  validate-create file token generation remembered now later u named =
      let expires_at = now + (if remembered then remembered_seconds else session_only_seconds) in
      let r : Stored = record { generation = generation; expires_at = expires_at } in
      let d = insert (digest token) r (sessions_of file) in
      let there : lookup (digest token) d ≡ some r =
        lookup-insert (digest token) (digest token) r (sessions_of file)
        ∙ rw (==_refl (digest token)) refl in
      let fine : is_valid d token generation later ≡ ltb later expires_at =
        (unfold is_valid is_good in rw (there, is_valid) (ground (arith, ==_refl generation))) in
      validate_lem (some d) token generation later
        (insert-IsUnique (digest token) r (sessions_of file) u) named
      ∙ ap value fine

  revoke_in-absent :
      (sessions : Dict String Stored) (token : String)
      → IsUnique sessions
      → IsUnique (sessions_of (revoke_in digest sessions replaced token).0)
        × (lookup (digest token) (sessions_of (revoke_in digest sessions replaced token).0) ≡ none)
  unfolding revoke_in publish
  revoke_in-absent sessions token u =
      let P = λ (r : SessionFile × Returned Unit).
        IsUnique (sessions_of r.0) × (lookup (digest token) (sessions_of r.0) ≡ none) in
      if_elim P (is_none (lookup (digest token) sessions)) _ _ (λ e. (u, ground (arith, e)))
        λ _. (
          remove-IsUnique (digest token) sessions u,
          lookup-remove (digest token) (digest token) sessions ∙ rw (==_refl (digest token)) refl,
        )

  -- A token that is not empty and was revoked, in a file with each digest once that can be read and
  -- replaced, is not valid any more, for no generation and at no time.
  pub validate-revoke :
      (file : SessionFile) (token generation : String) (later : ℕ)
      → IsUnique (sessions_of file)
      → (token == "") ≡ false
      → (validate digest
          (revoke digest file true replaced (some token)).0
          true
          replaced
          (some token)
          generation
          later).1
        ≡ value false
  unfolding revoke
  validate-revoke none token generation later u named =
      validate_lem none token generation later tt named
      ∙ ap value (absent_lem [] token generation later (unfold lookup in refl))
  validate-revoke (some sessions) token generation later u named =
      let (unique, gone) = revoke_in-absent sessions token u in
      rw named (
        validate_lem (revoke_in digest sessions replaced token).0 token generation later unique
          named
        ∙ ap value (
            absent_lem (sessions_of (revoke_in digest sessions replaced token).0) token generation
              later gone))
