-- ===== src/Ssh/Owners/Release.antt =====
-- After the release of an owner nothing of it is left: no session in a slot and no prompt.
use simple_network_dashboard.Prelude.{
  lookup, ℕ, String, ◌≡◌, sym, ap, ◌∙◌, ◌≢◌, inl, inr, some, [], ◌∷◌, arith, eq_iff, if◌then◌else◌,
  Bool-cases, if_elim, ◌==◌, nat_eq, string_eq, Dict, lookup-remove, ==_refl,
}
use simple_network_dashboard.Ssh.Manager.{Pending, Manager, slot, owner_pop, clear_pending}
use simple_network_dashboard.Ssh.Close.{close}
use simple_network_dashboard.Ssh.Owners.{release_each, forget_each, release_owner}
use simple_network_dashboard.Ssh.Close.Shrinks.{
  IsLess, IsLess-refl, IsLess-trans, clear_pending-IsLess, close-IsLess, close-gone,
}

module _ (owner : String) where
  release_one-IsLess :
      (m : Manager) (did : String) (g : ℕ)
      → IsLess m (if (m.heap g).owner == owner then close m did (some g) else m)
  release_one-IsLess m did g =
      if_elim (IsLess m) ((m.heap g).owner == owner) _ _ (λ _. close-IsLess m did (some g))
        λ _. IsLess-refl m

  release_one-gone :
      (m : Manager) (did : String) (g : ℕ)
      → (m.heap g).owner ≡ owner
      → slot (if (m.heap g).owner == owner then close m did (some g) else m) did ≢ some g
  release_one-gone m did g o =
      if_elim (λ (x : Manager). slot x did ≢ some g) ((m.heap g).owner == owner) _ _
        (λ _. close-gone m did g) λ e. absurd (ground (arith, eq_iff (m.heap g).owner owner))

  release_each-IsLess : (l : Dict String ℕ) (m : Manager) → IsLess m (release_each m owner l)
  unfolding release_each
  release_each-IsLess [] m = IsLess-refl m
  release_each-IsLess ((did, g) ∷ l) m =
      IsLess-trans m _ _ (release_one-IsLess m did g) (release_each-IsLess l _)

  release_each-gone :
      (l : Dict String ℕ) (m : Manager) (d : String) (g : ℕ)
      → lookup d l ≡ some g
      → (m.heap g).owner ≡ owner
      → slot (release_each m owner l) d ≢ some g
  unfolding release_each lookup
  release_each-gone [] m d g q o e = absurd (cc q)
  release_each-gone ((did, k) ∷ l) m d g q o e = elim (Bool-cases (did == d)) [
    | inl same ↦
        let one : k ≡ g = ground (arith, q, same) in
        let m1 = if (m.heap k).owner == owner then close m did (some k) else m in
        let left : slot m1 d ≡ some g = (release_each-IsLess l m1).slots d g e in
        release_one-gone m did k (ap (λ (i : ℕ). (m.heap i).owner) one ∙ o)
          (ap (slot m1) ((eq_iff did d).0 same) ∙ left ∙ ap some (sym one))
    | inr differ ↦
        let m1 = if (m.heap k).owner == owner then close m did (some k) else m in
        release_each-gone l m1 d g (ground (arith, q, differ))
          ((release_one-IsLess m did k).owners g ∙ o) e
  ]

  forget_one-IsLess :
      (m : Manager) (did : String) (p : Pending)
      → IsLess m (if p.owner == owner then clear_pending m did else m)
  forget_one-IsLess m did p =
      if_elim (IsLess m) (p.owner == owner) _ _ (λ _. clear_pending-IsLess m did) λ _. IsLess-refl m

  forget_one-gone :
      (m : Manager) (did : String) (p : Pending)
      → p.owner ≡ owner
      → lookup did (if p.owner == owner then clear_pending m did else m).pending ≢ some p
  unfolding clear_pending
  forget_one-gone m did p o =
      if_elim (λ (x : Manager). lookup did x.pending ≢ some p) (p.owner == owner) _ _
        (λ _ e. ground (arith, lookup-remove did did m.pending, ==_refl did))
        λ e. absurd (ground (arith, eq_iff p.owner owner))

  forget_each-IsLess : (l : Dict String Pending) (m : Manager) → IsLess m (forget_each m owner l)
  unfolding forget_each
  forget_each-IsLess [] m = IsLess-refl m
  forget_each-IsLess ((did, p) ∷ l) m =
      IsLess-trans m _ _ (forget_one-IsLess m did p) (forget_each-IsLess l _)

  forget_each-gone :
      (l : Dict String Pending) (m : Manager) (d : String) (p : Pending)
      → lookup d l ≡ some p
      → p.owner ≡ owner
      → lookup d (forget_each m owner l).pending ≢ some p
  unfolding forget_each lookup
  forget_each-gone [] m d p q o e = absurd (cc q)
  forget_each-gone ((did, r) ∷ l) m d p q o e = elim (Bool-cases (did == d)) [
    | inl same ↦
        let one : r ≡ p = ground (arith, q, same) in
        let m1 = if r.owner == owner then clear_pending m did else m in
        let left : lookup d m1.pending ≡ some p = (forget_each-IsLess l m1).prompts d p e in
        forget_one-gone m did r (ap (λ (i : Pending). i.owner) one ∙ o) (
          ap (λ (k : String). lookup k m1.pending) ((eq_iff did d).0 same)
          ∙ left
          ∙ ap some (sym one))
    | inr differ ↦
        let m1 = if r.owner == owner then clear_pending m did else m in
        forget_each-gone l m1 d p (ground (arith, q, differ)) o e
  ]

  -- After `release_owner` no slot holds a session of the owner and no prompt of the owner is on
  -- record; slots and prompts that are left are as they were, and no session changes hands.
  pub release_owner-gone :
      (m : Manager)
      → ((d : String) (g : ℕ)
          → slot (release_owner m owner) d ≡ some g
          → ((release_owner m owner).heap g).owner ≢ owner)
        × ((d : String) (p : Pending)
            → lookup d (release_owner m owner).pending ≡ some p
            → p.owner ≢ owner)
        × IsLess m (release_owner m owner)
  unfolding release_owner owner_pop
  release_owner-gone m =
      let m1 = release_each m owner m.sessions in
      let m2 = forget_each m1 owner m1.pending in
      let first = release_each-IsLess m.sessions m in
      let second = forget_each-IsLess m1.pending m1 in
      (
        λ d g e o.
            let was = second.slots d g e in
            release_each-gone m.sessions m d g (first.slots d g was)
              (sym (first.owners g) ∙ sym (second.owners g) ∙ o) was,
        λ d p e o. forget_each-gone m1.pending m1 d p (second.prompts d p e) o e,
        record {
          slots = λ d g e. first.slots d g (second.slots d g e);
          owners = λ g. second.owners g ∙ first.owners g;
          prompts = λ d p e. first.prompts d p (second.prompts d p e);
        },
      )
