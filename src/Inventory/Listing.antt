-- ===== src/Inventory/Listing.antt =====
-- Device lists with every id once, and how changes of a list keep that.
use simple_network_dashboard.Prelude.{
  ◌≤◌, String, ◌≡◌, refl, sym, ◌∙◌, inl, inr, Bool, false, some, List, [], ◌∷◌, ◌++◌, map, arith,
  eq_iff, Bool-cases, Option-cases, if_elim, length, any, keep_if, string_eq, nat_eq, ◌==◌,
}
use simple_network_dashboard.Config.{max_devices}
use simple_network_dashboard.Device.{Device}
use simple_network_dashboard.Inventory.Changes.{change_first}

unfoldable pub ids : List Device → List String
ids devices = map (λ (d : Device). d.id) devices

unfoldable pub AllDiffer : List String → Type 0
AllDiffer [] = Unit
AllDiffer (i ∷ l) = (any (λ x. x == i) l ≡ false) × AllDiffer l

-- at most 250 devices, and each id once
pub record IsInventory (devices : List Device) : Type 0 where
  pub few : length (ids devices) ≤ max_devices
  pub differ : AllDiffer (ids devices)

any-append-false :
    (i j : String) (l : List String)
    → any (λ x. x == i) l ≡ false
    → (j == i) ≡ false
    → any (λ x. x == i) (l ++ j ∷ []) ≡ false
any-append-false i j [] h k = ground arith
any-append-false i j (x ∷ l) h k = ground (arith, any-append-false i j l)

pub AllDiffer-append :
    (l : List String) (i : String)
    → AllDiffer l
    → any (λ x. x == i) l ≡ false
    → AllDiffer (l ++ i ∷ [])
unfolding AllDiffer
AllDiffer-append [] i d h = (refl, tt)
AllDiffer-append (x ∷ l) i d h =
    let apart : (i == x) ≡ false = ground (arith, eq_iff i x, eq_iff x i) in
    (any-append-false x i l d.0 apart, AllDiffer-append l i d.1 (ground arith))

any-keep_if-false :
    (i : String) (p : Device → Bool) (l : List Device)
    → any (λ x. x == i) (ids l) ≡ false
    → any (λ x. x == i) (ids (keep_if p l)) ≡ false
unfolding ids
any-keep_if-false i p [] h = refl
any-keep_if-false i p (d ∷ l) h =
    if_elim (λ (ds : List Device). any (λ x. x == i) (ids ds) ≡ false) (p d) _ _
      (λ _. ground (arith, any-keep_if-false i p l)) (λ _. any-keep_if-false i p l (ground arith))

pub keep_if-IsInventory :
    (p : Device → Bool) (l : List Device)
    → (length (ids (keep_if p l)) ≤ length (ids l))
      × (AllDiffer (ids l) → AllDiffer (ids (keep_if p l)))
unfolding ids AllDiffer
keep_if-IsInventory p [] = (omega arith, λ d. tt)
keep_if-IsInventory p (d ∷ l) =
    let rest = keep_if-IsInventory p l in
    if_elim
      (λ (ds : List Device).
        (length (ids ds) ≤ length (ids (d ∷ l))) × (AllDiffer (ids (d ∷ l)) → AllDiffer (ids ds)))
      (p d) _ _ (λ _. (omega (arith, rest.0), λ a. (any-keep_if-false d.id p l a.0, rest.1 a.1)))
      (λ _. (omega (arith, rest.0), λ a. rest.1 a.1))

pub length-ids : (l : List Device) → length (ids l) ≡ length l
unfolding ids
length-ids [] = refl
length-ids (d ∷ l) = omega (arith, length-ids l)

pub ids-append : (l : List Device) (d : Device) → ids (l ++ d ∷ []) ≡ ids l ++ d.id ∷ []
unfolding ids
ids-append [] d = refl
ids-append (x ∷ l) d = ground (arith, ids-append l d)

-- a change of one device that keeps its id keeps all ids
pub ids-change_first :
    (id : String) (f : Device → Device) (l : List Device) {l' : List Device}
    → ((d : Device) → d.id ≡ id → (f d).id ≡ id)
    → change_first id f l ≡ some l'
    → ids l' ≡ ids l
unfolding change_first ids
ids-change_first id f [] k h = cc
ids-change_first id f (d ∷ l) {l'} k h = elim (Bool-cases (d.id == id)) [
  | inl t ↦
      let here : d.id ≡ id = (eq_iff d.id id).0 t in
      let first : (f d).id ≡ d.id = k d here ∙ sym here in
      let made : f d ∷ l ≡ l' = ground (arith, t, h) in rw (← made) (ground (arith, first))
  | inr t ↦ elim (Option-cases (change_first id f l)) [
    | inl n ↦ absurd (ground (arith, t, n, h))
    | inr (ds, e) ↦
        let made : d ∷ ds ≡ l' = ground (arith, t, e, h) in
        rw (← made) (ground (arith, ids-change_first id f l {l' = ds} k e))
  ]
]
