-- ===== src/UpdateCheck/Versions.antt =====
-- When simple_network_dashboard/update_check.py says that there is an update.
use simple_network_dashboard.Prelude.{
  ℕ, ◌≡◌, refl, sym, true, false, Option, List, [], ◌∷◌, arith, nat_eq,
}
use simple_network_dashboard.Text.{Text}
use simple_network_dashboard.UpdateCheck.{version_tuple, tuple_gt, update_available}

tuple_gt_irrefl : (a : List ℕ) → tuple_gt a a ≡ false
unfolding tuple_gt
tuple_gt_irrefl [] = refl
tuple_gt_irrefl (x ∷ a) = ground (arith, tuple_gt_irrefl a)

tuple_gt_asymm : (a b : List ℕ) → tuple_gt a b ≡ true → tuple_gt b a ≡ false
unfolding tuple_gt
tuple_gt_asymm [] b h = cc
tuple_gt_asymm (x ∷ a) [] h = refl
tuple_gt_asymm (x ∷ a) (y ∷ b) h = ground (arith, tuple_gt_asymm a b)

tuple_gt_total : (a b : List ℕ) → tuple_gt a b ≡ false → tuple_gt b a ≡ false → a ≡ b
unfolding tuple_gt
tuple_gt_total [] [] h k = refl
tuple_gt_total [] (y ∷ b) h k = cc
tuple_gt_total (x ∷ a) [] h k = cc
tuple_gt_total (x ∷ a) (y ∷ b) h k = ground (arith, tuple_gt_total a b)

tuple_gt_trans : (a b c : List ℕ) → tuple_gt a b ≡ true → tuple_gt b c ≡ true → tuple_gt a c ≡ true
unfolding tuple_gt
tuple_gt_trans [] b c h k = cc
tuple_gt_trans (x ∷ a) [] c h k = cc
tuple_gt_trans (x ∷ a) (y ∷ b) [] h k = refl
tuple_gt_trans (x ∷ a) (y ∷ b) (z ∷ c) h k = ground (arith, tuple_gt_trans a b c)

-- of two versions one is newer, unless they have the same parts; none is newer than itself; and what
-- is newer than a newer one is newer
pub IsOrder : (Text → Option ℕ) → Text → Text → Text → Type 0
IsOrder int a b c =
    (update_available int a a ≡ false)
    × (update_available int a b ≡ true → update_available int b a ≡ false)
    × (update_available int a b ≡ false
        → update_available int b a ≡ false
        → version_tuple int a ≡ version_tuple int b)
    × (update_available int a b ≡ true
        → update_available int b c ≡ true
        → update_available int a c ≡ true)

-- Order.
pub update_available-IsOrder : (int : Text → Option ℕ) (a b c : Text) → IsOrder int a b c
unfolding update_available IsOrder
update_available-IsOrder int a b c =
    let va = version_tuple int a in
    let vb = version_tuple int b in
    let vc = version_tuple int c in
    (
      tuple_gt_irrefl va,
      λ h. tuple_gt_asymm vb va h,
      λ h k. sym (tuple_gt_total vb va h k),
      λ h k. tuple_gt_trans vc vb va k h,
    )
