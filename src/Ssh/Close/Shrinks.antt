-- ===== src/Ssh/Close/Shrinks.antt =====
-- Closing a session takes away slots and prompts, and changes no owner.
use simple_network_dashboard.Prelude.{
  lookup, ℕ, String, ◌≡◌, refl, sym, ap, ◌∙◌, ◌≢◌, not, Option, some, List, arith, nat_beq_iff,
  if_elim, option_elim, string_eq, nat_eq, ◌==◌, lookup-remove, ==_refl, lookup-remove-some,
}
use simple_network_dashboard.Ssh.Session.{Session, wiped, retired}
use simple_network_dashboard.Ssh.Manager.{
  Pending, Effect, close_client, Manager, write_session, do_effect, slot, log, status, lock,
  close_session, clear_pending,
}
use simple_network_dashboard.Ssh.Close.{pop_slot, announce_closed, mismatch, close}

-- From `m` to `m'` slots and prompts only go, and sessions keep their owners.
pub record IsLess (m m' : Manager) : Type 0 where
  pub slots : (d : String) (g : ℕ) → slot m' d ≡ some g → slot m d ≡ some g
  pub owners : (g : ℕ) → (m'.heap g).owner ≡ (m.heap g).owner
  pub prompts :
      (d : String) (p : Pending) → lookup d m'.pending ≡ some p → lookup d m.pending ≡ some p

pub IsLess-refl : (m : Manager) → IsLess m m
IsLess-refl m = record { slots = λ d g e. e; owners = λ g. refl; prompts = λ d p e. e }

pub IsLess-trans : (m m1 m2 : Manager) → IsLess m m1 → IsLess m1 m2 → IsLess m m2
IsLess-trans m m1 m2 a b = record {
  slots = λ d g e. a.slots d g (b.slots d g e);
  owners = λ g. b.owners g ∙ a.owners g;
  prompts = λ d p e. a.prompts d p (b.prompts d p e);
}

module _ (m : Manager) (did : String) where
  pub clear_pending-IsLess : IsLess m (clear_pending m did)
  unfolding clear_pending
  clear_pending-IsLess = record {
    slots = λ d g e. e;
    owners = λ g. refl;
    prompts = λ d p e. lookup-remove-some d did m.pending e;
  }

  pop_slot-IsLess : (k : ℕ) → IsLess m (pop_slot m did k)
  unfolding pop_slot write_session retired
  pop_slot-IsLess k = record {
    slots = λ d g e. lookup-remove-some d did m.sessions e;
    owners = λ g. ground (arith, nat_beq_iff g k);
    prompts = λ d p e. e;
  }

  close_session-IsLess : (k : ℕ) → IsLess m (close_session m k)
  unfolding close_session write_session do_effect wiped
  close_session-IsLess k =
      let P =
        λ (y : Manager). (y.sessions ≡ m.sessions) × (y.pending ≡ m.pending) × (y.heap ≡ m.heap) in
      let (a, b, c) =
        if_elim P (m.heap k).client (do_effect m (close_client k)) m (λ _. (refl, refl, refl))
          λ _. (refl, refl, refl) in
      record {
        slots = λ d g e. ap (lookup d) (sym a) ∙ e;
        owners = λ g.
            if_elim (λ (s : Session). s.owner ≡ (m.heap g).owner) (g == k) _ _
              (λ e. ap (λ (i : ℕ). (m.heap i).owner) (sym ((nat_beq_iff g k).0 e)))
              λ _. ap (λ (h : ℕ → Session). (h g).owner) c;
        prompts = λ d p e. ap (lookup d) (sym b) ∙ e;
      }

-- what is told to the browsers touches no state
told-IsLess : (m : Manager) (e : List Effect) → IsLess m (record m { effects = e })
told-IsLess m e = record { slots = λ d g q. q; owners = λ g. refl; prompts = λ d p q. q }

pub announce_closed-IsLess :
    (m : Manager) (did : String) (k : ℕ) (to : Option String)
    → IsLess m (announce_closed m did k to)
unfolding announce_closed log status lock do_effect
announce_closed-IsLess m did k to =
    let m1 = clear_pending m did in
    let m2 = close_session m1 k in
    IsLess-trans m m1 _ (clear_pending-IsLess m did)
      (IsLess-trans m1 m2 _ (close_session-IsLess m1 did k) (told-IsLess m2 _))

pub close-IsLess : (m : Manager) (did : String) (sess : Option ℕ) → IsLess m (close m did sess)
unfolding close
close-IsLess m did sess =
    option_elim (IsLess m) (slot m did) _ _ (λ _. IsLess-refl m)
      λ g _.
        if_elim (IsLess m) (mismatch sess g) _ _ (λ _. IsLess-refl m)
          λ _.
            IsLess-trans m (pop_slot m did g) _ (pop_slot-IsLess m did g)
              (announce_closed-IsLess (pop_slot m did g) did g (some (m.heap g).owner))

pub popped_free : (m : Manager) (did : String) (k g : ℕ) → slot (pop_slot m did k) did ≢ some g
unfolding pop_slot write_session
popped_free m did k g e = ground (arith, lookup-remove did did m.sessions, ==_refl did)

-- the slot is free once its session was closed
pub close-gone : (m : Manager) (did : String) (g : ℕ) → slot (close m did (some g)) did ≢ some g
unfolding close mismatch
close-gone m did g =
    option_elim (λ (x : Manager). slot x did ≢ some g) (slot m did) _ _ (λ q e. cc)
      λ k q.
        if_elim (λ (x : Manager). slot x did ≢ some g) (not (k == g)) _ _
          (λ differ e. let same : k ≡ g = cc (q, e) in ground (arith, nat_beq_iff k g))
          λ _ e.
            let left =
              (announce_closed-IsLess (pop_slot m did k) did k (some (m.heap k).owner)).slots did g
                e in
            popped_free m did k g left
