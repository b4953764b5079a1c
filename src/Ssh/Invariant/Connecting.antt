-- ===== src/Ssh/Invariant/Connecting.antt =====
-- `connect` is safe for every other owner, before and after the network answers.
pub mod Finishing
use simple_network_dashboard.Prelude.{
  lookup, ℕ, ◌+◌, ◌≤◌, String, ◌≡◌, refl, ap, ◌∙◌, ◌≢◌, inl, inr, false, some, arith, eq_iff,
  nat_beq_iff, Bool-cases, if_elim, option_elim, ◌==◌, nat_eq, string_eq, lookup-insert,
}
use simple_network_dashboard.Device.{Device}
use simple_network_dashboard.Ssh.Session.{SessionState, closed, new_session, retired}
use simple_network_dashboard.Ssh.Manager.{Pending, Manager, write_session, slot}
use simple_network_dashboard.Ssh.Connect.{Reserved, holds_slot, place, reserve}
use simple_network_dashboard.Ssh.Invariant.{IsSlot, IsPrompt, IsConsistent, KeepsOthers}
use simple_network_dashboard.Ssh.Invariant.Steps.{
  IsSafe, IsSafe-refl, KeepsOthers-trans, other_object,
}

-- What `place` needs of the manager: all slots but the one that it fills are in order, and that one
-- is free or the owner's.
pub record IsReady (owner did : String) (m : Manager) : Type 0 where
  pub slots : (d : String) (k : ℕ) → slot m d ≡ some k → (did == d) ≡ false → IsSlot m d k
  pub prompts : (d : String) (p : Pending) → lookup d m.pending ≡ some p → IsPrompt m p
  pub free : (g : ℕ) → slot m did ≡ some g → (m.heap g).owner ≡ owner

-- the number of the new session is not in use
fresh_object : (k c : ℕ) → k ≤ c → (k == c + 1) ≡ false
fresh_object k c h = ground arith

module _ (owner did password : String) (device : Device) (now : ℕ) (m : Manager) where
  placed-IsSlot :
      (d : String) (k : ℕ)
      → IsReady owner did m
      → slot (place m did password device owner now) d ≡ some k
      → IsSlot (place m did password device owner now) d k
  unfolding place write_session new_session
  placed-IsSlot d k h q = elim (Bool-cases (did == d)) [
    | inl same ↦
        let e : m.gen_counter + 1 ≡ k =
          ground (arith, lookup-insert d did (m.gen_counter + 1) m.sessions) in
        record {
          allocated = omega arith;
          generation = ground (arith, nat_beq_iff k (m.gen_counter + 1));
          device = ground (arith, nat_beq_iff k (m.gen_counter + 1), eq_iff did d);
          live = ground (arith, nat_beq_iff k (m.gen_counter + 1));
        }
    | inr differ ↦
        let e : slot m d ≡ some k =
          ground (arith, lookup-insert d did (m.gen_counter + 1) m.sessions) in
        let was = h.slots d k e differ in
        let old = fresh_object k m.gen_counter was.allocated in
        record {
          allocated = omega (arith, was.allocated);
          generation = rw old was.generation;
          device = rw old was.device;
          live = rw old was.live;
        }
  ]

  placed-IsPrompt :
      (d : String) (p : Pending)
      → IsReady owner did m
      → lookup d (place m did password device owner now).pending ≡ some p
      → IsPrompt (place m did password device owner now) p
  unfolding place write_session
  placed-IsPrompt d p h q =
      let was = h.prompts d p q in
      record {
        allocated = omega (arith, was.allocated);
        owner = rw (fresh_object p.generation m.gen_counter was.allocated) was.owner;
      }

  pub place-IsSafe : IsReady owner did m → IsSafe owner m (place m did password device owner now)
  unfolding place write_session
  place-IsSafe h = record {
    consistent = record {
      slots = λ d k q. placed-IsSlot d k h q;
      prompts = λ d p q. placed-IsPrompt d p h q;
    };
    others = record {
      grows = omega arith;
      objects = λ k l n. rw (fresh_object k m.gen_counter l);
      slots = λ d k l q n. elim (Bool-cases (did == d)) [
        | inl same ↦
            let there : slot m did ≡ some k = ap (slot m) ((eq_iff did d).0 same) ∙ q in
            absurd (n (h.free k there))
        | inr differ ↦ lookup-insert d did (m.gen_counter + 1) m.sessions ∙ rw differ q
      ];
    };
  }

IsConsistent→IsReady :
    (owner did : String) (m : Manager)
    → IsConsistent m
    → ((g : ℕ) → slot m did ≡ some g → (m.heap g).owner ≡ owner)
    → IsReady owner did m
IsConsistent→IsReady owner did m h f = record {
  slots = λ d k q e. h.slots d k q;
  prompts = h.prompts;
  free = f;
}

-- once the old session is retired, the slot may be taken
module _ (owner did : String) (m : Manager) (h : IsConsistent m) (old : ℕ)
    (q : slot m did ≡ some old) (o : (m.heap old).owner ≡ owner) where
  retired-IsReady : IsReady owner did (write_session m old (retired (m.heap old)))
  unfolding write_session retired
  retired-IsReady = record {
    slots = λ d k e differ.
        let was = h.slots d k e in
        let apart : (k == old) ≡ false =
          ground (arith, eq_iff did d, was.device, (h.slots did old q).device) in
        record {
          allocated = was.allocated;
          generation = rw apart was.generation;
          device = rw apart was.device;
          live = rw apart was.live;
        };
    prompts = λ d p e.
        let was = h.prompts d p e in
        record { allocated = was.allocated; owner = ground (arith, was.owner) };
    free = λ g e. let one : g ≡ old = cc (e, q) in ground (arith, o);
  }

  retired-KeepsOthers : KeepsOthers owner m (write_session m old (retired (m.heap old)))
  unfolding write_session
  retired-KeepsOthers = record {
    grows = omega arith;
    objects = λ k l n. rw (other_object owner m k old n o);
    slots = λ d k l e n. e;
  }

not_gone : (s : SessionState) → s ≢ closed → holds_slot s ≡ false → ⊥
unfolding holds_slot
not_gone closed n e = n refl
not_gone _ n e = cc

-- Reserving a device for an owner: either it is refused and nothing changes, or the new session is
-- in the slot; sessions of all other owners are as they were.
pub reserve-IsSafe :
    (owner : String) (m : Manager) (h : IsConsistent m) (did password : String) (device : Device)
    (now : ℕ)
    → IsSafe owner m (reserve m did password device owner now).0
unfolding reserve
reserve-IsSafe owner m h did password device now =
    let P : Manager × Reserved → Type 0 = λ r. IsSafe owner m r.0 in
    option_elim P (slot m did) _ _
      (λ free.
        place-IsSafe owner did password device now m
          (IsConsistent→IsReady owner did m h (λ g e. cc (free, e))))
      λ old q.
        if_elim P (holds_slot (m.heap old).state) _ _
          (λ _.
            if_elim P ((m.heap old).owner == owner) _ _
              (λ mine.
                let o : (m.heap old).owner ≡ owner = (eq_iff (m.heap old).owner owner).0 mine in
                let m1 = write_session m old (retired (m.heap old)) in
                let placed =
                  place-IsSafe owner did password device now m1
                    (retired-IsReady owner did m h old q o) in
                record {
                  consistent = placed.consistent;
                  others =
                      KeepsOthers-trans m m1 _ (retired-KeepsOthers owner did m h old q o)
                        placed.others;
                })
              λ _. IsSafe-refl owner m h)
          λ gone. absurd (not_gone (m.heap old).state (h.slots did old q).live gone)
