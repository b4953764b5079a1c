-- ===== src/Ssh/Invariant/Steps.antt =====
-- The primitive changes that the methods are made of: each keeps the invariant and the sessions of
-- all owners but the acting one.
use simple_network_dashboard.Prelude.{
  lookup, insert, remove, ℕ, ◌≤◌, String, ◌≡◌, refl, sym, ap, subst, ◌∙◌, ◌≢◌, inl, inr, Bool,
  false, Option, some, List, [], ◌∷◌, ◌++◌, arith, eq_iff, nat_beq_iff, Bool-cases, if_elim, ◌==◌,
  nat_eq, string_eq, Dict, lookup-insert, lookup-remove, lookup-remove-some, lookup-remove_ne,
}
use simple_network_dashboard.Ssh.Session.{Session, wiped, retired}
use simple_network_dashboard.Ssh.Manager.{
  Pending, Activity, LogText, StatusState, ssh_log, ssh_status, ssh_lock, Effect, push,
  close_client, Manager, write_session, do_effect, slot, owner_or_slot, log, status, lock,
  close_session, clear_pending,
}
use simple_network_dashboard.Ssh.Close.{pop_slot}
use simple_network_dashboard.Ssh.Invariant.{
  IsPrompt, IsConsistent, KeepsOthers, SameSession, IsConsistent-other, write_session-IsConsistent,
  clear_pending-IsConsistent, emptied-IsConsistent,
}

-- a change by an owner that is safe in this sense
pub record IsSafe (owner : String) (m m' : Manager) : Type 0 where
  pub consistent : IsConsistent m'
  pub others : KeepsOthers owner m m'

pub IsSafe-refl : (owner : String) (m : Manager) → IsConsistent m → IsSafe owner m m
IsSafe-refl owner m h = record {
  consistent = h;
  others = record { grows = omega arith; objects = λ g a n. refl; slots = λ did g a q n. q };
}

pub KeepsOthers-trans :
    {owner : String} (m m1 m2 : Manager)
    → KeepsOthers owner m m1
    → KeepsOthers owner m1 m2
    → KeepsOthers owner m m2
KeepsOthers-trans {owner} m m1 m2 p q =
    let still = λ (g : ℕ) (a : g ≤ m.gen_counter) (n : (m.heap g).owner ≢ owner).
      subst (λ (s : Session). s.owner ≢ owner) (sym (p.objects g a n)) n in
    record {
      grows = omega (arith, p.grows, q.grows);
      objects = λ g a n. q.objects g (omega (arith, p.grows)) (still g a n) ∙ p.objects g a n;
      slots =
          λ did g a e n. q.slots did g (omega (arith, p.grows)) (p.slots did g a e n) (still g a n);
    }

pub IsSafe-trans :
    {owner : String} (m m1 m2 : Manager)
    → IsSafe owner m m1
    → IsSafe owner m1 m2
    → IsSafe owner m m2
IsSafe-trans m m1 m2 p q = record {
  consistent = q.consistent;
  others = KeepsOthers-trans m m1 m2 p.others q.others;
}

-- sessions of different owners are different objects
pub other_object :
    (owner : String) (m : Manager) (k g : ℕ)
    → (m.heap k).owner ≢ owner
    → (m.heap g).owner ≡ owner
    → (k == g) ≡ false
other_object owner m k g n o = elim (Bool-cases (k == g)) [
  | inl same ↦ absurd (n (ap (λ (i : ℕ). (m.heap i).owner) ((nat_beq_iff k g).0 same) ∙ o))
  | inr differ ↦ differ
]

module _ (owner : String) (m : Manager) (h : IsConsistent m) where
  pub other-IsSafe :
      (a : Dict String Activity) (e : List Effect)
      → IsSafe owner m (record m { activity = a; effects = e })
  other-IsSafe a e = record {
    consistent = IsConsistent-other m h a e;
    others = record { grows = omega arith; objects = λ g l n. refl; slots = λ did g l q n. q };
  }

  pub clear_pending-IsSafe : (did : String) → IsSafe owner m (clear_pending m did)
  unfolding clear_pending
  clear_pending-IsSafe did = record {
    consistent = clear_pending-IsConsistent m h did;
    others = record { grows = omega arith; objects = λ g l n. refl; slots = λ d g l q n. q };
  }

  pub write_session-IsSafe :
      (g : ℕ) (s : Session)
      → (m.heap g).owner ≡ owner
      → SameSession (m.heap g) s
      → IsSafe owner m (write_session m g s)
  unfolding write_session
  write_session-IsSafe g s o e = record {
    consistent = write_session-IsConsistent m h g s e;
    others = record {
      grows = omega arith;
      objects = λ k l n. rw (other_object owner m k g n o);
      slots = λ did k l q n. q;
    };
  }

  -- a slot whose session is the owner's may be emptied
  pub emptied-IsSafe :
      (did : String) (g : ℕ)
      → slot m did ≡ some g
      → (m.heap g).owner ≡ owner
      → IsSafe owner m (record m { sessions = remove did m.sessions })
  emptied-IsSafe did g q o = record {
    consistent = emptied-IsConsistent m h did;
    others = record {
      grows = omega arith;
      objects = λ k l n. refl;
      slots = λ d k l e n. elim (Bool-cases (did == d)) [
        | inl same ↦
            let there : slot m did ≡ some k = ap (slot m) ((eq_iff did d).0 same) ∙ e in
            let one : g ≡ k = cc (q, there) in
            absurd (n (ap (λ (i : ℕ). (m.heap i).owner) (sym one) ∙ o))
        | inr differ ↦ lookup-remove d did m.sessions ∙ rw differ e
      ];
    };
  }

  -- `pop_slot`: the session is retired and leaves its slot
  pub pop_slot-IsSafe :
      (did : String) (g : ℕ)
      → slot m did ≡ some g
      → (m.heap g).owner ≡ owner
      → IsSafe owner m (pop_slot m did g)
  unfolding pop_slot write_session retired
  pop_slot-IsSafe did g q o = record {
    consistent = record {
      slots = λ d k e.
          let k_was = h.slots d k (lookup-remove-some d did m.sessions e) in
          let g_was = h.slots did g q in
          let differ : (did == d) ≡ false = lookup-remove_ne d did m.sessions e in
          let apart : (k == g) ≡ false = ground (arith, eq_iff did d, k_was.device, g_was.device) in
          record {
            allocated = k_was.allocated;
            generation = rw apart k_was.generation;
            device = rw apart k_was.device;
            live = rw apart k_was.live;
          };
      prompts = λ d p e.
          let was = h.prompts d p e in
          record { allocated = was.allocated; owner = ground (arith, was.owner) };
    };
    others = record {
      grows = omega arith;
      objects = λ k l n. rw (other_object owner m k g n o);
      slots = (emptied-IsSafe did g q o).others.slots;
    };
  }

  -- a prompt for a session of the device's owner is recorded
  pub put_prompt-IsSafe :
      (did : String) (p : Pending)
      → IsPrompt m p
      → IsSafe owner m (record m { pending = insert did p m.pending })
  put_prompt-IsSafe did p k = record {
    consistent = record {
      slots = λ d g q.
          let was = h.slots d g q in
          record {
            allocated = was.allocated;
            generation = was.generation;
            device = was.device;
            live = was.live;
          };
      prompts = λ d p' q. elim (Bool-cases (did == d)) [
        | inl same ↦
            let e : p ≡ p' = ground (arith, lookup-insert d did p m.pending) in
            subst (λ (r : Pending). IsPrompt (record m { pending = insert did p m.pending }) r) e
              (record { allocated = k.allocated; owner = k.owner })
        | inr differ ↦
            let e : lookup d m.pending ≡ some p' =
              ground (arith, lookup-insert d did p m.pending) in
            let was = h.prompts d p' e in record { allocated = was.allocated; owner = was.owner }
      ];
    };
    others = record { grows = omega arith; objects = λ g l n. refl; slots = λ d g l q n. q };
  }

wiped_same : (s : Session) → SameSession s (wiped s)
unfolding wiped
wiped_same s = record { generation = refl; device = refl; owner = refl; live = λ n. n }

module _ (owner : String) (m : Manager) (h : IsConsistent m) where
  pub do_effect-IsSafe : (e : Effect) → IsSafe owner m (do_effect m e)
  unfolding do_effect
  do_effect-IsSafe e = other-IsSafe owner m h m.activity (m.effects ++ e ∷ [])

  pub log-IsSafe :
      (did : String) (text : LogText) (o : Option String) (gen : Option ℕ)
      → IsSafe owner m (log m did text o gen)
  unfolding log
  log-IsSafe did text o gen = do_effect-IsSafe (push (ssh_log did text (owner_or_slot m did o) gen))

  pub status-IsSafe :
      (did : String) (state : StatusState) (o : Option String) (gen : Option ℕ)
      → IsSafe owner m (status m did state o gen)
  unfolding status
  status-IsSafe did state o gen =
      do_effect-IsSafe (push (ssh_status did state (owner_or_slot m did o) gen))

  pub lock-IsSafe :
      (did : String) (locked : Bool) (gen : Option ℕ) → IsSafe owner m (lock m did locked gen)
  unfolding lock
  lock-IsSafe did locked gen = do_effect-IsSafe (push (ssh_lock did locked gen))

  wiped-IsSafe :
      (e : Dict String Activity) (f : List Effect) (g : ℕ)
      → (m.heap g).owner ≡ owner
      → IsSafe owner m (write_session (record m { activity = e; effects = f }) g (wiped (m.heap g)))
  wiped-IsSafe e f g o =
      let one = other-IsSafe owner m h e f in
      IsSafe-trans m (record m { activity = e; effects = f }) _ one
        (write_session-IsSafe owner (record m { activity = e; effects = f }) one.consistent g
          (wiped (m.heap g)) o (wiped_same (m.heap g)))

  pub close_session-IsSafe : (g : ℕ) → (m.heap g).owner ≡ owner → IsSafe owner m (close_session m g)
  unfolding close_session
  close_session-IsSafe g o =
      if_elim (λ (x : Manager). IsSafe owner m (write_session x g (wiped (m.heap g))))
        (m.heap g).client _ _ (λ _. wiped-IsSafe m.activity (m.effects ++ close_client g ∷ []) g o)
        λ _. wiped-IsSafe m.activity m.effects g o

-- one safe change after another
pub IsSafe-then :
    {owner : String} (m m1 m2 : Manager)
    → IsSafe owner m m1
    → (IsConsistent m1 → IsSafe owner m1 m2)
    → IsSafe owner m m2
IsSafe-then m m1 m2 p f = IsSafe-trans m m1 m2 p (f p.consistent)
