-- ===== src/Ssh/Invariant.antt =====
-- What holds of the SSH manager between any two locked sections, and of every session that is not
-- the acting owner's. The operations' lemmas are in the children.
pub mod Steps
pub mod Closing
pub mod Connecting
pub mod Prompts
pub mod Runs
pub mod Workers
pub mod Batches
pub mod Unowned
pub mod Requests
use simple_network_dashboard.Prelude.{
  lookup, remove, ℕ, ◌≤◌, String, ◌≡◌, ◌≢◌, some, List, arith, string_eq, nat_eq, Dict,
  lookup-remove-some,
}
use simple_network_dashboard.Ssh.Session.{closed, Session}
use simple_network_dashboard.Ssh.Manager.{
  Pending, Activity, Effect, Manager, write_session, slot, clear_pending, new_manager,
}

-- the session in a slot is a live one of that device, drawn from the counter
pub record IsSlot (m : Manager) (did : String) (g : ℕ) : Type 0 where
  pub allocated : g ≤ m.gen_counter
  pub generation : (m.heap g).generation ≡ g
  pub device : (m.heap g).device_id ≡ did
  pub live : (m.heap g).state ≢ closed

-- a prompt belongs to the owner of the session that raised it
pub record IsPrompt (m : Manager) (p : Pending) : Type 0 where
  pub allocated : p.generation ≤ m.gen_counter
  pub owner : (m.heap p.generation).owner ≡ p.owner

pub record IsConsistent (m : Manager) : Type 0 where
  pub slots : (did : String) (g : ℕ) → slot m did ≡ some g → IsSlot m did g
  pub prompts : (did : String) (p : Pending) → lookup did m.pending ≡ some p → IsPrompt m p

-- From `m` to `m'` nothing happens to sessions of other owners: the objects are unchanged and stay
-- in their slots.
pub record KeepsOthers (owner : String) (m m' : Manager) : Type 0 where
  pub grows : m.gen_counter ≤ m'.gen_counter
  pub objects : (g : ℕ) → g ≤ m.gen_counter → (m.heap g).owner ≢ owner → m'.heap g ≡ m.heap g
  pub slots :
      (did : String) (g : ℕ)
      → g ≤ m.gen_counter
      → slot m did ≡ some g
      → (m.heap g).owner ≢ owner
      → slot m' did ≡ some g

pub new_manager-IsConsistent : IsConsistent new_manager
unfolding lookup
new_manager-IsConsistent = record { slots = λ did g e. cc; prompts = λ did p e. cc }

-- the new session agrees with the old one in what the invariant reads
pub record SameSession (s s' : Session) : Type 0 where
  pub generation : s'.generation ≡ s.generation
  pub device : s'.device_id ≡ s.device_id
  pub owner : s'.owner ≡ s.owner
  pub live : s.state ≢ closed → s'.state ≢ closed

module _ (m : Manager) (h : IsConsistent m) where
  -- only the slots, the objects, the counter and the prompts matter
  pub IsConsistent-other :
      (a : Dict String Activity) (e : List Effect)
      → IsConsistent (record m { activity = a; effects = e })
  IsConsistent-other a e = record {
    slots = λ did g q.
        let k = h.slots did g q in
        record {
          allocated = k.allocated;
          generation = k.generation;
          device = k.device;
          live = k.live;
        };
    prompts =
        λ did p q. let k = h.prompts did p q in record { allocated = k.allocated; owner = k.owner };
  }

  pub write_session-IsConsistent :
      (g : ℕ) (s : Session) → SameSession (m.heap g) s → IsConsistent (write_session m g s)
  unfolding write_session
  write_session-IsConsistent g s e = record {
    slots = λ did k q.
        let old = h.slots did k q in
        record {
          allocated = old.allocated;
          generation = ground (arith, old.generation, e.generation);
          device = ground (arith, old.device, e.device);
          live = ground (arith, old.live, e.live);
        };
    prompts = λ did p q.
        let old = h.prompts did p q in
        record { allocated = old.allocated; owner = ground (arith, old.owner, e.owner) };
  }

  pub clear_pending-IsConsistent : (did : String) → IsConsistent (clear_pending m did)
  unfolding clear_pending
  clear_pending-IsConsistent did = record {
    slots = λ d g q.
        let k = h.slots d g q in
        record {
          allocated = k.allocated;
          generation = k.generation;
          device = k.device;
          live = k.live;
        };
    prompts = λ d p q.
        let k = h.prompts d p (lookup-remove-some d did m.pending q) in
        record { allocated = k.allocated; owner = k.owner };
  }

  pub emptied-IsConsistent :
      (did : String) → IsConsistent (record m { sessions = remove did m.sessions })
  emptied-IsConsistent did = record {
    slots = λ d g q.
        let k = h.slots d g (lookup-remove-some d did m.sessions q) in
        record {
          allocated = k.allocated;
          generation = k.generation;
          device = k.device;
          live = k.live;
        };
    prompts =
        λ d p q. let k = h.prompts d p q in record { allocated = k.allocated; owner = k.owner };
  }
