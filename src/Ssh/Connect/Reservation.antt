-- ===== src/Ssh/Connect/Reservation.antt =====
-- An owner that connects again to its device replaces its session; the old connect, if it is still
-- under way, can then do no harm.
use simple_network_dashboard.Prelude.{
  ℕ, ◌+◌, ◌≤◌, String, ◌≡◌, refl, true, false, Option, some, arith, eq_iff, if◌then◌else◌,
  nat_beq_iff, if_elim, ◌==◌, nat_eq, string_eq, lookup-insert, ==_refl,
}
use simple_network_dashboard.Device.{Device}
use simple_network_dashboard.Ssh.Session.{new_session, retired}
use simple_network_dashboard.Ssh.Manager.{
  Message, close_client, Manager, write_session, do_effect, slot, is_current, session_in,
  close_session, stamp_of, is_delivered,
}
use simple_network_dashboard.Ssh.Connect.{
  reserved, holds_slot, place, reserve, Outcome, connects, unknown_host_key, bad_host_key,
  authentication_failed, hosts_unreadable, fails, Connected, superseded, ask_for_key, give_up,
  complete, finish,
}

fresh_apart : (old c : ℕ) → old ≤ c → (c + 1 == old) ≡ false
fresh_apart old c h = ground arith

-- whatever holds a slot is replaced by the same owner's `connect`
module _ (m : Manager) (did password owner : String) (device : Device) (now old : ℕ)
    (there : slot m did ≡ some old) (allocated : old ≤ m.gen_counter)
    (live : holds_slot (m.heap old).state ≡ true) (mine : (m.heap old).owner ≡ owner) where
  reserve_again : reserve m did password device owner now ≡ (
    place (write_session m old (retired (m.heap old))) did password device owner now,
    reserved (m.gen_counter + 1) (some old),
  )
  unfolding reserve
  reserve_again =
      let same : ((m.heap old).owner == owner) ≡ true = (eq_iff (m.heap old).owner owner).1 mine in
      rw (there, reserve) (rw (live, same))

-- what a connect that lost its slot leaves alone
pub record IsHarmless (m m' : Manager) : Type 0 where
  pub slots : m'.sessions ≡ m.sessions
  pub prompts : m'.pending ≡ m.pending

module _ (m : Manager) (did : String) (g : ℕ) (lost : is_current m did g ≡ false) where
  close_session-IsHarmless : (x : Manager) (k : ℕ) → IsHarmless x (close_session x k)
  unfolding close_session write_session do_effect
  close_session-IsHarmless x k =
      let P = λ (y : Manager). (y.sessions ≡ x.sessions) × (y.pending ≡ x.pending) in
      let both : P (if (x.heap k).client then do_effect x (close_client k) else x) =
        if_elim P (x.heap k).client _ _ (λ _. (refl, refl)) λ _. (refl, refl) in
      record { slots = both.0; prompts = both.1 }

  complete_lost :
      (now : ℕ) → IsHarmless m (complete m did g now).0 × ((complete m did g now).1 ≡ superseded)
  unfolding complete write_session
  complete_lost now =
      let m1 = write_session m g (record (m.heap g) { client = true }) in
      let r = close_session-IsHarmless m1 g in
      if_elim (λ (r : Manager × Connected). IsHarmless m r.0 × (r.1 ≡ superseded))
        (is_current m did g) _ _ (λ e. absurd (cc (e, lost)))
        λ _. (record { slots = r.slots; prompts = r.prompts }, refl)

  finish_lost :
      (old : Option ℕ) (answer : Outcome) (code : String) (now : ℕ)
      → IsHarmless m (finish m did g old answer code now).0
        × (answer ≡ connects → (finish m did g old answer code now).1 ≡ superseded)
  unfolding finish ask_for_key give_up
  finish_lost old connects code now = let (a, b) = complete_lost now in (a, λ _. b)
  finish_lost old (unknown_host_key host key) code now =
      (rw lost (record { slots = refl; prompts = refl }), λ e. cc)
  finish_lost old (bad_host_key key expected) code now =
      (rw lost (record { slots = refl; prompts = refl }), λ e. cc)
  finish_lost old authentication_failed code now =
      (rw lost (record { slots = refl; prompts = refl }), λ e. cc)
  finish_lost old hosts_unreadable code now =
      (rw lost (record { slots = refl; prompts = refl }), λ e. cc)
  finish_lost old (fails e) code now = (rw lost (record { slots = refl; prompts = refl }), λ e. cc)

slot-place :
    (m : Manager) (did password : String) (device : Device) (owner : String) (now : ℕ)
    → slot (place m did password device owner now) did ≡ some (m.gen_counter + 1)
unfolding place write_session
slot-place m did password device owner now =
    ground (arith, lookup-insert did did (m.gen_counter + 1) m.sessions, ==_refl did)

placed_generation :
    (m : Manager) (did password : String) (device : Device) (owner : String) (now : ℕ)
    → ((place m did password device owner now).heap (m.gen_counter + 1)).generation
      ≡ m.gen_counter + 1
unfolding place write_session new_session
placed_generation m did password device owner now =
    rw (nat_beq_iff (m.gen_counter + 1) (m.gen_counter + 1)).1 refl

-- a message stamped with another generation than the one in the slot is dropped
not_delivered :
    (m : Manager) (msg : Message) (did : String) (g old : ℕ)
    → stamp_of msg ≡ some (did, old)
    → slot m did ≡ some g
    → (m.heap g).generation ≡ g
    → (g == old) ≡ false
    → is_delivered m msg ≡ false
unfolding is_delivered session_in
not_delivered m msg did g old s q e n = rw (s, is_delivered) (rw q (rw e n))

not_current :
    (m : Manager) (did : String) (g old : ℕ)
    → slot m did ≡ some g
    → (g == old) ≡ false
    → is_current m did old ≡ false
unfolding is_current
not_current m did g old q n = rw (q, is_current) n

-- The session `g` holds the slot. Whatever the network then answers to the connect of the session
-- `old`, the slots and the prompts stay as they are, and if it comes through it is told that it was
-- superseded; and messages stamped with `old` are not delivered.
pub record IsSuperseded (m : Manager) (did : String) (g old : ℕ) : Type 0 where
  pub holds : slot m did ≡ some g
  pub harmless :
      (earlier : Option ℕ) (answer : Outcome) (code : String) (later : ℕ)
      → IsHarmless m (finish m did old earlier answer code later).0
        × (answer ≡ connects → (finish m did old earlier answer code later).1 ≡ superseded)
  pub dropped : (msg : Message) → stamp_of msg ≡ some (did, old) → is_delivered m msg ≡ false

placed-IsSuperseded :
    (m : Manager) (did password : String) (device : Device) (owner : String) (now old : ℕ)
    → old ≤ m.gen_counter
    → IsSuperseded (place m did password device owner now) did (m.gen_counter + 1) old
placed-IsSuperseded m did password device owner now old allocated =
    let m' = place m did password device owner now in
    let apart = fresh_apart old m.gen_counter allocated in
    let there = slot-place m did password device owner now in
    record {
      holds = there;
      harmless = λ earlier answer code later.
          finish_lost m' did old (not_current m' did (m.gen_counter + 1) old there apart) earlier
            answer code later;
      dropped = λ msg s.
          not_delivered m' msg did (m.gen_counter + 1) old s there
            (placed_generation m did password device owner now) apart;
    }

module _ (m : Manager) (did password owner : String) (device : Device) (now old : ℕ) where
  -- When an owner connects to a device whose slot a live session of its own holds, drawn from the
  -- counter, the new session takes the slot. Whatever the network then answers to the old session's
  -- connect, slots and prompts stay as they are, and if it came through it is told that it was
  -- superseded; and messages stamped with the old session's generation are not delivered.
  pub reserve-IsSuperseded :
      slot m did ≡ some old
      → old ≤ m.gen_counter
      → holds_slot (m.heap old).state ≡ true
      → (m.heap old).owner ≡ owner
      → IsSuperseded (reserve m did password device owner now).0 did (m.gen_counter + 1) old
  unfolding write_session
  reserve-IsSuperseded there allocated live mine =
      let m1 = write_session m old (retired (m.heap old)) in
      rw (reserve_again m did password owner device now old there allocated live mine)
        (placed-IsSuperseded m1 did password device owner now old allocated)
