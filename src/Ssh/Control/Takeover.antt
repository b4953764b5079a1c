-- ===== src/Ssh/Control/Takeover.antt =====
-- Only one browser tab writes to a run: the last one that claimed its terminal.
use mathlib.Core.Option
use simple_network_dashboard.Terminal.Writer
use simple_network_dashboard.Prelude.{
  ℕ, ◌+◌, String, ◌≡◌, refl, sym, subst, ◌≢◌, ◌⊎◌, inl, inr, false, Option, none, some, List, arith,
  eq_iff, nat_beq_iff, Bool-cases, Option-cases, nat_eq, string_eq, ==_refl,
}
use simple_network_dashboard.Ssh.Session.{Session}
use simple_network_dashboard.Ssh.Manager.{Manager, write_session, slot}
use simple_network_dashboard.Ssh.Control.{
  is_own_run, guarded, claim_terminal, controls, refused_input, terminal_input,
}
use simple_network_dashboard.Ssh.Commands.{same_run}

-- the session that a claim leaves
abbrev claimed : Session → String → Session
claimed s socket_id = record s {
  controller = some socket_id;
  control_rev = s.control_rev + 1;
  writer = Option.map Writer.clear_input s.writer;
}

claim_terminal-some :
    (m : Manager) (did : String) (run_id : Option String) (owner socket_id : String) (rev : ℕ)
    → (claim_terminal m did run_id owner socket_id).1 ≡ some rev
    → (g : ℕ) × (slot m did ≡ some g)
      × (rev ≡ (m.heap g).control_rev + 1)
      × ((claim_terminal m did run_id owner socket_id).0
          ≡ write_session m g (claimed (m.heap g) socket_id))
unfolding claim_terminal guarded
claim_terminal-some m did run_id owner socket_id rev e = elim (Option-cases (slot m did)) [
  | inl q ↦ absurd (ground (arith, q, e))
  | inr (g, q) ↦ elim (Bool-cases (is_own_run (m.heap g) run_id owner)) [
    | inl good ↦ (g, q, ground (arith, q, good, e), ground (arith, q, good))
    | inr bad ↦ absurd (ground (arith, q, bad, e))
  ]
]

-- another revision, or another socket, does not control the session
stale_controls :
    (s : Session) (socket_id other : String) (rev : ℕ)
    → (rev ≢ s.control_rev + 1) ⊎ (other ≢ socket_id)
    → controls (claimed s socket_id) rev other ≡ false
unfolding controls same_run
stale_controls s socket_id other rev (inl n) = ground (arith, nat_beq_iff (s.control_rev + 1) rev)
stale_controls s socket_id other rev (inr n) = ground (arith, eq_iff socket_id other)

input_refused :
    (m : Manager) (did : String) (g : ℕ) (run_id : Option String) (rev : ℕ) (text : Option (List ℕ))
    (owner socket_id : String) (now : ℕ)
    → slot m did ≡ some g
    → controls (m.heap g) rev socket_id ≡ false
    → terminal_input m did run_id rev text owner socket_id now ≡ (m, refused_input)
unfolding terminal_input guarded
input_refused m did g run_id rev none owner socket_id now q e = refl
input_refused m did g run_id rev (some text) owner socket_id now q e = ground (arith, q, e)

written : (m : Manager) (g : ℕ) (s : Session) → (write_session m g s).heap g ≡ s
unfolding write_session
written m g s = ground (arith, ==_refl g)

module _ (m : Manager) (did : String) (run_id : Option String) (owner socket_id : String) (rev : ℕ)
    (claims : (claim_terminal m did run_id owner socket_id).1 ≡ some rev) where
  -- Once a tab has claimed the terminal of a run, input for that device that names another revision
  -- than the one given out, or that comes from another tab, is refused and changes nothing, whoever
  -- sends it.
  pub claim_terminal-excludes :
      (run_id' : Option String) (old : ℕ) (text : Option (List ℕ)) (owner' other : String) (now : ℕ)
      → (old ≢ rev) ⊎ (other ≢ socket_id)
      → terminal_input
          (claim_terminal m did run_id owner socket_id).0
          did
          run_id'
          old
          text
          owner'
          other
          now
        ≡ ((claim_terminal m did run_id owner socket_id).0, refused_input)
  unfolding write_session
  claim_terminal-excludes run_id' old text owner' other now n =
      let (g, q, r, e) = claim_terminal-some m did run_id owner socket_id rev claims in
      let stale = stale_controls (m.heap g) socket_id other old (rw (← r) n) in
      rw e (
        input_refused (write_session m g (claimed (m.heap g) socket_id)) did g run_id' old text
          owner' other now q
          (subst (λ (s : Session). controls s old other ≡ false)
            (sym (written m g (claimed (m.heap g) socket_id))) stale))
