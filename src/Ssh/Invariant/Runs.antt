-- ===== src/Ssh/Invariant/Runs.antt =====
-- What a browser may do to a run is safe for every other owner.
use mathlib.Core.Option
use simple_network_dashboard.Terminal.Writer
use simple_network_dashboard.Prelude.{
  ℕ, String, ◌≡◌, refl, sym, ◌∙◌, Bool, true, false, not, ◌&&◌, ◌||◌, Option, none, some, List,
  arith, eq_iff, ltb, leb, if_elim, option_elim, is_nil, is_none, string_eq, nat_eq,
}
use simple_network_dashboard.Terminal.Size.{Integer, nonneg, neg, clamp_size}
use simple_network_dashboard.Terminal.Writer.{Writer, interrupt}
use simple_network_dashboard.Ssh.Session.{Session}
use simple_network_dashboard.Ssh.Manager.{
  Effect, close_channel, start_stop_timer, start_worker, Manager, write_session, do_effect, slot,
}
use simple_network_dashboard.Ssh.Commands.{
  strip, is_connected, RunResult, or_custom, run_reserved, not_owned_by, run_command, same_run,
}
use simple_network_dashboard.Ssh.Control.{
  is_own_run, guarded, claim_terminal, InputResult, refused_input, write_input, terminal_input,
  terminal_resize, acknowledged, terminal_ack, CancelResult, cancel_run, cancel,
  request_terminal_redraw,
}
use simple_network_dashboard.Ssh.Invariant.{IsConsistent, SameSession}
use simple_network_dashboard.Ssh.Invariant.Steps.{
  IsSafe, IsSafe-refl, write_session-IsSafe, do_effect-IsSafe, IsSafe-then,
}

module _ (owner : String) (m : Manager) (h : IsConsistent m) where
  -- A guarded method whose test entails ownership, and which then changes nothing but that session
  -- and the effects.
  pub guarded-IsSafe :
      {R : Type 0} (did : String) (test : Session → Bool) (refuse : R)
      (act : ℕ → Session → Manager × R)
      → ((s : Session) → test s ≡ true → s.owner ≡ owner)
      → ((g : ℕ) → (m.heap g).owner ≡ owner → IsSafe owner m (act g (m.heap g)).0)
      → IsSafe owner m (guarded m did test refuse act).0
  unfolding guarded
  guarded-IsSafe {R} did test refuse act mine safe =
      option_elim (λ (r : Manager × R). IsSafe owner m r.0) (slot m did) _ _
        (λ _. IsSafe-refl owner m h)
        λ g q.
          if_elim (λ (r : Manager × R). IsSafe owner m r.0) (test (m.heap g)) _ _
            (λ e. safe g (mine (m.heap g) e)) λ _. IsSafe-refl owner m h

  -- an assignment to fields that the invariant does not read
  pub fields-IsSafe :
      (g : ℕ) (s : Session)
      → (m.heap g).owner ≡ owner
      → s.generation ≡ (m.heap g).generation
      → s.device_id ≡ (m.heap g).device_id
      → s.owner ≡ (m.heap g).owner
      → s.state ≡ (m.heap g).state
      → IsSafe owner m (write_session m g s)
  fields-IsSafe g s o a b c d =
      write_session-IsSafe owner m h g s o
        (record { generation = a; device = b; owner = c; live = λ n e. n (sym d ∙ e) })

is_own_run_owner :
    (s : Session) (run_id : Option String) (owner : String)
    → is_own_run s run_id owner ≡ true
    → s.owner ≡ owner
unfolding is_own_run
is_own_run_owner s run_id owner h = ground (arith, eq_iff s.owner owner)

pub not_owned_by_owner :
    (owner other : String) → not_owned_by (some owner) other ≡ false → other ≡ owner
unfolding not_owned_by
not_owned_by_owner owner other e = ground (arith, eq_iff other owner)

acknowledged_same : (s : Session) (seq now : ℕ) → SameSession s (acknowledged s seq now)
unfolding acknowledged
acknowledged_same s seq now =
    if_elim (SameSession s) (ltb s.sent_seq seq || leb seq s.acked_seq) _ _
      (λ _. record { generation = refl; device = refl; owner = refl; live = λ n. n })
      λ _. record { generation = refl; device = refl; owner = refl; live = λ n. n }

module _ (owner : String) (m : Manager) (h : IsConsistent m) (did : String) where
  pub run_command-IsSafe :
      (raw_cmd : List ℕ) (label : Option String) (cols rows : Option Integer) (run_id : String)
      (now : ℕ)
      → IsSafe owner m (run_command m did raw_cmd label (some owner) cols rows run_id now).0
  unfolding run_command run_reserved
  run_command-IsSafe raw_cmd label cols rows run_id now =
      let P : Manager × RunResult → Type 0 = λ r. IsSafe owner m r.0 in
      let same = IsSafe-refl owner m h in
      option_elim P (slot m did) _ _ (λ _. same)
        λ g q.
          if_elim P (not (is_connected (m.heap g).state)) _ _ (λ _. same)
            λ _.
              if_elim P (not_owned_by (some owner) (m.heap g).owner) _ _ (λ _. same)
                λ e.
                  if_elim P (is_nil (strip raw_cmd)) _ _ (λ _. same)
                    λ _.
                      if_elim P (m.heap g).busy _ _ (λ _. same)
                        λ _.
                          let o = not_owned_by_owner owner (m.heap g).owner e in
                          let s' =
                            run_reserved (m.heap g) (or_custom label) run_id (clamp_size cols rows)
                              now in
                          let m1 = write_session m g s' in
                          IsSafe-then m m1 _ (fields-IsSafe owner m h g s' o refl refl refl refl)
                            λ h1. do_effect-IsSafe owner m1 h1 (start_worker g run_id)

  pub claim_terminal-IsSafe :
      (run_id : Option String) (socket_id : String)
      → IsSafe owner m (claim_terminal m did run_id owner socket_id).0
  unfolding claim_terminal
  claim_terminal-IsSafe run_id socket_id =
      guarded-IsSafe owner m h did _ none _ (λ s e. is_own_run_owner s run_id owner e)
        λ g o. fields-IsSafe owner m h g _ o refl refl refl refl

  write_input-IsSafe :
      (g : ℕ) (text : List ℕ) (now : ℕ) (w : Option Writer)
      → (m.heap g).owner ≡ owner
      → IsSafe owner m (write_input m g (m.heap g) text now w).0
  unfolding write_input
  write_input-IsSafe g text now none o = IsSafe-refl owner m h
  write_input-IsSafe g text now (some w) o =
      if_elim (λ (r : Manager × InputResult). IsSafe owner m r.0) (Writer.input w text).1 _ _
        (λ _. fields-IsSafe owner m h g _ o refl refl refl refl) λ _. IsSafe-refl owner m h

  -- the test of `terminal_input` and `terminal_resize`
  pub terminal_input-IsSafe :
      (run_id : Option String) (rev : ℕ) (text : Option (List ℕ)) (socket_id : String) (now : ℕ)
      → IsSafe owner m (terminal_input m did run_id rev text owner socket_id now).0
  unfolding terminal_input
  terminal_input-IsSafe run_id rev none socket_id now = IsSafe-refl owner m h
  terminal_input-IsSafe run_id rev (some text) socket_id now =
      guarded-IsSafe owner m h did _ refused_input _
        (λ s e. is_own_run_owner s run_id owner (ground (arith, e)))
        λ g o. write_input-IsSafe g text now (m.heap g).writer o

  pub terminal_resize-IsSafe :
      (run_id : Option String) (rev : ℕ) (cols rows : Option Integer) (socket_id : String)
      → IsSafe owner m (terminal_resize m did run_id rev cols rows owner socket_id).0
  unfolding terminal_resize
  terminal_resize-IsSafe run_id rev none rows socket_id = IsSafe-refl owner m h
  terminal_resize-IsSafe run_id rev (some cols) none socket_id = IsSafe-refl owner m h
  terminal_resize-IsSafe run_id rev (some cols) (some rows) socket_id =
      guarded-IsSafe owner m h did _ false _
        (λ s e. is_own_run_owner s run_id owner (ground (arith, e)))
        λ g o. fields-IsSafe owner m h g _ o refl refl refl refl

  pub terminal_ack-IsSafe :
      (run_id : Option String) (seq : Option Integer) (now : ℕ)
      → IsSafe owner m (terminal_ack m did run_id seq owner now)
  unfolding terminal_ack
  terminal_ack-IsSafe run_id none now = IsSafe-refl owner m h
  terminal_ack-IsSafe run_id (some (neg n)) now = IsSafe-refl owner m h
  terminal_ack-IsSafe run_id (some (nonneg seq)) now =
      guarded-IsSafe owner m h did _ tt _ (λ s e. is_own_run_owner s run_id owner e)
        λ g o. write_session-IsSafe owner m h g _ o (acknowledged_same (m.heap g) seq now)

  pub request_terminal_redraw-IsSafe :
      (run_id : Option String) → IsSafe owner m (request_terminal_redraw m did run_id owner).0
  unfolding request_terminal_redraw
  request_terminal_redraw-IsSafe run_id =
      guarded-IsSafe owner m h did _ false _ (λ s e. ground (arith, eq_iff s.owner owner))
        λ g o. fields-IsSafe owner m h g _ o refl refl refl refl

  cancel_run-IsSafe :
      (run_id : Option String) (g : ℕ) (channel : Option ℕ)
      → (m.heap g).owner ≡ owner
      → IsSafe owner m (
          cancel_run m did run_id g
            (record (m.heap g) { cancelled = true; cancel_requested = true })
            channel)
  unfolding cancel_run
  cancel_run-IsSafe run_id g none o = fields-IsSafe owner m h g _ o refl refl refl refl
  cancel_run-IsSafe run_id g (some channel) o =
      let s = record (m.heap g) { cancelled = true; cancel_requested = true } in
      let forced = record s { forced = true } in
      let asked = record s { writer = Option.map Writer.interrupt s.writer; stop_timer = true } in
      let ready = s.auth_complete && not (is_none s.writer) in
      let then_do = λ (s' : Session) (e : Effect) (safe : IsSafe owner m (write_session m g s')).
        IsSafe-then m (write_session m g s') (do_effect (write_session m g s') e) safe
          λ h1. do_effect-IsSafe owner (write_session m g s') h1 e in
      if_elim (IsSafe owner m) (ready && s.stop_timer) _ _
        (λ _.
          then_do forced (close_channel channel)
            (fields-IsSafe owner m h g forced o refl refl refl refl))
        λ _.
          if_elim (IsSafe owner m) ready _ _
            (λ _.
              then_do asked (start_stop_timer did g run_id channel)
                (fields-IsSafe owner m h g asked o refl refl refl refl))
            λ _.
              then_do s (close_channel channel) (fields-IsSafe owner m h g s o refl refl refl refl)

  -- `cancel` of an owner's own run
  pub cancel-IsSafe : (run_id : Option String) → IsSafe owner m (cancel m did run_id (some owner)).0
  unfolding cancel guarded
  cancel-IsSafe run_id =
      let P : Manager × CancelResult → Type 0 = λ r. IsSafe owner m r.0 in
      option_elim P (slot m did) _ _ (λ _. IsSafe-refl owner m h)
        λ g q.
          if_elim P ((m.heap g).busy && same_run (m.heap g).run_id run_id) _ _
            (λ _.
              if_elim P (not_owned_by (some owner) (m.heap g).owner) _ _
                (λ _. IsSafe-refl owner m h)
                λ e.
                  cancel_run-IsSafe run_id g (m.heap g).channel
                    (not_owned_by_owner owner (m.heap g).owner e))
            λ _. IsSafe-refl owner m h
