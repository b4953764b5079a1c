-- ===== src/Ssh/HostKeys/Prompts.antt =====
-- Who can answer a host-key prompt, when, and how often.
use mathlib.Core.Option
use simple_network_dashboard.Prelude.{
  lookup, remove, ℕ, ◌-◌, ◌≤◌, String, ◌≡◌, refl, sym, ap, subst, ◌≢◌, inl, inr, true, Option, none,
  some, List, [], ◌∷◌, arith, eq_iff, nat_beq_iff, Bool-cases, Option-cases, if_elim, option_elim,
  All, string_eq, nat_eq, Dict, lookup-remove, ==_refl,
}
use simple_network_dashboard.Config.{host_key_pending_seconds}
use simple_network_dashboard.Ssh.Session.{
  SessionState, connecting, connected, host_key_pending, closed, Session,
}
use simple_network_dashboard.Ssh.Manager.{
  Pending, key_approval_failed, Manager, write_session, do_effect, slot, session_in, log, status,
  lock, close_session, clear_pending,
}
use simple_network_dashboard.Ssh.Close.{pop_slot, announce_closed, mismatch, close}
use simple_network_dashboard.Ssh.HostKeys.{
  is_pending, answers, valid_host_key_pending, HostsUpdate, saved, unreadable, failed, Answer,
  expired, finish_trust, trust_host_key, reject_host_key,
}

-- an answer within time, by the owner of the prompt, with its code, to the session that waits for it
pub record IsAnswer (m : Manager) (did code owner : String) (now : ℕ) : Type 0 where
  pub prompt : Pending
  pub recorded : lookup did m.pending ≡ some prompt
  pub asked : ℕ
  pub current : slot m did ≡ some asked
  pub bound : (m.heap asked).generation ≡ prompt.generation
  pub waiting : (m.heap asked).state ≡ host_key_pending
  pub mine : prompt.owner ≡ owner
  pub right_code : prompt.code ≡ code
  pub in_time : now - prompt.created_at ≤ host_key_pending_seconds

is_pending_state : (s : SessionState) → is_pending s ≡ true → s ≡ host_key_pending
unfolding is_pending
is_pending_state host_key_pending e = refl
is_pending_state connecting e = cc
is_pending_state connected e = cc
is_pending_state closed e = cc

answers-some :
    (s : Session) (p : Pending) (code owner : String) (now : ℕ)
    → answers (some s) p code owner now ≡ true
    → (s.generation ≡ p.generation)
      × (is_pending s.state ≡ true)
      × (p.owner ≡ owner)
      × (p.code ≡ code)
      × (now - p.created_at ≤ host_key_pending_seconds)
unfolding answers
answers-some s p code owner now e = (
  ground (arith, nat_beq_iff s.generation p.generation),
  ground (arith, e),
  ground (arith, eq_iff p.owner owner),
  ground (arith, eq_iff p.code code),
  ground (arith, e),
)

module _ (m : Manager) (did code owner : String) (now : ℕ) where
  answers_asked :
      (p : Pending) (o : Option ℕ)
      → lookup did m.pending ≡ some p
      → slot m did ≡ o
      → answers (Option.map m.heap o) p code owner now ≡ true
      → IsAnswer m did code owner now
  answers_asked p none r q e = absurd (unfold answers in cc e)
  answers_asked p (some g) r q e =
      let (same, waits, mine, right, timely) = answers-some (m.heap g) p code owner now e in
      record {
        prompt = p;
        recorded = r;
        asked = g;
        current = q;
        bound = same;
        waiting = is_pending_state (m.heap g).state waits;
        mine = mine;
        right_code = right;
        in_time = timely;
      }

  valid-IsAnswer :
      (p : Pending)
      → valid_host_key_pending m did code owner now ≡ some p
      → IsAnswer m did code owner now
  unfolding valid_host_key_pending session_in
  valid-IsAnswer p h = elim (Option-cases (lookup did m.pending)) [
    | inl e ↦ absurd (ground (arith, e, h))
    | inr (p', e) ↦ elim (Bool-cases (answers (session_in m did) p' code owner now)) [
      | inl good ↦ answers_asked p' (slot m did) e refl good
      | inr bad ↦ absurd (ground (arith, e, bad, h))
    ]
  ]

  -- An approval is heeded only if it comes from the owner of the prompt on record, with its code,
  -- no later than 300 seconds after it was raised, while the session that raised it still holds the
  -- device's slot and waits for the answer.
  pub trust_host_key-IsAnswer :
      (update : HostsUpdate)
      → (trust_host_key m did code owner now update).1 ≢ expired
      → IsAnswer m did code owner now
  unfolding trust_host_key
  trust_host_key-IsAnswer update n =
      elim (Option-cases (valid_host_key_pending m did code owner now)) [
        | inl e ↦ absurd (n (rw (e, trust_host_key)))
        | inr (p, e) ↦ valid-IsAnswer p e
      ]

-- no prompt is on record for the device
abbrev IsUnasked : String → Manager → Type 0
IsUnasked did m = lookup did m.pending ≡ none

module _ (did : String) where
  remove-IsUnasked : (l : Dict String Pending) → lookup did (remove did l) ≡ none
  remove-IsUnasked l = ground (arith, lookup-remove did did l, ==_refl did)

  close-IsUnasked :
      (m : Manager) (sess : Option ℕ) → IsUnasked did m → IsUnasked did (close m did sess)
  unfolding close announce_closed close_session clear_pending log status lock do_effect
      write_session pop_slot
  close-IsUnasked m sess h =
      option_elim (IsUnasked did) (slot m did) _ _ (λ _. h)
        λ g q.
          if_elim (IsUnasked did) (mismatch sess g) _ _ (λ _. h)
            λ _.
              if_elim (λ (x : Manager). lookup did x.pending ≡ none) _ _ _
                (λ _. remove-IsUnasked m.pending) λ _. remove-IsUnasked m.pending

  unasked-invalid :
      (m : Manager) (code owner : String) (now : ℕ)
      → IsUnasked did m
      → valid_host_key_pending m did code owner now ≡ none
  unfolding valid_host_key_pending
  unasked-invalid m code owner now h = rw (h, valid_host_key_pending)

  finish_trust-IsUnasked :
      (m : Manager) (p : Pending) (bound : Option ℕ) (update : HostsUpdate)
      → IsUnasked did m
      → IsUnasked did (finish_trust m did p bound update).0
  unfolding finish_trust log do_effect
  finish_trust-IsUnasked m p bound saved h = h
  finish_trust-IsUnasked m p bound unreadable h =
      close-IsUnasked (log m did key_approval_failed (some p.owner) none) bound h
  finish_trust-IsUnasked m p bound failed h =
      close-IsUnasked (log m did key_approval_failed (some p.owner) none) bound h

  trust-consumes :
      (m : Manager) (code owner : String) (now : ℕ) (update : HostsUpdate) (p : Pending)
      → valid_host_key_pending m did code owner now ≡ some p
      → IsUnasked did (trust_host_key m did code owner now update).0
  unfolding trust_host_key clear_pending
  trust-consumes m code owner now update p e =
      rw (e, trust_host_key)
        (finish_trust-IsUnasked (clear_pending m did) p (slot m did) update
          (remove-IsUnasked m.pending))

-- an answer of a browser to the prompt of a device: code, owner, clock and, to approve, the update
pub data Attempt : Type 0 where
  approves : String → String → ℕ → HostsUpdate → Attempt
  declines : String → String → ℕ → Attempt

pub attempt : Manager → String → Attempt → Manager × Answer
attempt m did (approves code owner now update) = trust_host_key m did code owner now update
attempt m did (declines code owner now) = reject_host_key m did code owner now

-- what a sequence of them is answered
pub attempts : Manager → String → List Attempt → List Answer
attempts m did [] = []
attempts m did (a ∷ rest) = let (m', answer) = attempt m did a in answer ∷ attempts m' did rest

module _ (did : String) where
  unasked-attempt : (m : Manager) (a : Attempt) → IsUnasked did m → attempt m did a ≡ (m, expired)
  unfolding attempt trust_host_key reject_host_key
  unasked-attempt m (approves code owner now update) h =
      let e = unasked-invalid did m code owner now h in rw (e, trust_host_key)
  unasked-attempt m (declines code owner now) h =
      let e = unasked-invalid did m code owner now h in rw (e, reject_host_key)

  unasked-attempts :
      (m : Manager) (l : List Attempt)
      → IsUnasked did m
      → All (λ (x : Answer). x ≡ expired) (attempts m did l)
  unfolding attempts
  unasked-attempts m [] h = tt
  unasked-attempts m (a ∷ l) h =
      let e = unasked-attempt m a h in
      (
        ap (λ (r : Manager × Answer). r.1) e,
        subst (λ (r : Manager × Answer). All (λ (x : Answer). x ≡ expired) (attempts r.0 did l))
            (sym e) (unasked-attempts m l h),
      )

  -- A prompt works once: after an approval that was not answered as expired, saved or not, all the
  -- answers to the prompt that follow, approvals and refusals of any owners with any codes, are
  -- answered as expired, as long as nothing else is done in between that could raise a new prompt.
  pub trust_host_key-once :
      (m : Manager) (code owner : String) (now : ℕ) (update : HostsUpdate) (later : List Attempt)
      → (trust_host_key m did code owner now update).1 ≢ expired
      → All
          (λ (x : Answer). x ≡ expired)
          (attempts (trust_host_key m did code owner now update).0 did later)
  trust_host_key-once m code owner now update later n =
      let h : IsUnasked did (trust_host_key m did code owner now update).0 =
        elim (Option-cases (valid_host_key_pending m did code owner now)) [
          | inl e ↦ absurd (n (unfold trust_host_key in rw (e, trust_host_key)))
          | inr (p, e) ↦ trust-consumes did m code owner now update p e
        ] in
      unasked-attempts (trust_host_key m did code owner now update).0 later h
