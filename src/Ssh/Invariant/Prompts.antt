-- ===== src/Ssh/Invariant/Prompts.antt =====
-- Answers to a host-key prompt are safe for every other owner: only the owner that raised a prompt
-- can answer it, and what a refused answer closes is that owner's session.
use mathlib.Core.Option
use simple_network_dashboard.Prelude.{
  lookup, ℕ, String, ◌≡◌, sym, ap, subst, ◌∙◌, inl, inr, true, false, Option, none, some, arith,
  eq_iff, nat_beq_iff, Bool-cases, Option-cases, option_elim, string_eq, nat_eq,
}
use simple_network_dashboard.Ssh.Session.{Session}
use simple_network_dashboard.Ssh.Manager.{
  Pending, LogText, key_approval_failed, key_declined, save_host_key, Manager, do_effect, slot,
  session_in, log, clear_pending,
}
use simple_network_dashboard.Ssh.Close.{mismatch, close}
use simple_network_dashboard.Ssh.HostKeys.{
  answers, valid_host_key_pending, HostsUpdate, Answer, finish_trust, trust_host_key,
  reject_host_key,
}
use simple_network_dashboard.Ssh.Invariant.{IsConsistent}
use simple_network_dashboard.Ssh.Invariant.Steps.{
  IsSafe, IsSafe-refl, clear_pending-IsSafe, do_effect-IsSafe, log-IsSafe, IsSafe-then,
}
use simple_network_dashboard.Ssh.Invariant.Closing.{close-IsSafe}

-- A prompt that may be answered is the one on record, and the slot holds the session that it names.
pub record IsAnswerable (m : Manager) (did owner : String) (p : Pending) : Type 0 where
  pub recorded : lookup did m.pending ≡ some p
  pub mine : p.owner ≡ owner
  pub bound : (g : ℕ) → slot m did ≡ some g → (m.heap g).generation ≡ p.generation

answers_owner :
    (s : Option Session) (p : Pending) (code owner : String) (now : ℕ)
    → answers s p code owner now ≡ true
    → p.owner ≡ owner
unfolding answers
answers_owner none p code owner now h = cc
answers_owner (some s) p code owner now h = ground (arith, eq_iff p.owner owner)

answers_generation :
    (s : Session) (p : Pending) (code owner : String) (now : ℕ)
    → answers (some s) p code owner now ≡ true
    → s.generation ≡ p.generation
unfolding answers
answers_generation s p code owner now h = ground (arith, nat_beq_iff s.generation p.generation)

pub valid_host_key_pending-IsAnswerable :
    (m : Manager) (did code owner : String) (now : ℕ) (p : Pending)
    → valid_host_key_pending m did code owner now ≡ some p
    → IsAnswerable m did owner p
unfolding valid_host_key_pending session_in
valid_host_key_pending-IsAnswerable m did code owner now p h =
    elim (Option-cases (lookup did m.pending)) [
      | inl e ↦ ground (arith, e, h)
      | inr (p', e) ↦ elim (Bool-cases (answers (session_in m did) p' code owner now)) [
        | inl ok ↦
            let same : p' ≡ p = ground (arith, e, ok, h) in
            record {
              recorded = e ∙ ap some same;
              mine =
                  ap (λ (q : Pending). q.owner) (sym same)
                  ∙ answers_owner (session_in m did) p' code owner now ok;
              bound = λ g q.
                  answers_generation (m.heap g) p' code owner now (
                    subst (λ (s : Option Session). answers s p' code owner now ≡ true)
                      (ap (Option.map m.heap) q) ok)
                  ∙ ap (λ (r : Pending). r.generation) same;
            }
        | inr bad ↦ ground (arith, e, bad, h)
      ]
    ]

module _ (m : Manager) (h : IsConsistent m) (did owner : String) (p : Pending)
    (a : IsAnswerable m did owner p) where
  -- the session in the slot is the owner's
  pub asked_owner : (g : ℕ) → slot m did ≡ some g → (m.heap g).owner ≡ owner
  asked_owner g q =
      let same : g ≡ p.generation = sym (h.slots did g q).generation ∙ a.bound g q in
      ap (λ (i : ℕ). (m.heap i).owner) same ∙ (h.prompts did p a.recorded).owner ∙ a.mine

  close_asked-IsSafe :
      (text : LogText)
      → IsSafe owner m
          (close (log (clear_pending m did) did text (some p.owner) none) did (slot m did))
  unfolding log do_effect clear_pending
  close_asked-IsSafe text =
      let m1 = clear_pending m did in
      let m2 = log m1 did text (some p.owner) none in
      IsSafe-then m m1 _ (clear_pending-IsSafe owner m h did) λ h1.
        IsSafe-then m1 m2 _ (log-IsSafe owner m1 h1 did text (some p.owner) none)
          λ h2. close-IsSafe owner m2 h2 did (slot m did) λ g q _. asked_owner g q

-- the part of an approval after the locked section
pub finish_trust-IsSafe :
    (owner : String) (m : Manager) (h : IsConsistent m) (did : String) (p : Pending)
    (bound : Option ℕ) (update : HostsUpdate)
    → ((g : ℕ) → slot m did ≡ some g → mismatch bound g ≡ false → (m.heap g).owner ≡ owner)
    → IsSafe owner m (finish_trust m did p bound update).0
unfolding finish_trust log do_effect
finish_trust-IsSafe owner m h did p bound HostsUpdate.saved f =
    do_effect-IsSafe owner m h (save_host_key p.host p.key)
finish_trust-IsSafe owner m h did p bound HostsUpdate.unreadable f =
    let m1 = log m did key_approval_failed (some p.owner) none in
    IsSafe-then m m1 _ (log-IsSafe owner m h did key_approval_failed (some p.owner) none)
      λ h1. close-IsSafe owner m1 h1 did bound f
finish_trust-IsSafe owner m h did p bound HostsUpdate.failed f =
    let m1 = log m did key_approval_failed (some p.owner) none in
    IsSafe-then m m1 _ (log-IsSafe owner m h did key_approval_failed (some p.owner) none)
      λ h1. close-IsSafe owner m1 h1 did bound f

module _ (owner : String) (m : Manager) (h : IsConsistent m) (did code : String) (now : ℕ) where
  pub trust_host_key-IsSafe :
      (update : HostsUpdate) → IsSafe owner m (trust_host_key m did code owner now update).0
  unfolding trust_host_key clear_pending
  trust_host_key-IsSafe update =
      let P : Manager × Answer → Type 0 = λ r. IsSafe owner m r.0 in
      option_elim P (valid_host_key_pending m did code owner now) _ _ (λ _. IsSafe-refl owner m h)
        λ p q.
          let a = valid_host_key_pending-IsAnswerable m did code owner now p q in
          let m1 = clear_pending m did in
          IsSafe-then m m1 _ (clear_pending-IsSafe owner m h did) λ h1.
            finish_trust-IsSafe owner m1 h1 did p (slot m did) update
              λ g e _. asked_owner m h did owner p a g e

  pub reject_host_key-IsSafe : IsSafe owner m (reject_host_key m did code owner now).0
  unfolding reject_host_key
  reject_host_key-IsSafe =
      option_elim (λ (r : Manager × Answer). IsSafe owner m r.0)
        (valid_host_key_pending m did code owner now) _ _ (λ _. IsSafe-refl owner m h)
        λ p q.
          close_asked-IsSafe m h did owner p
            (valid_host_key_pending-IsAnswerable m did code owner now p q) key_declined
