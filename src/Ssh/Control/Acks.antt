-- ===== src/Ssh/Control/Acks.antt =====
-- Acknowledgements of terminal output.
use simple_network_dashboard.Prelude.{
  ℕ, ◌≤◌, ◌<◌, ◌||◌, [], ◌∷◌, arith, ltb, leb, ltb→lt, if_elim, sum_of, All, string_eq, nat_eq,
  Dict,
}
use simple_network_dashboard.Ssh.Session.{Session}
use simple_network_dashboard.Ssh.Control.{forget_sent, acknowledged, unacked}

-- The account of what was sent: nothing is acknowledged before it is sent, and the sizes kept are
-- those of the batches that are sent and not acknowledged.
pub record IsAcked (s : Session) : Type 0 where
  pub order : s.acked_seq ≤ s.sent_seq
  pub waiting : All (λ (e : ℕ × ℕ). (s.acked_seq < e.0) × (e.0 ≤ s.sent_seq)) s.sent_bytes

-- from `s` to `s'` the account only moves on
pub record IsProgress (s s' : Session) : Type 0 where
  pub acked : s.acked_seq ≤ s'.acked_seq
  pub fewer : unacked s' ≤ unacked s

forget_sent-All :
    (low high seq : ℕ) (l : Dict ℕ ℕ)
    → All (λ (e : ℕ × ℕ). (low < e.0) × (e.0 ≤ high)) l
    → All (λ (e : ℕ × ℕ). (seq < e.0) × (e.0 ≤ high)) (forget_sent seq l)
unfolding forget_sent
forget_sent-All low high seq [] h = tt
forget_sent-All low high seq ((k, n) ∷ l) h =
    let rest = forget_sent-All low high seq l h.1 in
    if_elim (All (λ (e : ℕ × ℕ). (seq < e.0) × (e.0 ≤ high))) (ltb seq k) _ _
      (λ e. ((omega (arith, ltb→lt seq k e), h.0.1), rest)) λ _. rest

sum-forget_sent-le :
    (seq : ℕ) (l : Dict ℕ ℕ)
    → sum_of (λ (e : ℕ × ℕ). e.1) (forget_sent seq l) ≤ sum_of (λ (e : ℕ × ℕ). e.1) l
unfolding forget_sent
sum-forget_sent-le seq [] = omega arith
sum-forget_sent-le seq ((k, n) ∷ l) = ground (arith, sum-forget_sent-le seq l)

-- From an account in order, an acknowledgement of whatever number keeps it in order, never takes an
-- acknowledgement back and never adds to what waits for one.
pub acknowledged-IsAcked :
    (s : Session) (seq now : ℕ)
    → IsAcked s
    → IsAcked (acknowledged s seq now) × IsProgress s (acknowledged s seq now)
unfolding acknowledged unacked
acknowledged-IsAcked s seq now h =
    if_elim (λ (r : Session). IsAcked r × IsProgress s r)
      (ltb s.sent_seq seq || leb seq s.acked_seq) _ _
      (λ _. (h, record { acked = omega arith; fewer = omega arith }))
      λ e. (
        record {
          order = ground arith;
          waiting = forget_sent-All s.acked_seq s.sent_seq seq s.sent_bytes h.waiting;
        },
        record { acked = ground arith; fewer = sum-forget_sent-le seq s.sent_bytes },
      )
