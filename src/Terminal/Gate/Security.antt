-- ===== src/Terminal/Gate/Security.antt =====
-- What the gate promises: it always answers, it asks for the password once, and it shows nothing
-- of what came before the marker.
use simple_network_dashboard.Prelude.{
  ℕ, suc, ◌+◌, ◌≤◌, ◌≡◌, refl, ◌≢◌, inl, inr, Bool, true, false, Option, none, some, List, [], ◌∷◌,
  ◌++◌, arith, if◌then◌else◌, Bool-cases, length, drop,
}
use simple_network_dashboard.Terminal.Gate.{
  Gate, GateEvent, Found, nothing, at_mark, at_phrase, act, scan, feed, feed_all,
}

abbrev pub Returns : (Gate → GateEvent → Type 0) → Option (Gate × GateEvent) → Type 0
Returns P none = ⊥
Returns P (some (g, e)) = P g e

Returns-if :
    (P : Gate → GateEvent → Type 0) (t : Bool) (x y : Option (Gate × GateEvent))
    → (t ≡ true → Returns P x)
    → (t ≡ false → Returns P y)
    → Returns P (if t then x else y)
Returns-if P true x y hx hy = hx refl
Returns-if P false x y hx hy = hy refl

pub Returns-inv :
    (P : Gate → GateEvent → Type 0) (o : Option (Gate × GateEvent))
    → Returns P o
    → (g : Gate) × (e : GateEvent) × (o ≡ some (g, e)) × P g e
Returns-inv P none h = absurd h
Returns-inv P (some (g, e)) h = (g, e, refl, h)

-- what holds after the loop, for a gate that was open before it
record Outcome (g : Gate) (g' : Gate) (e : GateEvent) : Type 0 where
  phrase : g'.phrase ≡ g.phrase
  mark : g'.mark ≡ g.mark
  told : e.refused ≡ g'.refused
  silent : e.output ≢ [] → g'.passed ≡ true
  exclusive : g'.passed ≡ true → g'.refused ≡ false

record OutcomeAsked (sent : Bool) (g : Gate) (g' : Gate) (e : GateEvent) : Type 0 where
  outcome : Outcome g g' e
  asked : g'.asked ≡ true
  sent_kept : e.send_password ≡ sent

record OutcomeFresh (g : Gate) (g' : Gate) (e : GateEvent) : Type 0 where
  outcome : Outcome g g' e
  asked : e.send_password ≡ g'.asked

module _ (g : Gate) (p : g.passed ≡ false) (r : g.refused ≡ false) where
  act_asked :
      (f : Found) (buf : List ℕ) (sent : Bool) (again : Gate → List ℕ → Option (Gate × GateEvent))
      → g.asked ≡ true
      → Returns (OutcomeAsked sent g) (act f g buf sent again)
  unfolding act
  act_asked nothing buf sent again a = ground arith
  act_asked (at_mark n) buf sent again a = ground arith
  act_asked (at_phrase n) buf sent again a = rw a (ground arith)

  scan_asked :
      (fuel : ℕ) (buf : List ℕ) (sent : Bool)
      → g.asked ≡ true
      → Returns (OutcomeAsked sent g) (scan (suc fuel) g buf sent)
  unfolding scan
  scan_asked fuel [] sent a = ground arith
  scan_asked fuel (b ∷ bs) sent a = act_asked _ (b ∷ bs) sent _ a

Returns-map :
    (P Q : Gate → GateEvent → Type 0) (o : Option (Gate × GateEvent))
    → ((g : Gate) (e : GateEvent) → P g e → Q g e)
    → Returns P o
    → Returns Q o
Returns-map P Q none f h = h
Returns-map P Q (some (g, e)) f h = f g e h

asked→fresh :
    (g g' : Gate) (e : GateEvent)
    → OutcomeAsked true (record g { asked = true }) g' e
    → OutcomeFresh g g' e
asked→fresh g g' e h = ground arith

module _ (g : Gate) (p : g.passed ≡ false) (r : g.refused ≡ false) (a : g.asked ≡ false) where
  act_fresh :
      (f : Found) (buf : List ℕ)
      → Returns (OutcomeFresh g) (act f g buf false (λ g' rest. scan 1 g' rest true))
  unfolding act
  act_fresh nothing buf = ground arith
  act_fresh (at_mark n) buf = ground arith
  act_fresh (at_phrase n) buf = simp a (
      Returns-map (OutcomeAsked true (record g { asked = true })) (OutcomeFresh g)
        (scan 1 (record g { asked = true }) (drop (n + length g.phrase) buf) true) (asked→fresh g)
        (scan_asked (record g { asked = true }) p r 0 (drop (n + length g.phrase) buf) true refl))

  scan_fresh : (buf : List ℕ) → Returns (OutcomeFresh g) (scan 2 g buf false)
  unfolding scan
  scan_fresh [] = ground arith
  scan_fresh (b ∷ bs) = act_fresh _ (b ∷ bs)

-- A gate that the program can reach: it has not both passed and refused.
pub record IsSound (g : Gate) : Type 0 where
  pub exclusive : g.passed ≡ true → g.refused ≡ false

-- What one chunk does.
pub record Step (g g' : Gate) (e : GateEvent) : Type 0 where
  pub sound : IsSound g'
  pub phrase : g'.phrase ≡ g.phrase
  pub mark : g'.mark ≡ g.mark
  pub told : g.passed ≡ false → e.refused ≡ g'.refused
  pub silent : e.output ≢ [] → g'.passed ≡ true
  pub sent : e.send_password ≡ true → (g.asked ≡ false) × (g'.asked ≡ true)
  pub marked : g.asked ≡ false → g'.asked ≡ e.send_password
  pub asked_stays : g.asked ≡ true → g'.asked ≡ true
  pub passed_stays : g.passed ≡ true → (g' ≡ g) × (e.send_password ≡ false) × (e.refused ≡ false)
  pub refused_stays : g.refused ≡ true → (g' ≡ g) × (e.output ≡ []) × (e.refused ≡ true)

module _ (g : Gate) (p : g.passed ≡ false) (r : g.refused ≡ false) where
  fresh→step :
      g.asked ≡ false
      → (g' : Gate) (e : GateEvent) → OutcomeFresh (record g { pending = [] }) g' e
      → Step g g' e
  fresh→step a g' e h = ground arith

  asked→step :
      g.asked ≡ true
      → (g' : Gate) (e : GateEvent) → OutcomeAsked false (record g { pending = [] }) g' e
      → Step g g' e
  asked→step a g' e h = ground arith

  scan-Step : (buf : List ℕ) → Returns (Step g) (scan 2 (record g { pending = [] }) buf false)
  scan-Step buf =
      let g0 : Gate = record g { pending = [] } in
      elim (Bool-cases g.asked) [
        | inl a ↦
            Returns-map _ (Step g) (scan 2 g0 buf false) (asked→step a)
              (scan_asked g0 p r 1 buf false a)
        | inr a ↦
            Returns-map _ (Step g) (scan 2 g0 buf false) (fresh→step a) (scan_fresh g0 p r a buf)
      ]

-- Feeding a chunk to a gate that has not both passed and refused gives an answer and leaves such a
-- gate. The gate asks for the password only if it has not asked before, and then records that it
-- did; it shows output only once it has seen the marker; and a gate that has passed or refused
-- stays as it is, the refused one showing nothing more.
pub feed-Step : (g : Gate) (bytes : List ℕ) → IsSound g → Returns (Step g) (feed g bytes)
unfolding feed
feed-Step g bytes s =
    Returns-if (Step g) g.passed _ _ (λ p. ground (arith, s.exclusive p))
      λ p.
        Returns-if (Step g) g.refused _ _ (λ r. ground arith)
          λ r. scan-Step g p r (g.pending ++ bytes)

-- how many events ask for the password
abbrev pub requests : List GateEvent → ℕ
requests [] = 0
requests (e ∷ es) = (if e.send_password then 1 else 0) + requests es

abbrev asked_before : Gate → ℕ
asked_before g = if g.asked then 1 else 0

feed_all-requests-from :
    (g : Gate) (chunks : List (List ℕ))
    → IsSound g
    → (g' : Gate) × (es : List GateEvent) × (feed_all g chunks ≡ some (g', es))
      × (asked_before g + requests es ≤ 1)
unfolding feed_all
feed_all-requests-from g [] s = (g, [], refl, ground arith)
feed_all-requests-from g (c ∷ cs) s =
    let (g1, e, fed, step) = Returns-inv (Step g) (feed g c) (feed-Step g c s) in
    let (g2, es, rest, few) = feed_all-requests-from g1 cs step.sound in
    (g2, e ∷ es, rw (fed, rest), ground (arith, few, step.sent, step.asked_stays))

-- However the device's output is cut into chunks, a gate that has not both passed and refused
-- answers every chunk, and over the whole run it asks for the password at most once, and not at all
-- if it had asked before.
pub feed_all-requests :
    (g : Gate) (chunks : List (List ℕ))
    → IsSound g
    → (g' : Gate) × (es : List GateEvent) × (feed_all g chunks ≡ some (g', es))
      × (requests es ≤ 1)
      × (g.asked ≡ true → requests es ≡ 0)
feed_all-requests g chunks s =
    let (g', es, run, few) = feed_all-requests-from g chunks s in
    (g', es, run, ground arith, λ a. ground arith)
