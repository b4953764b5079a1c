-- ===== src/Terminal/Reader/Stages.antt =====
-- How far a run behind a sudo gate is, and what the acts of the reader do to that.
-- how far a run is: the password was not asked for, was sent, or the output is shown
use simple_network_dashboard.Prelude.{
  ◌≡◌, refl, sym, ap, subst, ◌∙◌, ◌≢◌, inl, inr, Bool, true, false, ◌||◌, Option, none, some, List,
  [], ◌∷◌, ◌++◌, arith, if◌then◌else◌, Bool-cases, ◌>>=◌, >>=-eq-some,
}
use simple_network_dashboard.Terminal.Gate.{Gate, GateEvent}
use simple_network_dashboard.Terminal.Gate.Security.{IsSound, Step}
use simple_network_dashboard.Terminal.Size.{Integer}
use simple_network_dashboard.Terminal.Batcher.{Decoder, Batcher, Batch}
use simple_network_dashboard.Terminal.Batcher.Silence.{IsSilent}
use simple_network_dashboard.Terminal.Reader.{
  Act, emitted, password_sent, gate_announced, closed, Reader, ReadResult, does, send_if, announce,
  gate_lets, result_of,
}

pub data Stage : Type 0 where
  unasked asked shown : Stage

-- what may follow; closing the channel may at any time
pub next_stage : Stage → Act → Option Stage
next_stage s closed = some s
next_stage unasked password_sent = some asked
next_stage unasked gate_announced = some shown
next_stage asked gate_announced = some shown
next_stage shown (emitted b) = some shown
next_stage _ _ = none

unfoldable pub stages : Stage → List Act → Option Stage
stages s [] = some s
stages s (a ∷ acts) = next_stage s a >>= λ t. stages t acts

bind-some : {A : Type 0} (o : Option A) → (o >>= λ x. some x) ≡ o
bind-some none = refl
bind-some (some x) = refl

pub stages-snoc :
    (s t : Stage) (acts : List Act) (a : Act)
    → stages s acts ≡ some t
    → stages s (acts ++ a ∷ []) ≡ next_stage t a
unfolding stages
stages-snoc s t [] a e =
    bind-some (next_stage s a)
    ∙ ap (λ o. elim o as (λ _. Option Stage) [ none ↦ none | some x ↦ next_stage x a ]) e
stages-snoc s t (x ∷ acts) a e =
    let (u, first, rest) = >>=-eq-some (next_stage s x) (λ v. stages v acts) e in
    rw first (stages-snoc u t acts a rest)

unfoldable pub stage_of : Gate → Stage
stage_of g = if g.passed then shown else if g.asked then asked else unasked

-- what holds of a reader behind the gate `g`: it told of the gate's passing, it acted in order, and
-- its batcher was given no_output before
pub record IsGuarded {d : Decoder} (g : Gate) (r : Reader d) : Type 0 where
  pub sound : IsSound g
  pub gate : r.gate ≡ some g
  pub announced : r.announced ≡ g.passed
  pub staged : stages unasked r.acts ≡ some (stage_of g)
  pub silent : g.passed ≡ false → IsSilent r.batcher

pub IsGuarded-same :
    {d : Decoder} (g : Gate) (r r' : Reader d)
    → r'.gate ≡ r.gate
    → r'.announced ≡ r.announced
    → r'.acts ≡ r.acts
    → r'.batcher ≡ r.batcher
    → IsGuarded g r
    → IsGuarded g r'
IsGuarded-same g r r' gate announced acts batcher h = record {
  sound = h.sound;
  gate = gate ∙ h.gate;
  announced = announced ∙ h.announced;
  staged = ap (stages unasked) acts ∙ h.staged;
  silent = λ p. subst IsSilent (sym batcher) (h.silent p);
}

pub IsGuarded-batcher :
    {d : Decoder} (g : Gate) (r : Reader d) (b : Batcher d)
    → IsGuarded g r
    → (g.passed ≡ false → IsSilent b)
    → IsGuarded g (record r { batcher = b })
IsGuarded-batcher g r b h silent = record {
  sound = h.sound;
  gate = h.gate;
  announced = h.announced;
  staged = h.staged;
  silent = silent;
}

pub emitted-stays :
    (g : Gate) (b : Batch)
    → g.passed ≡ true
    → next_stage (stage_of g) (emitted b) ≡ some (stage_of g)
unfolding stage_of next_stage
emitted-stays g b p = rw p refl

pub closed-stays : (s : Stage) → next_stage s closed ≡ some s
unfolding next_stage
closed-stays s = refl

pub nil-unless : {A : Type 0} (xs : List A) (b : Bool) → (xs ≢ [] → b ≡ true) → b ≡ false → xs ≡ []
nil-unless [] b f e = refl
nil-unless (x ∷ xs) b f e = cc (f λ q. cc)

send_if-same :
    {d : Decoder} (r : Reader d) (b : Bool)
    → ((send_if r b).gate ≡ r.gate)
      × ((send_if r b).announced ≡ r.announced)
      × ((send_if r b).batcher ≡ r.batcher)
unfolding send_if does
send_if-same r true = (refl, refl, refl)
send_if-same r false = (refl, refl, refl)

announce-same :
    {d : Decoder} (r : Reader d) (b : Bool)
    → ((announce r b).gate ≡ r.gate)
      × ((announce r b).announced ≡ (b || r.announced))
      × ((announce r b).batcher ≡ r.batcher)
unfolding announce does
announce-same r b = ground arith

-- an act that leads to the stage of the gate
does-staged :
    {d : Decoder} (g g' : Gate) (r : Reader d) (a : Act)
    → stages unasked r.acts ≡ some (stage_of g)
    → next_stage (stage_of g) a ≡ some (stage_of g')
    → stages unasked (does r a).acts ≡ some (stage_of g')
unfolding does
does-staged g g' r a s e = stages-snoc unasked (stage_of g) r.acts a s ∙ e

pub does-IsGuarded :
    {d : Decoder} (g : Gate) (r : Reader d) (a : Act)
    → IsGuarded g r
    → next_stage (stage_of g) a ≡ some (stage_of g)
    → IsGuarded g (does r a)
unfolding does
does-IsGuarded g r a h e = record {
  sound = h.sound;
  gate = h.gate;
  announced = h.announced;
  staged = does-staged g g r a h.staged e;
  silent = h.silent;
}

-- between the answer to the gate and the announcement
between : Gate → Gate → Stage
between g g' = if g.passed then shown else if g'.asked then asked else unasked

module _ {d : Decoder} (g g' : Gate) (e : GateEvent) (t : Step g g' e) where
  send_if-staged :
      (r : Reader d)
      → stages unasked r.acts ≡ some (stage_of g)
      → stages unasked (send_if r e.send_password).acts ≡ some (between g g')
  unfolding send_if does stage_of between next_stage
  send_if-staged r s = elim (Bool-cases e.send_password) [
    | inl p ↦
        let snoc = stages-snoc unasked (stage_of g) r.acts password_sent s in
        ground (arith, snoc, t.sent, t.passed_stays)
    | inr p ↦ ground (arith, s, t.passed_stays, t.marked, t.asked_stays)
  ]

  announce-staged :
      (r : Reader d)
      → r.announced ≡ g.passed
      → stages unasked r.acts ≡ some (between g g')
      → stages unasked (announce r g'.passed).acts ≡ some (stage_of g')
  unfolding announce does stage_of between next_stage
  announce-staged r q s =
      let snoc = stages-snoc unasked (between g g') r.acts gate_announced s in
      ground (arith, snoc, t.passed_stays)

  pub sent_and_announced :
      (r : Reader d)
      → IsGuarded g r
      → IsGuarded g' (announce (send_if (record r { gate = some g' }) e.send_password) g'.passed)
  sent_and_announced r h =
      let r1 = send_if (record r { gate = some g' }) e.send_password in
      let (gate1, announced1, batcher1) =
        send_if-same (record r { gate = some g' }) e.send_password in
      let (gate2, announced2, batcher2) = announce-same r1 g'.passed in
      record {
        sound = t.sound;
        gate = gate2 ∙ gate1;
        announced = ground (arith, announced2, announced1, h.announced, t.passed_stays);
        staged =
            announce-staged r1 (announced1 ∙ h.announced)
              (send_if-staged (record r { gate = some g' }) h.staged);
        silent = λ p.
            subst IsSilent (sym (batcher2 ∙ batcher1)) (h.silent (ground (arith, t.passed_stays)));
      }

-- behind some gate
abbrev pub Guarded : {d : Decoder} → Reader d → Type 0
Guarded {d} r = (g : Gate) × IsGuarded {d = d} g r

abbrev is_shown : Stage → Bool
is_shown shown = true
is_shown _ = false

-- what a result says of the gate
abbrev pub Tells : Stage → Option ReadResult → Type 0
Tells s none = Unit
Tells s (some res) = res.gate_passed ≡ is_shown s

shown_passed : (g : Gate) → g.passed ≡ is_shown (stage_of g)
unfolding stage_of
shown_passed g = ground arith

pub result_of-Tells :
    {d : Decoder} (g : Gate) (r : Reader d) (code : Integer)
    → IsGuarded g r
    → Tells (stage_of g) (some (result_of r code))
unfolding result_of stage_of gate_lets
result_of-Tells g r code h = ap gate_lets h.gate ∙ shown_passed g
