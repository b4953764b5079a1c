-- ===== src/Sockets/Order.antt =====
-- The first frame that a browser gets is its init frame.
use simple_network_dashboard.Prelude.{
  ℕ, ◌≡◌, refl, ap, subst, ◌∙◌, ◌⊎◌, inl, inr, Bool, true, false, not, Option, none, some, List, [],
  ◌∷◌, ◌++◌, arith, if_elim, option_elim, nat_eq,
}
use simple_network_dashboard.Sockets.{
  Frame, SocketState, new_socket, over, add_last, add_first, is_still_current, take_frame,
  send_round,
}

-- what one socket goes through: a frame for it, its init frame, or a round of its sender
pub data SocketEvent : Type 0 where
  frame init : Frame → SocketEvent
  round : (ℕ → Bool) → SocketEvent

pub step : SocketState → SocketEvent → Option SocketState
step s (frame f) = add_last s f
step s (init f) = add_first s f
step s (round answers) = some (send_round s answers)

-- the state after all events, or none once the socket was closed for being over its limit
pub steps : SocketState → List SocketEvent → Option SocketState
steps s [] = some s
steps s (e ∷ rest) = elim (step s e) [ none ↦ none | some s' ↦ steps s' rest ]

-- the frames among the events of a socket that had its init frame already: no second one comes
abbrev pub NoInit : List SocketEvent → Type 0
NoInit [] = Unit
NoInit (frame f ∷ rest) = NoInit rest
NoInit (init f ∷ rest) = ⊥
NoInit (round answers ∷ rest) = NoInit rest

-- nothing has been sent, and nothing will be before the init frame
record IsHeld (s : SocketState) : Type 0 where
  unready : s.ready ≡ false
  unsent : s.sent ≡ []

-- The frame `f` is the first to be sent: it was, or it still waits before all others.
abbrev pub Leads : Frame → SocketState → Type 0
Leads f s =
    ((rest : List Frame) × (s.sent ≡ f ∷ rest))
    ⊎ ((rest : List Frame) × (s.sent ≡ []) × (s.queue ≡ f ∷ rest))

-- what holds of the state that is left, if the socket is open
abbrev pub IfOpen : (SocketState → Type 0) → Option SocketState → Type 0
IfOpen P none = Unit
IfOpen P (some s) = P s

step-IsHeld :
    (s : SocketState) (e : SocketEvent) → NoInit (e ∷ []) → IsHeld s → IfOpen IsHeld (step s e)
unfolding step
step-IsHeld s (frame f) n h =
    unfold add_last in
    (if_elim (IfOpen IsHeld) (over s f) _ _ (λ _. tt)
      λ _. record { unready = h.unready; unsent = h.unsent })
step-IsHeld s (init f) n h = absurd n
step-IsHeld s (round answers) n h =
    unfold send_round in
    (if_elim IsHeld (not s.event) _ _ (λ _. h)
      λ _.
        if_elim IsHeld (not s.ready) _ _ (λ _. record { unready = h.unready; unsent = h.unsent })
          λ e. absurd (ground (arith, h.unready, e)))

-- the frame is sent whatever its check: an init frame has none
take_frame-Leads :
    (f : Frame) (l : List Frame) (s : SocketState) (answers : ℕ → Bool)
    → f.check ≡ none
    → s.queue ≡ l
    → Leads f s
    → Leads f (take_frame l s answers)
unfolding take_frame is_still_current
take_frame-Leads f [] s answers c e (inl (rest, h)) = inl (rest, h)
take_frame-Leads f [] s answers c e (inr (rest, h, q)) = absurd (cc (e, q))
take_frame-Leads f (g ∷ l) s answers c e (inl (rest, h)) =
    if_elim (Leads f) (is_still_current g.check answers) _ _
      (λ _. inl (rest ++ g ∷ [], ap (λ (x : List Frame). x ++ g ∷ []) h)) λ _. inl (rest, h)
take_frame-Leads f (g ∷ l) s answers c e (inr (rest, h, q)) =
    let one : g ≡ f = cc (e, q) in
    let go : is_still_current g.check answers ≡ true = rw (one, c) in
    rw go (inl ([], ap (λ (x : List Frame). x ++ g ∷ []) h ∙ ap (λ (x : Frame). x ∷ []) one))

step-Leads :
    (f : Frame) (s : SocketState) (e : SocketEvent)
    → f.check ≡ none
    → NoInit (e ∷ [])
    → Leads f s
    → IfOpen (Leads f) (step s e)
unfolding step
step-Leads f s (frame g) c n (inl (rest, h)) =
    unfold add_last in (if_elim (IfOpen (Leads f)) (over s g) _ _ (λ _. tt) λ _. inl (rest, h))
step-Leads f s (frame g) c n (inr (rest, h, q)) =
    unfold add_last in
    (if_elim (IfOpen (Leads f)) (over s g) _ _ (λ _. tt)
      λ _. inr (rest ++ g ∷ [], h, ap (λ (x : List Frame). x ++ g ∷ []) q))
step-Leads f s (init g) c n h = absurd n
step-Leads f s (round answers) c n h =
    unfold send_round in
    (if_elim (Leads f) (not s.event) _ _ (λ _. h)
      λ _.
        if_elim (Leads f) (not s.ready) _ _ (λ _. h)
          λ _. take_frame-Leads f s.queue s answers c refl h)

NoInit-split :
    (e : SocketEvent) (l : List SocketEvent) → NoInit (e ∷ l) → NoInit (e ∷ []) × NoInit l
NoInit-split (frame f) l n = (tt, n)
NoInit-split (init f) l n = absurd n
NoInit-split (round answers) l n = (tt, n)

steps-Leads :
    (f : Frame) (s : SocketState) (l : List SocketEvent)
    → f.check ≡ none
    → NoInit l
    → Leads f s
    → IfOpen (Leads f) (steps s l)
unfolding steps
steps-Leads f s [] c n h = h
steps-Leads f s (e ∷ l) c n h =
    let (now, later) = NoInit-split e l n in
    option_elim (IfOpen (Leads f)) (step s e) _ _ (λ _. tt)
      λ s' q. steps-Leads f s' l c later (subst (IfOpen (Leads f)) q (step-Leads f s e c now h))

add_first-Leads : (f : Frame) (s : SocketState) → IsHeld s → IfOpen (Leads f) (add_first s f)
unfolding add_first
add_first-Leads f s h =
    if_elim (IfOpen (Leads f)) (over s f) _ _ (λ _. tt) λ _. inr (s.queue, h.unsent, refl)

held-Leads :
    (f : Frame) (s : SocketState) (before after : List SocketEvent)
    → f.check ≡ none
    → NoInit before
    → NoInit after
    → IsHeld s
    → IfOpen (Leads f) (steps s (before ++ init f ∷ after))
unfolding steps step
held-Leads f s [] after c n k h =
    option_elim (IfOpen (Leads f)) (add_first s f) _ _ (λ _. tt)
      λ s' q. steps-Leads f s' after c k (subst (IfOpen (Leads f)) q (add_first-Leads f s h))
held-Leads f s (e ∷ before) after c n k h =
    let (now, later) = NoInit-split e before n in
    option_elim (IfOpen (Leads f)) (step s e) _ _ (λ _. tt)
      λ s' q.
        held-Leads f s' before after c later k (subst (IfOpen IsHeld) q (step-IsHeld s e now h))

-- From a new socket on, whatever frames come and whatever rounds the sender makes before and after
-- its only init frame, which has no check: as long as the socket is open, the init frame is the
-- first that was sent, or nothing was sent and it waits before all others.
pub steps-Leads_init :
    (f : Frame) (before after : List SocketEvent)
    → f.check ≡ none
    → NoInit before
    → NoInit after
    → IfOpen (Leads f) (steps new_socket (before ++ init f ∷ after))
steps-Leads_init f before after c n k =
    let held : IsHeld new_socket =
      (unfold new_socket in record { unready = refl; unsent = refl }) in
    held-Leads f new_socket before after c n k held
