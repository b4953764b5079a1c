-- ===== src/Terminal/Reader/Handling.antt =====
-- What the reader makes of one piece of output keeps it behind the gate.
use simple_network_dashboard.Prelude.{
  ℕ, ◌+◌, ◌≡◌, refl, sym, ap, subst, ◌∙◌, inl, inr, Bool, true, false, none, some, List, [], ◌∷◌,
  Bool-cases, if_elim,
}
use simple_network_dashboard.Terminal.Gate.{Gate, GateEvent, feed}
use simple_network_dashboard.Terminal.Gate.Security.{Returns-inv, Step, feed-Step}
use simple_network_dashboard.Terminal.Batcher.{Decoder, Batcher, Batch, add}
use simple_network_dashboard.Terminal.Batcher.Silence.{IsSilent, StartsSilent, add-IsSilent}
use simple_network_dashboard.Terminal.Reader.{
  emitted, closed, Reader, does, send_if, announce, emit_all, deliver, on_event, on_fed, handle,
  flush,
}
use simple_network_dashboard.Terminal.Reader.Stages.{
  stage_of, IsGuarded, IsGuarded-same, IsGuarded-batcher, emitted-stays, closed-stays, nil-unless,
  does-IsGuarded, sent_and_announced, Guarded,
}

module _ {d : Decoder} (clock : ℕ → ℕ) (accepts : ℕ → Bool) (starts : StartsSilent d) where
  emit_all-IsGuarded :
      (g : Gate) (r : Reader d) (out : List Batch)
      → IsGuarded g r
      → (g.passed ≡ false → out ≡ [])
      → IsGuarded g (emit_all clock accepts r out).0
  unfolding emit_all
  emit_all-IsGuarded g r [] h quiet = h
  emit_all-IsGuarded g r (b ∷ bs) h quiet =
      let r' : Reader d = record (does r (emitted b)) { emits = r.emits + 1 } in
      elim (Bool-cases g.passed) [
        | inr p ↦ cc (quiet p)
        | inl p ↦
            let h' =
              IsGuarded-same g (does r (emitted b)) r' refl refl refl refl
                (does-IsGuarded g r (emitted b) h (emitted-stays g b p)) in
            if_elim (λ (x : Reader d × Bool). IsGuarded g x.0) (accepts r.emits) _ _
              (λ _. emit_all-IsGuarded g r' bs h' λ q. cc) (λ _. h')
      ]

  pub flush-IsGuarded :
      (g : Gate) (r : Reader d) (out : List Batch) (b : Batcher d)
      → IsGuarded g r
      → (g.passed ≡ false → (out ≡ []) × IsSilent b)
      → IsGuarded g (flush clock accepts r (out, b))
  unfolding flush
  flush-IsGuarded g r out b h quiet =
      let h1 = IsGuarded-batcher g r b h (λ p. (quiet p).1) in
      let h2 = emit_all-IsGuarded g (record r { batcher = b }) out h1 (λ p. (quiet p).0) in
      let r2 = (emit_all clock accepts (record r { batcher = b }) out).0 in
      if_elim (IsGuarded g) (emit_all clock accepts (record r { batcher = b }) out).1 _ _ (λ _. h2)
        λ _. IsGuarded-same g r2 (record r2 { superseded = true }) refl refl refl refl h2

  deliver-IsGuarded :
      (g : Gate) (r : Reader d) (raw : List ℕ)
      → IsGuarded g r
      → (g.passed ≡ false → raw ≡ [])
      → IsGuarded g (deliver clock accepts r raw).0
  unfolding deliver
  deliver-IsGuarded g r raw h quiet =
      let no_output = λ (p : g.passed ≡ false).
        subst (λ x. ((add clock r.batcher x).0 ≡ []) × IsSilent (add clock r.batcher x).1)
          (sym (quiet p)) (add-IsSilent clock r.batcher starts (h.silent p)) in
      emit_all-IsGuarded g (record r { batcher = (add clock r.batcher raw).1 }) _
        (IsGuarded-batcher g r _ h λ p. (no_output p).1) λ p. (no_output p).0

  on_event-IsGuarded :
      (g g' : Gate) (e : GateEvent) (r : Reader d)
      → Step g g' e
      → IsGuarded g r
      → IsGuarded g' (on_event clock accepts r g' e).0
  unfolding on_event
  on_event-IsGuarded g g' e r t h =
      let r' = announce (send_if (record r { gate = some g' }) e.send_password) g'.passed in
      let h' = sent_and_announced g g' e t r h in
      if_elim (λ (x : Reader d × Bool). IsGuarded g' x.0) e.refused _ _
        (λ _.
          does-IsGuarded g' (record r' { refused = true }) closed
            (IsGuarded-same g' r' _ refl refl refl refl h') (closed-stays (stage_of g')))
        λ _. deliver-IsGuarded g' r' e.output h' λ p. nil-unless e.output g'.passed t.silent p

  pub handle-Guarded :
      (r : Reader d) (raw : List ℕ) → Guarded r → Guarded (handle clock accepts r raw).0
  unfolding handle on_fed
  handle-Guarded r raw (g, h) =
      let (g', e, fed, t) = Returns-inv (Step g) (feed g raw) (feed-Step g raw h.sound) in
      let handled : handle clock accepts r raw ≡ on_event clock accepts r g' e =
        ap
          (λ o. elim o as (λ _. Reader d × Bool) [
            | none ↦ deliver clock accepts r raw
            | some x ↦ on_fed clock accepts r (feed x raw)
          ])
          h.gate
        ∙ ap (on_fed clock accepts r) fed in
      subst (λ (x : Reader d × Bool). Guarded x.0) (sym handled)
        (g', on_event-IsGuarded g g' e r t h)
