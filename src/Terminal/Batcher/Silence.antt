-- ===== src/Terminal/Batcher/Silence.antt =====
-- A batcher that was given nothing emits nothing, if the decoder makes nothing of nothing.
use simple_network_dashboard.Prelude.{
  ℕ, ◌≡◌, refl, sym, ap, subst, ◌∙◌, Bool, true, false, List, [], ◌∷◌, ◌++◌, if◌then◌else◌, if_elim,
  is_nil, append-nil,
}
use simple_network_dashboard.Terminal.Batcher.{
  Decoder, Batcher, Batch, take_text, emit, flush_due, flush_final, add,
}
use simple_network_dashboard.Terminal.Batcher.Passes.{
  joined, Numbered, flush_due-Passes, add-Passes, flush_due_decoder, add_decoder,
  flush_final-Passes, Passes,
}

pub record IsSilent {d : Decoder} (b : Batcher d) : Type 0 where
  pub text : b.text ≡ []
  pub decoder : b.decoder ≡ d.start

-- `decode(b"")` at the start, the last call or not
abbrev pub StartsSilent : Decoder → Type 0
StartsSilent d = (final : Bool) → d.decode d.start [] final ≡ ([], d.start)

append-nil_left : {A : Type 0} (xs ys : List A) → xs ++ ys ≡ [] → xs ≡ []
append-nil_left [] ys e = refl
append-nil_left (x ∷ xs) ys e = cc

joined-nil : (n : ℕ) (out : List Batch) → Numbered n out → joined out ≡ [] → out ≡ []
joined-nil n [] h e = refl
joined-nil n ((text, seq) ∷ out) h e = absurd (h.1 (append-nil_left text (joined out) e))

append-nil_right : {A : Type 0} (xs ys : List A) → xs ++ ys ≡ [] → ys ≡ []
append-nil_right [] ys e = e
append-nil_right (x ∷ xs) ys e = cc

Passes-silent :
    {d : Decoder} (b : Batcher d) (r : List Batch × Batcher d)
    → Passes b [] r
    → b.text ≡ []
    → (r.0 ≡ []) × (r.1.text ≡ [])
Passes-silent b r p t =
    let e : joined r.0 ++ r.1.text ≡ [] = p.stream ∙ append-nil b.text ∙ t in
    (joined-nil b.seq r.0 p.numbered (append-nil_left _ _ e), append-nil_right (joined r.0) _ e)

module _ {d : Decoder} (clock : ℕ → ℕ) (b : Batcher d) (starts : StartsSilent d)
    (s : IsSilent b) where
  pub add-IsSilent : ((add clock b []).0 ≡ []) × IsSilent (add clock b []).1
  add-IsSilent =
      let decoded : d.decode b.decoder [] false ≡ ([], d.start) =
        subst (λ x. d.decode x [] false ≡ ([], d.start)) (sym s.decoder) (starts false) in
      let p =
        Passes-silent b (add clock b [])
          (subst (λ x. Passes b x (add clock b [])) (ap (λ x. x.0) decoded) (add-Passes clock b []))
          s.text in
      (p.0, record { text = p.1; decoder = add_decoder clock b [] ∙ ap (λ x. x.1) decoded })

  pub flush_due-IsSilent : ((flush_due clock b).0 ≡ []) × IsSilent (flush_due clock b).1
  flush_due-IsSilent =
      let p = Passes-silent b (flush_due clock b) (flush_due-Passes clock b) s.text in
      (p.0, record { text = p.1; decoder = flush_due_decoder clock b ∙ s.decoder })

  decoded_last : d.decode b.decoder [] true ≡ ([], d.start)
  decoded_last = subst (λ x. d.decode x [] true ≡ ([], d.start)) (sym s.decoder) (starts true)

  flush_final_state : IsSilent (flush_final clock b).1
  unfolding flush_final take_text emit
  flush_final_state =
      let after = λ (x : List ℕ × d.State).
        let b' = take_text clock (record b { decoder = x.1 }) x.0 in
        if is_nil b'.text then ([], b') else emit clock b' in
      let last : IsSilent (after ([], d.start)).1 =
        if_elim (λ (x : List Batch × Batcher d). IsSilent x.1) (is_nil b.text) _ _
          (λ _. record { text = s.text; decoder = refl })
          λ _. record { text = refl; decoder = refl } in
      subst (λ x. IsSilent (after x).1) (sym decoded_last) last

  pub flush_final-IsSilent : ((flush_final clock b).0 ≡ []) × IsSilent (flush_final clock b).1
  flush_final-IsSilent = (
    (Passes-silent b (flush_final clock b)
        (subst (λ x. Passes b x (flush_final clock b)) (ap (λ x. x.0) decoded_last)
          (flush_final-Passes clock b).0)
        s.text).0,
    flush_final_state,
  )
