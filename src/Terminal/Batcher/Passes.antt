-- ===== src/Terminal/Batcher/Passes.antt =====
-- What one call of the batcher passes on of the decoded text, and a sequence of calls.
use simple_network_dashboard.Prelude.{
  ℕ, ◌+◌, ◌≡◌, refl, sym, ap, subst, ◌∙◌, ◌≢◌, true, false, Option, none, some, List, [], ◌∷◌, ◌++◌,
  arith, if_elim, length, is_nil, length-append, append-nil, append_assoc, ne-nil_of_is_nil,
  eq-nil_of_is_nil,
}
use simple_network_dashboard.Terminal.Batcher.{
  Decoder, Batcher, Batch, take_text, due, emit, flush_due, flush_final, add, run,
}

-- what the decoder makes of the chunks, without batching
pub decode_all : (d : Decoder) → d.State → List (Option (List ℕ)) → List ℕ × d.State
decode_all d s [] = ([], s)
decode_all d s (none ∷ calls) = decode_all d s calls
decode_all d s (some bytes ∷ calls) =
    let (text, s') = d.decode s bytes false in
    let (rest, s'') = decode_all d s' calls in (text ++ rest, s'')

-- the texts of the batches, joined
abbrev pub joined : List Batch → List ℕ
joined [] = []
joined ((text, _) ∷ bs) = text ++ joined bs

-- The batches are numbered from `n + 1` on, and none of them is empty.
abbrev pub Numbered : ℕ → List Batch → Type 0
Numbered n [] = Unit
Numbered n ((text, seq) ∷ bs) = (seq ≡ n + 1) × (text ≢ []) × Numbered (n + 1) bs

-- What one call gives: the numbers go on, and the output with the text that waits is the text that
-- waited before with what was decoded.
pub record Passes {d : Decoder} (b : Batcher d) (text : List ℕ) (r : List Batch × Batcher d)
    : Type 0 where
  pub numbered : Numbered b.seq r.0
  pub next : r.1.seq ≡ b.seq + length r.0
  pub stream : joined r.0 ++ r.1.text ≡ b.text ++ text

module _ {d : Decoder} (clock : ℕ → ℕ) where
  due_same : (b : Batcher d) → ((due clock b).1.text ≡ b.text) × ((due clock b).1.seq ≡ b.seq)
  unfolding due
  due_same b = ground arith

  quiet-Passes : (b b' : Batcher d) → b'.text ≡ b.text → b'.seq ≡ b.seq → Passes b [] ([], b')
  quiet-Passes b b' t s = record {
    numbered = tt;
    next = omega arith;
    stream = t ∙ sym (append-nil b.text);
  }

  emit-Passes :
      (b b' : Batcher d)
      → b'.text ≡ b.text
      → b'.seq ≡ b.seq
      → b.text ≢ []
      → Passes b [] (emit clock b')
  unfolding emit
  emit-Passes b b' t s e = record {
    numbered = (omega arith, rw t e, tt);
    next = omega arith;
    stream = rw t (append-nil (b.text ++ []));
  }

  pub flush_due-Passes : (b : Batcher d) → Passes b [] (flush_due clock b)
  unfolding flush_due
  flush_due-Passes b =
      let (t, s) = due_same b in
      if_elim (Passes b []) (is_nil b.text) _ _ (λ _. quiet-Passes b b refl refl)
        λ e.
          if_elim (Passes b []) (due clock b).0 _ _
            (λ _. emit-Passes b (due clock b).1 t s (ne-nil_of_is_nil b.text e))
            λ _. quiet-Passes b (due clock b).1 t s

  take_text_lem :
      (b : Batcher d) (text : List ℕ)
      → ((take_text clock b text).text ≡ b.text ++ text) × ((take_text clock b text).seq ≡ b.seq)
  unfolding take_text
  take_text_lem b [] = (sym (append-nil b.text), refl)
  take_text_lem b (c ∷ cs) = ground arith

  -- A call that first takes text passes that text too.
  Passes-take :
      (b b1 : Batcher d) (text : List ℕ) (r : List Batch × Batcher d)
      → b1.text ≡ b.text ++ text
      → b1.seq ≡ b.seq
      → Passes b1 [] r
      → Passes b text r
  Passes-take b b1 text r t s p = record {
    numbered = subst (λ n. Numbered n r.0) s p.numbered;
    next = omega (arith, p.next);
    stream = p.stream ∙ append-nil b1.text ∙ t;
  }

  pub add-Passes :
      (b : Batcher d) (bytes : List ℕ)
      → Passes b (d.decode b.decoder bytes false).0 (add clock b bytes)
  unfolding add
  add-Passes b bytes =
      let (text, s) = d.decode b.decoder bytes false in
      let b1 = take_text clock (record b { decoder = s }) text in
      let (t1, s1) = take_text_lem (record b { decoder = s }) text in
      let (t2, s2) = due_same b1 in
      Passes-take b (due clock b1).1 text _ (t2 ∙ t1) (s2 ∙ s1) (
        if_elim (Passes (due clock b1).1 []) (due clock b1).0 _ _
          (λ _. flush_due-Passes (due clock b1).1)
          λ _. quiet-Passes (due clock b1).1 (due clock b1).1 refl refl)

  -- batching does not touch the decoder
  due_decoder : (b : Batcher d) → (due clock b).1.decoder ≡ b.decoder
  unfolding due
  due_decoder b = ground arith

  pub flush_due_decoder : (b : Batcher d) → (flush_due clock b).1.decoder ≡ b.decoder
  unfolding flush_due emit
  flush_due_decoder b =
      let same : List Batch × Batcher d → Type 0 = λ r. r.1.decoder ≡ b.decoder in
      if_elim same (is_nil b.text) _ _ (λ _. refl)
        λ _. if_elim same (due clock b).0 _ _ (λ _. due_decoder b) (λ _. due_decoder b)

  take_text_decoder : (b : Batcher d) (text : List ℕ) → (take_text clock b text).decoder ≡ b.decoder
  unfolding take_text
  take_text_decoder b [] = refl
  take_text_decoder b (c ∷ cs) =
      if_elim (λ (r : Batcher d). r.decoder ≡ b.decoder) (is_nil b.text) _ _ (λ _. refl) (λ _. refl)

  pub add_decoder :
      (b : Batcher d) (bytes : List ℕ)
      → (add clock b bytes).1.decoder ≡ (d.decode b.decoder bytes false).1
  unfolding add
  add_decoder b bytes =
      let (text, s) = d.decode b.decoder bytes false in
      let b1 = take_text clock (record b { decoder = s }) text in
      let same = due_decoder b1 ∙ take_text_decoder (record b { decoder = s }) text in
      if_elim (λ (r : List Batch × Batcher d). r.1.decoder ≡ s) (due clock b1).0 _ _
        (λ _. flush_due_decoder (due clock b1).1 ∙ same) (λ _. same)

Numbered-append :
    (n : ℕ) (xs ys : List Batch)
    → Numbered n xs
    → Numbered (n + length xs) ys
    → Numbered n (xs ++ ys)
Numbered-append n [] ys hx hy = subst (λ k. Numbered k ys) (omega arith) hy
Numbered-append n ((text, seq) ∷ xs) ys hx hy =
    (hx.0, hx.1, Numbered-append (n + 1) xs ys hx.2 (subst (λ k. Numbered k ys) (omega arith) hy))

pub joined-append : (xs ys : List Batch) → joined (xs ++ ys) ≡ joined xs ++ joined ys
joined-append [] ys = refl
joined-append ((text, seq) ∷ xs) ys =
    rw (joined-append xs ys) (sym (append_assoc text (joined xs) (joined ys)))

-- one call after another
pub Passes-append :
    {d : Decoder} (b b1 b2 : Batcher d) (t1 t2 : List ℕ) (out rest : List Batch)
    → Passes b t1 (out, b1)
    → Passes b1 t2 (rest, b2)
    → Passes b (t1 ++ t2) (out ++ rest, b2)
Passes-append b b1 b2 t1 t2 out rest p q = record {
  numbered =
      Numbered-append b.seq out rest p.numbered (subst (λ k. Numbered k rest) p.next q.numbered);
  next = omega (arith, p.next, q.next, length-append out rest);
  stream = rw joined-append (
      append_assoc (joined out) (joined rest) b2.text
      ∙ ap (◌++◌ (joined out)) q.stream
      ∙ sym (append_assoc (joined out) b1.text t2)
      ∙ ap (λ (z : List ℕ). z ++ t2) p.stream
      ∙ append_assoc b.text t1 t2);
}

pub run-Passes :
    {d : Decoder} (clock : ℕ → ℕ) (b : Batcher d) (calls : List (Option (List ℕ)))
    → Passes b (decode_all d b.decoder calls).0 (run clock b calls)
unfolding run decode_all
run-Passes clock b [] = quiet-Passes clock b b refl refl
run-Passes {d} clock b (none ∷ calls) =
    let b1 = (flush_due clock b).1 in
    let rest = run-Passes clock b1 calls in
    let same : (decode_all d b1.decoder calls).0 ≡ (decode_all d b.decoder calls).0 =
      ap (λ s. (decode_all d s calls).0) (flush_due_decoder clock b) in
    Passes-append b b1 _ [] _ _ _ (flush_due-Passes clock b)
      (subst (λ t. Passes b1 t (run clock b1 calls)) same rest)
run-Passes {d} clock b (some bytes ∷ calls) =
    let b1 = (add clock b bytes).1 in
    let rest = run-Passes clock b1 calls in
    let s = (d.decode b.decoder bytes false).1 in
    let same : (decode_all d b1.decoder calls).0 ≡ (decode_all d s calls).0 =
      ap (λ s. (decode_all d s calls).0) (add_decoder clock b bytes) in
    Passes-append b b1 _ (d.decode b.decoder bytes false).0 _ _ _ (add-Passes clock b bytes)
      (subst (λ t. Passes b1 t (run clock b1 calls)) same rest)

pub run_decoder :
    {d : Decoder} (clock : ℕ → ℕ) (b : Batcher d) (calls : List (Option (List ℕ)))
    → (run clock b calls).1.decoder ≡ (decode_all d b.decoder calls).1
unfolding run decode_all
run_decoder clock b [] = refl
run_decoder {d} clock b (none ∷ calls) =
    run_decoder clock (flush_due clock b).1 calls
    ∙ ap (λ s. (decode_all d s calls).1) (flush_due_decoder clock b)
run_decoder {d} clock b (some bytes ∷ calls) =
    run_decoder clock (add clock b bytes).1 calls
    ∙ ap (λ s. (decode_all d s calls).1) (add_decoder clock b bytes)

pub flush_final-Passes :
    {d : Decoder} (clock : ℕ → ℕ) (b : Batcher d)
    → Passes b (d.decode b.decoder [] true).0 (flush_final clock b)
      × ((flush_final clock b).1.text ≡ [])
unfolding flush_final
flush_final-Passes {d} clock b =
    let (tail, s) = d.decode b.decoder [] true in
    let b1 = take_text clock (record b { decoder = s }) tail in
    let (t1, s1) = take_text_lem clock (record b { decoder = s }) tail in
    if_elim (λ (r : List Batch × Batcher d). Passes b tail r × (r.1.text ≡ [])) (is_nil b1.text) _ _
      (λ e. (
        Passes-take clock b b1 tail _ t1 s1 (quiet-Passes clock b1 b1 refl refl),
        eq-nil_of_is_nil b1.text e,
      ))
      λ e. (
        Passes-take clock b b1 tail _ t1 s1
            (emit-Passes clock b1 b1 refl refl (ne-nil_of_is_nil b1.text e)),
        unfold emit in refl,
      )
