-- ===== src/Terminal/Reader/Order.antt =====
-- In which order the reader acts while a sudo gate stands before the output.
use simple_network_dashboard.Prelude.{
  ℕ, ◌≡◌, refl, sym, ap, ◌∙◌, Bool, true, false, not, ◌&&◌, ◌||◌, Option, some, List, [], ◌∷◌,
  arith, if◌then◌else◌, if_elim, is_none, any,
}
use simple_network_dashboard.Terminal.Gate.{new_gate}
use simple_network_dashboard.Terminal.Size.{Integer}
use simple_network_dashboard.Terminal.Batcher.{Decoder, new_batcher, flush_due, flush_final}
use simple_network_dashboard.Terminal.Batcher.Silence.{
  StartsSilent, flush_due-IsSilent, flush_final-IsSilent,
}
use simple_network_dashboard.Terminal.Reader.{
  closed, Reader, Round, ReadResult, new_reader, handle, receive, receive_both, flush, one_round,
  read_rounds, drain, finish, read_channel,
}
use simple_network_dashboard.Terminal.Reader.Stages.{
  Stage, unasked, stages, stage_of, IsGuarded-same, closed-stays, does-IsGuarded, Guarded, Tells,
  result_of-Tells,
}
use simple_network_dashboard.Terminal.Reader.Handling.{flush-IsGuarded, handle-Guarded}

module _ (d : Decoder) (clock : ℕ → ℕ) (accepts : ℕ → Bool) (starts : StartsSilent d) where
  receive-Guarded :
      (r : Reader d) (raw : List ℕ) → Guarded r → Guarded (receive clock accepts r raw).0
  unfolding receive
  receive-Guarded r [] h = h
  receive-Guarded r (c ∷ cs) h =
      let (g, h') = handle-Guarded clock accepts starts r (c ∷ cs) h in
      let r' = (handle clock accepts r (c ∷ cs)).0 in
      if_elim (λ (x : Reader d × Bool). Guarded x.0) (handle clock accepts r (c ∷ cs)).1 _ _
        (λ _. (g, h'))
        λ _. (
          g,
          IsGuarded-same g r' (record r' { superseded = not r'.refused }) refl refl refl refl h',
        )

  receive_both-Guarded :
      (r : Reader d) (out err : List ℕ) → Guarded r → Guarded (receive_both clock accepts r out err)
  unfolding receive_both
  receive_both-Guarded r out err h =
      let h' = receive-Guarded r out h in
      if_elim Guarded (receive clock accepts r out).1 _ _ (λ _. receive-Guarded _ err h') (λ _. h')

  flush_due-Guarded :
      (r : Reader d) → Guarded r → Guarded (flush clock accepts r (flush_due clock r.batcher))
  flush_due-Guarded r (g, h) = (
    g,
    flush-IsGuarded clock accepts starts g r _ _ h
        λ p. flush_due-IsSilent clock r.batcher starts (h.silent p),
  )

  superseded-Guarded : (r : Reader d) → Guarded r → Guarded (record r { superseded = true })
  superseded-Guarded r (g, h) = (g, IsGuarded-same g r _ refl refl refl refl h)

  one_round-Guarded :
      (r : Reader d) (t : Round) → Guarded r → Guarded (one_round clock accepts r t).0
  unfolding one_round
  one_round-Guarded r t h =
      let P : Reader d × Bool → Type 0 = λ x. Guarded x.0 in
      let r1 = receive_both clock accepts r t.out t.err in
      let h1 = receive_both-Guarded r t.out t.err h in
      let r2 = flush clock accepts r1 (flush_due clock r1.batcher) in
      let h2 = flush_due-Guarded r1 h1 in
      if_elim P (not t.continues) _ _ (λ _. superseded-Guarded r h)
        λ _.
          if_elim P (r1.superseded || r1.refused) _ _ (λ _. h1)
            λ _. if_elim P r2.superseded _ _ (λ _. h2) (λ _. h2)

  read_rounds-Guarded :
      (r : Reader d) (ts : List Round) → Guarded r → Guarded (read_rounds clock accepts r ts).0
  unfolding read_rounds
  read_rounds-Guarded r [] h = h
  read_rounds-Guarded r (t ∷ ts) h =
      let h' = one_round-Guarded r t h in
      if_elim (λ (x : Reader d × Bool). Guarded x.0) (one_round clock accepts r t).1 _ _
        (λ _. read_rounds-Guarded (one_round clock accepts r t).0 ts h') (λ _. h')

  drain-Guarded :
      (r : Reader d) (cs : List (List ℕ)) → Guarded r → Guarded (drain clock accepts r cs)
  unfolding drain
  drain-Guarded r [] h = h
  drain-Guarded r ([] ∷ chunks) h = h
  drain-Guarded r ((c ∷ cs) ∷ chunks) h =
      let h' = handle-Guarded clock accepts starts r (c ∷ cs) h in
      if_elim Guarded (handle clock accepts r (c ∷ cs)).1 _ _
        (λ _. drain-Guarded (handle clock accepts r (c ∷ cs)).0 chunks h') (λ _. h')

  finish-Guarded :
      (r : Reader d) (outs errs : List (List ℕ))
      → Guarded r
      → Guarded (finish clock accepts r outs errs)
  unfolding finish
  finish-Guarded r outs errs h =
      let r1 = drain clock accepts (drain clock accepts r outs) errs in
      let (g, h1) = drain-Guarded _ errs (drain-Guarded r outs h) in
      let last : Guarded (flush clock accepts r1 (flush_final clock r1.batcher)) = (
        g,
        flush-IsGuarded clock accepts starts g r1 _ _ h1
            λ p. flush_final-IsSilent clock r1.batcher starts (h1.silent p),
      ) in
      let r2 =
        if r.superseded || r.refused
        then r
        else flush clock accepts r1 (flush_final clock r1.batcher) in
      let (g2, h2) : Guarded r2 =
        if_elim Guarded (r.superseded || r.refused) _ _ (λ _. h) (λ _. last) in
      if_elim Guarded r2.superseded _ _
        (λ _. (g2, does-IsGuarded g2 r2 closed h2 (closed-stays (stage_of g2)))) λ _. (g2, h2)

  new_reader-Guarded :
      (phrase mark : List ℕ) → Guarded (new_reader (some (new_gate phrase mark)) (new_batcher d))
  unfolding new_reader new_gate new_batcher stages stage_of
  new_reader-Guarded phrase mark = (
    new_gate phrase mark,
    record {
      sound = record { exclusive = λ p. cc };
      gate = refl;
      announced = refl;
      staged = refl;
      silent = λ p. record { text = refl; decoder = refl };
    },
  )

  one_round-withdrawn :
      (r : Reader d) (t : Round) → t.continues ≡ false → (one_round clock accepts r t).1 ≡ false
  unfolding one_round
  one_round-withdrawn r t e = ground arith

  -- a caller that withdraws ends the loop
  read_rounds-ends :
      (r : Reader d) (ts : List Round)
      → ((read_rounds clock accepts r ts).1 && any (λ (t : Round). not t.continues) ts) ≡ false
  unfolding read_rounds
  read_rounds-ends r [] = refl
  read_rounds-ends r (t ∷ ts) =
      let ih = read_rounds-ends (one_round clock accepts r t).0 ts in
      ground (arith, ih, one_round-withdrawn r t)

  -- Whatever the device writes behind a sudo gate, in whatever pieces and on whichever stream, and
  -- whatever `emit` answers: after any rounds, and when `read_channel` has returned, the reader has
  -- sent the password at most once, and told at most once that the gate was passed; it sent no
  -- password after that and emitted nothing before it. A result says that the gate was passed
  -- exactly if the reader told so, and there is one if the caller has withdrawn in any of the
  -- rounds. Of the decoder it is taken that it makes nothing of no bytes.
  pub read_channel-IsOrdered :
      (phrase mark : List ℕ) (rounds : List Round) (outs errs : List (List ℕ)) (code : Integer)
      → let (r, result) =
          read_channel clock accepts
            (some (new_gate phrase mark))
            (new_batcher d)
            rounds
            outs
            errs
            code in
        (s : Stage) × (stages unasked r.acts ≡ some s)
        × Tells s result
        × ((is_none result && any (λ (t : Round). not t.continues) rounds) ≡ false)
  unfolding read_channel
  read_channel-IsOrdered phrase mark rounds outs errs code =
      let r0 = new_reader (some (new_gate phrase mark)) (new_batcher d) in
      let (g, h) = read_rounds-Guarded r0 rounds (new_reader-Guarded phrase mark) in
      let r = (read_rounds clock accepts r0 rounds).0 in
      let (g', h') = finish-Guarded r outs errs (g, h) in
      let r' = finish clock accepts r outs errs in
      let withdrawn = any (λ (t : Round). not t.continues) rounds in
      let P : Reader d × Option ReadResult → Type 0 = λ x.
        (s : Stage) × (stages unasked x.0.acts ≡ some s)
        × Tells s x.1
        × ((is_none x.1 && withdrawn) ≡ false) in
      let ended : (more : Bool) → more ≡ true → (more && withdrawn) ≡ false → withdrawn ≡ false =
        λ more e k. ap (λ m. m && withdrawn) (sym e) ∙ k in
      if_elim P (read_rounds clock accepts r0 rounds).1 _ _
        (λ more. (stage_of g, h.staged, tt, ended _ more (read_rounds-ends r0 rounds)))
        λ _. (stage_of g', h'.staged, result_of-Tells g' r' code h', refl)
