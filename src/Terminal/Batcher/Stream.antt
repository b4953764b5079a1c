-- ===== src/Terminal/Batcher/Stream.antt =====
-- The batches carry the decoded stream, whole and in order, under consecutive numbers.
use simple_network_dashboard.Prelude.{
  ℕ, ◌≡◌, sym, ap, ◌∙◌, true, Option, List, [], ◌++◌, append-nil,
}
use simple_network_dashboard.Terminal.Batcher.{
  Decoder, Batcher, new_batcher, Batch, flush_final, run,
}
use simple_network_dashboard.Terminal.Batcher.Passes.{
  decode_all, joined, Numbered, Passes-append, run-Passes, run_decoder, flush_final-Passes,
}

-- a whole run: the calls, and the last flush
pub run_to_end : (d : Decoder) → (ℕ → ℕ) → List (Option (List ℕ)) → List Batch × Batcher d
run_to_end d clock calls =
    let (out, b) = run clock (new_batcher d) calls in
    let (last, b') = flush_final clock b in (out ++ last, b')

-- For any decoder, any clock and any cutting of the device's output into chunks, with flushes at any
-- points in between: the batches of a whole run, joined, are exactly what the decoder makes of the
-- chunks with its tail, no text is left behind, and the batches are not empty and numbered 1, 2, ….
pub run_to_end-stream :
    (d : Decoder) (clock : ℕ → ℕ) (calls : List (Option (List ℕ)))
    → let (text, s) = decode_all d d.start calls in
      (joined (run_to_end d clock calls).0 ≡ text ++ (d.decode s [] true).0)
      × ((run_to_end d clock calls).1.text ≡ [])
      × Numbered 0 (run_to_end d clock calls).0
unfolding run_to_end new_batcher
run_to_end-stream d clock calls =
    let b0 = new_batcher d in
    let p = run-Passes clock b0 calls in
    let b1 = (run clock b0 calls).1 in
    let (q, over) = flush_final-Passes clock b1 in
    let all = Passes-append b0 b1 _ _ _ _ _ p q in
    (
      sym (append-nil _)
          ∙ ap (◌++◌ _) (sym over)
          ∙ all.stream
          ∙ ap (λ s. (decode_all d d.start calls).0 ++ (d.decode s [] true).0)
              (run_decoder clock b0 calls),
      over,
      all.numbered,
    )
