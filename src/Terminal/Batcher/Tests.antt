-- ===== src/Terminal/Batcher/Tests.antt =====
-- An instance of the theorem on batches, with a decoder that holds each byte back for one call.
use simple_network_dashboard.Prelude.{
  ℕ, ◌*◌, ◌≡◌, true, Option, none, some, List, [], ◌∷◌, ◌++◌, if◌then◌else◌,
}
use simple_network_dashboard.Terminal.Batcher.{Decoder}
use simple_network_dashboard.Terminal.Batcher.Stream.{run_to_end, run_to_end-stream}
use simple_network_dashboard.Terminal.Batcher.Passes.{decode_all, joined, Numbered}

abbrev held : Decoder
held = record {
  State = List ℕ;
  start = [];
  decode = λ s bytes final. if final then (s ++ bytes, []) else (s, bytes);
}

abbrev every_second : ℕ → ℕ
every_second n = n * 1000

abbrev calls : List (Option (List ℕ))
calls = some (b'a' ∷ b'b' ∷ []) ∷ none ∷ some (b'c' ∷ []) ∷ []

run_to_end-stream_example :
    let (text, s) = decode_all held held.start calls in
    (joined (run_to_end held every_second calls).0 ≡ text ++ (held.decode s [] true).0)
    × ((run_to_end held every_second calls).1.text ≡ [])
    × Numbered 0 (run_to_end held every_second calls).0
run_to_end-stream_example = run_to_end-stream held every_second calls
