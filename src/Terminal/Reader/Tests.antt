-- ===== src/Terminal/Reader/Tests.antt =====
-- Runs of the reader, and an instance of its theorem.
-- bytes are characters
use simple_network_dashboard.Prelude.{
  ℕ, ◌*◌, ◌≡◌, refl, true, false, not, ◌&&◌, Option, some, List, [], ◌∷◌, is_none, any, nat_eq,
}
use simple_network_dashboard.Terminal.Gate.{
  is_prefix, find, new_gate, suffix_prefix_from, suffix_prefix, first_found, event, act, scan, feed,
}
use simple_network_dashboard.Terminal.Size.{nonneg}
use simple_network_dashboard.Terminal.Batcher.{
  Decoder, new_batcher, waited, take_text, due, emit, flush_due, flush_final, add,
}
use simple_network_dashboard.Terminal.Reader.{
  emitted, password_sent, gate_announced, closed, Reader, Round, ReadResult, new_reader, does,
  send_if, announce, gate_lets, is_97, result_of, emit_all, deliver, on_event, on_fed, handle,
  receive, receive_both, flush, one_round, read_rounds, drain, finish, read_channel,
}
use simple_network_dashboard.Terminal.Reader.Order.{read_channel-IsOrdered}
use simple_network_dashboard.Terminal.Reader.Stages.{Stage, unasked, stages, Tells}

abbrev plain : Decoder
plain = record { State = Unit; start = tt; decode = λ s bytes final. (bytes, tt) }

-- a round in which the command writes `out`, and one in which it has exited
abbrev writes : List ℕ → Round
writes out = record { continues = true; out = out; err = []; exited = false }

abbrev ends : Round
ends = record { continues = true; out = []; err = []; exited = true }

abbrev withdraws : Round
withdraws = record { continues = false; out = []; err = []; exited = false }

-- sudo asks with "pw:", the command prints "#ok" first and then "hi"
abbrev session : List Round
session =
    writes (b'p' ∷ b'w' ∷ b':' ∷ [])
    ∷ writes (b'#' ∷ b'o' ∷ b'k' ∷ b'h' ∷ [])
    ∷ writes (b'i' ∷ [])
    ∷ ends
    ∷ []

abbrev every_second : ℕ → ℕ
every_second n = n * 1000

abbrev read_it : List Round → Reader plain × Option ReadResult
read_it rounds =
    read_channel every_second (λ n. true)
      (some (new_gate (b'p' ∷ b'w' ∷ b':' ∷ []) (b'#' ∷ b'o' ∷ b'k' ∷ []))) (new_batcher plain)
      rounds [] [] (nonneg 0)

reads_test :
    (read_it session).0.acts
    ≡ password_sent ∷ gate_announced ∷ emitted (b'h' ∷ [], 1) ∷ emitted (b'i' ∷ [], 2) ∷ []
unfolding read_channel read_rounds one_round receive_both receive handle on_fed on_event deliver
    emit_all flush finish drain send_if announce does new_reader result_of gate_lets is_97 feed scan
    act first_found find is_prefix suffix_prefix suffix_prefix_from event new_gate new_batcher add
    due waited flush_due flush_final take_text emit
reads_test = refl

withdrawn_test : (read_it (withdraws ∷ [])).0.acts ≡ closed ∷ []
unfolding read_channel read_rounds one_round receive_both receive handle on_fed on_event deliver
    emit_all flush finish drain send_if announce does new_reader result_of gate_lets is_97 feed scan
    act first_found find is_prefix suffix_prefix suffix_prefix_from event new_gate new_batcher add
    due waited flush_due flush_final take_text emit
withdrawn_test = refl

read_channel-IsOrdered_example :
    (s : Stage) × (stages unasked (read_it session).0.acts ≡ some s)
    × Tells s (read_it session).1
    × ((is_none (read_it session).1 && any (λ (t : Round). not t.continues) session) ≡ false)
read_channel-IsOrdered_example =
    read_channel-IsOrdered plain every_second (λ n. true) (λ final. refl) (b'p' ∷ b'w' ∷ b':' ∷ [])
      (b'#' ∷ b'o' ∷ b'k' ∷ []) session [] [] (nonneg 0)
