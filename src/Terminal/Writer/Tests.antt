-- ===== src/Terminal/Writer/Tests.antt =====
-- Runs of the writer, and an instance of its theorem.
use simple_network_dashboard.Terminal.Writer
use simple_network_dashboard.Prelude.{◌≡◌, refl, List, [], ◌∷◌}
use simple_network_dashboard.Terminal.Writer.Accounting.{
  Call, on_input, on_interrupt, on_clear, on_next,
}

abbrev calls : List Call
calls = on_input (b'a' ∷ 0xe9 ∷ []) ∷ on_interrupt ∷ on_next ∷ on_input (b'b' ∷ []) ∷ on_clear ∷ []

-- two characters are three bytes
counts_test : (Writer.input Writer.new_writer (b'a' ∷ 0xe9 ∷ [])).0.pending_input ≡ 3
unfolding Writer.input Writer.new_writer Writer.utf8 Writer.utf8_char
counts_test = refl
