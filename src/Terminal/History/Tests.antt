-- ===== src/Terminal/History/Tests.antt =====
-- Runs of the recovery history, and instances of its theorems.
use simple_network_dashboard.Prelude.{ℕ, ◌≡◌, refl, List, [], ◌∷◌, ◌++◌}
use simple_network_dashboard.Terminal.History.{
  History, empty_history, is_printable, write_char, dispatch, feed_char, feed_chars, feed,
}
use simple_network_dashboard.Terminal.History.Bounds.{
  IsBounded, empty_history-IsBounded, feed-IsBounded,
}
use simple_network_dashboard.Terminal.History.Clean.{IsClean, empty_history-IsClean, feed-IsClean}
use simple_network_dashboard.Terminal.History.Plain.{AllPrintable}

abbrev hello : List ℕ
hello = b'h' ∷ b'e' ∷ b'l' ∷ b'l' ∷ b'o' ∷ []

abbrev bye : List ℕ
bye = b'b' ∷ b'y' ∷ b'e' ∷ []

-- "hello", then "bye" after a carriage return
overwrites_test : (feed empty_history (hello ++ 13 ∷ bye) 1).line ≡ bye ++ b'l' ∷ b'o' ∷ []
unfolding feed feed_chars feed_char dispatch write_char empty_history is_printable
overwrites_test = refl

abbrev typed : History
typed = record empty_history { line = hello; position = 5 }

feed-IsBounded_example : IsBounded (feed empty_history (hello ++ 10 ∷ bye) 1)
feed-IsBounded_example = feed-IsBounded empty_history (hello ++ 10 ∷ bye) 1 empty_history-IsBounded

feed-IsClean_example : IsClean (feed empty_history (0x1b ∷ b'[' ∷ b'm' ∷ hello) 1)
feed-IsClean_example =
    feed-IsClean empty_history (0x1b ∷ b'[' ∷ b'm' ∷ hello) 1 empty_history-IsClean

hello_printable : AllPrintable hello
unfolding is_printable
hello_printable = (refl, (refl, (refl, (refl, (refl, tt)))))

bye_printable : AllPrintable bye
unfolding is_printable
bye_printable = (refl, (refl, (refl, tt)))
