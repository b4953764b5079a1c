-- ===== src/Sockets/Tests.antt =====
-- Runs of the sockets, and instances of their theorems.
use simple_network_dashboard.Prelude.{
  lookup, insert, ℕ, ◌≡◌, refl, ◌≢◌, true, false, none, some, List, [], ◌∷◌, ◌++◌, string_eq,
  nat_eq,
}
use simple_network_dashboard.Config.{socket_queue_max_bytes}
use simple_network_dashboard.Sockets.{
  Frame, SocketState, new_socket, add_last, add_first, send_round, Sockets, new_sockets, connect,
  send_init, enqueue, send_queued, broadcast, send_to_owner,
}
use simple_network_dashboard.Sockets.Queue.{
  AreWithin, new_sockets-AreWithin, Event, connects, inits, broadcasts, tells_owner, rounds, happen,
  happen_all, happen_all-AreWithin,
}
use simple_network_dashboard.Sockets.Order.{
  frame, init, round, steps, Leads, IfOpen, steps-Leads_init,
}
use simple_network_dashboard.Sockets.Owners.{IsUntouched, send_to_owner-IsUntouched}

abbrev frame_of : ℕ → Frame
frame_of n = record { body = n ∷ n ∷ []; check = none }

-- socket 1 is alice's, socket 2 is bob's
abbrev two : Sockets
two = connect (connect new_sockets 1 (some "alice") "s1") 2 (some "bob") "s2"

abbrev events : List Event
events =
    inits 1 (frame_of 0)
    ∷ broadcasts (frame_of 1)
    ∷ tells_owner "alice" (frame_of 2)
    ∷ rounds 1 (λ n. true) false
    ∷ rounds 2 (λ n. true) false
    ∷ []

sent_on : ℕ → Sockets → List Frame
sent_on ws m = elim (lookup ws m.states) [ none ↦ [] | some s ↦ s.sent ]

-- socket 1 got its init frame, and socket 2 nothing yet
sends_test :
    (sent_on 1 (happen_all two events) ≡ frame_of 0 ∷ []) × (sent_on 2 (happen_all two events) ≡ [])
unfolding sent_on happen_all happen connect new_sockets new_socket send_init broadcast send_to_owner
    send_queued send_round add_first add_last enqueue lookup insert
sends_test = (refl, refl)

-- the sockets connect first
abbrev from_start : List Event
from_start = connects 1 (some "alice") "s1" ∷ connects 2 (some "bob") "s2" ∷ events

happen_all-AreWithin_example : AreWithin (happen_all new_sockets from_start)
happen_all-AreWithin_example = happen_all-AreWithin new_sockets from_start new_sockets-AreWithin

steps-Leads_init_example : IfOpen (Leads (frame_of 0)) (
    steps new_socket
      ((frame (frame_of 1) ∷ round (λ n. true) ∷ []) ++ init (frame_of 0) ∷ round (λ n. true) ∷ []))
steps-Leads_init_example =
    steps-Leads_init (frame_of 0) (frame (frame_of 1) ∷ round (λ n. true) ∷ [])
      (round (λ n. true) ∷ []) refl tt tt

bob_owns : lookup 2 two.owners ≢ some "alice"
unfolding connect new_sockets lookup insert
bob_owns e = cc

send_to_owner-IsUntouched_example : IsUntouched two (send_to_owner two "alice" (frame_of 2)) 2
send_to_owner-IsUntouched_example = send_to_owner-IsUntouched two "alice" 2 (frame_of 2) bob_owns

-- a socket that is full
abbrev full : SocketState
full = record new_socket { queued_bytes = socket_queue_max_bytes }

abbrev one_full : Sockets
one_full = record two { states = (1, full) ∷ [] }

full_there : lookup 1 one_full.states ≡ some full
unfolding lookup
full_there = refl
