-- ===== src/Ssh/Tests.antt =====
-- Runs of the SSH manager, and instances of its theorems.
mod Runs
use simple_network_dashboard.Prelude.{
  lookup, insert, ◌+◌, String, ◌≡◌, refl, sym, ◌∙◌, ◌≢◌, true, none, some, List, [], ◌∷◌, arith,
  All, string_eq, nat_eq,
}
use simple_network_dashboard.Ssh.Session.{new_session}
use simple_network_dashboard.Ssh.Manager.{
  Key, Manager, write_session, slot, is_current, session_in, new_manager,
}
use simple_network_dashboard.Ssh.Close.{disconnect}
use simple_network_dashboard.Ssh.Connect.{
  holds_slot, place, reserve, unknown_host_key, ask_for_key, finish,
}
use simple_network_dashboard.Ssh.HostKeys.{
  answers, valid_host_key_pending, saved, Answer, expired, trusted, finish_trust, trust_host_key,
}
use simple_network_dashboard.Ssh.Invariant.{IsConsistent, new_manager-IsConsistent}
use simple_network_dashboard.Ssh.Invariant.Requests.{
  reserves, disconnects, nothing, next, none_yet, acts, deletes, Events-IsConsistent,
  Steps-untouched,
}
use simple_network_dashboard.Device.{Device}
use simple_network_dashboard.Ssh.HostKeys.Prompts.{
  IsAnswer, trust_host_key-IsAnswer, Attempt, approves, declines, attempts, trust_host_key-once,
}
use simple_network_dashboard.Ssh.Connect.Reservation.{IsSuperseded, reserve-IsSuperseded}

abbrev device : Device
device = record {
  id = "d1";
  name = "Router";
  host = "192.0.2.1";
  username = "admin";
  metrics_port = 9100;
  commands = [];
}

-- alice has reserved the device
abbrev reserved_by_alice : Manager
reserved_by_alice = (reserve new_manager "d1" "secret" device "alice" 1000).0

reserved_slot : slot reserved_by_alice "d1" ≡ some 1
unfolding reserve place lookup insert
reserved_slot = refl

reserved_owner : (reserved_by_alice.heap 1).owner ≡ "alice"
unfolding reserve place write_session new_session lookup
reserved_owner = refl

Events-IsConsistent_example : IsConsistent (disconnect reserved_by_alice "d1" none).0
Events-IsConsistent_example =
    Events-IsConsistent new_manager-IsConsistent
      (acts (reserves "d1" "secret" device 1000) (deletes "d1" none_yet))

alice_not_bob : ◌≢◌ {A = String} "alice" "bob"
alice_not_bob e = cc

Steps-untouched_example :
    let m1 = (reserve reserved_by_alice "d1" "guess" device "bob" 2000).0 in
    let m2 = (disconnect m1 "d1" (some "bob")).0 in
    (slot m2 "d1" ≡ some 1) × (m2.heap 1 ≡ reserved_by_alice.heap 1)
Steps-untouched_example =
    Steps-untouched "alice" "d1" 1
      (Events-IsConsistent new_manager-IsConsistent
        (acts (reserves "d1" "secret" device 1000) none_yet))
      (next alice_not_bob (reserves "d1" "guess" device 2000)
        (next alice_not_bob (disconnects "d1") nothing))
      reserved_slot reserved_owner

-- the device asks for its key to be approved
abbrev key : Key
key = record { key_type = "ssh-ed25519"; blob = "AAAA" }

abbrev asked : Manager
asked = (finish reserved_by_alice "d1" 1 none (unknown_host_key "192.0.2.1" key) "code" 2000).0

trusts_test : (trust_host_key asked "d1" "code" "alice" 60000 saved).1 ≡ trusted "192.0.2.1" key
unfolding trust_host_key finish_trust valid_host_key_pending answers session_in finish ask_for_key
    is_current reserve place write_session new_session lookup insert
trusts_test = refl

heeded : (trust_host_key asked "d1" "code" "alice" 60000 saved).1 ≢ expired
heeded e = let f = sym trusts_test ∙ e in cc

trust_host_key-IsAnswer_example : IsAnswer asked "d1" "code" "alice" 60000
trust_host_key-IsAnswer_example =
    trust_host_key-IsAnswer asked "d1" "code" "alice" 60000 saved heeded

abbrev later_attempts : List Attempt
later_attempts = approves "code" "alice" 61000 saved ∷ declines "code" "bob" 62000 ∷ []

trust_host_key-once_example :
    All
      (λ (x : Answer). x ≡ expired)
      (attempts (trust_host_key asked "d1" "code" "alice" 60000 saved).0 "d1" later_attempts)
trust_host_key-once_example =
    trust_host_key-once "d1" asked "code" "alice" 60000 saved later_attempts heeded

holds_slot_test : holds_slot (reserved_by_alice.heap 1).state ≡ true
unfolding reserve place write_session new_session lookup holds_slot
holds_slot_test = refl

reserved_counter : reserved_by_alice.gen_counter ≡ 1
unfolding reserve place lookup
reserved_counter = refl

-- alice connects again
reserve-IsSuperseded_example :
    IsSuperseded
      (reserve reserved_by_alice "d1" "secret" device "alice" 3000).0
      "d1"
      (reserved_by_alice.gen_counter + 1)
      1
reserve-IsSuperseded_example =
    reserve-IsSuperseded reserved_by_alice "d1" "secret" "alice" device 3000 1 reserved_slot
      (omega (arith, reserved_counter)) holds_slot_test reserved_owner
