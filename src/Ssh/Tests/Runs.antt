-- ===== src/Ssh/Tests/Runs.antt =====
-- Runs of a command by the owner of a session, and instances of the theorems on them.
use simple_network_dashboard.Prelude.{
  lookup, insert, remove, ℕ, ◌≡◌, refl, ◌≢◌, inl, true, false, none, some, [], ◌∷◌, arith, is_nil,
  string_eq, nat_eq,
}
use simple_network_dashboard.Ssh.Session.{Session, new_session}
use simple_network_dashboard.Ssh.Manager.{
  Activity, Manager, write_session, do_effect, is_current, owner_or_slot, log, status, lock,
  owner_touch,
}
use simple_network_dashboard.Ssh.Connect.{place, reserve, connects, complete, finish}
use simple_network_dashboard.Ssh.Commands.{
  strip, is_connected, run_reserved, not_owned_by, run_command, same_run,
}
use simple_network_dashboard.Ssh.Control.{
  is_own_run, guarded, claim_terminal, refused_input, terminal_input,
}
use simple_network_dashboard.Ssh.Control.Takeover.{claim_terminal-excludes}
use simple_network_dashboard.Ssh.Control.Acks.{IsAcked}
use simple_network_dashboard.Ssh.Idle.{owned, any_busy, any_lively, tick_owner}
use simple_network_dashboard.Ssh.Idle.Timeout.{IsTimedOut, tick_owner-IsTimedOut}
use simple_network_dashboard.Ssh.Tests.{device, reserved_by_alice}

-- a run of alice's
abbrev connected_by_alice : Manager
connected_by_alice = (finish reserved_by_alice "d1" 1 none connects "" 2000).0

abbrev run_by_alice : Manager
run_by_alice =
    (run_command connected_by_alice "d1" (b'l' ∷ b's' ∷ []) none (some "alice") none none "r1"
      5000).0

claims_test : (claim_terminal run_by_alice "d1" (some "r1") "alice" "tab2").1 ≡ some 1
unfolding claim_terminal guarded is_own_run run_command run_reserved strip is_connected not_owned_by
    finish complete owner_touch log status lock do_effect owner_or_slot is_current same_run reserve
    place write_session new_session lookup insert remove
claims_test = refl

claim_terminal-excludes_example :
    terminal_input
      (claim_terminal run_by_alice "d1" (some "r1") "alice" "tab2").0
      "d1"
      (some "r1")
      0
      (some (b'x' ∷ []))
      "alice"
      "tab1"
      6000
    ≡ ((claim_terminal run_by_alice "d1" (some "r1") "alice" "tab2").0, refused_input)
claim_terminal-excludes_example =
    claim_terminal-excludes run_by_alice "d1" (some "r1") "alice" "tab2" 1 claims_test (some "r1") 0
      (some (b'x' ∷ [])) "alice" "tab1" 6000 (inl zero_not_one)
  where
    zero_not_one : ◌≢◌ {A = ℕ} 0 1
    zero_not_one e = cc

abbrev sent_three : Session
sent_three = record (new_session device "secret" "alice" "d1" 1 0) {
  sent_seq = 3;
  sent_bytes = (1, 100) ∷ (2, 200) ∷ (3, 300) ∷ [];
}

sent_three-IsAcked : IsAcked sent_three
unfolding new_session
sent_three-IsAcked = record {
  order = omega arith;
  waiting =
      ((omega arith, omega arith), ((omega arith, omega arith), ((omega arith, omega arith), tt)));
}

abbrev since_connect : Activity
since_connect = record { last_active = 2000; warned = false; silent = false }

activity_test :
    (lookup "alice" connected_by_alice.activity ≡ some since_connect)
    × (lookup "alice" run_by_alice.activity ≡ some since_connect)
unfolding run_command run_reserved strip is_connected not_owned_by finish complete owner_touch log
    status lock do_effect owner_or_slot is_current reserve place write_session new_session lookup
    insert remove
activity_test = (refl, refl)

owned_test :
    (is_nil (owned connected_by_alice "alice") ≡ false)
    × (any_busy connected_by_alice (owned connected_by_alice "alice") ≡ false)
    × (is_nil (owned run_by_alice "alice") ≡ false)
    × (any_lively run_by_alice (owned run_by_alice "alice") 6000 ≡ true)
unfolding owned any_busy any_lively run_command run_reserved strip is_connected not_owned_by finish
    complete owner_touch log status lock do_effect owner_or_slot is_current reserve place
    write_session new_session lookup insert remove
owned_test = (refl, refl, refl, refl)

tick_owner-IsTimedOut_example : IsTimedOut "alice" (tick_owner connected_by_alice 302000 "alice")
tick_owner-IsTimedOut_example =
    tick_owner-IsTimedOut "alice" connected_by_alice 302000 since_connect activity_test.0
      owned_test.0 owned_test.1 (omega arith)
