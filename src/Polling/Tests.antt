-- ===== src/Polling/Tests.antt =====
-- Theorems on the metrics polling of simple_network_dashboard/main.py at concrete inputs.
use simple_network_dashboard.Prelude.{
  lookup, insert, ℕ, String, ◌≡◌, refl, none, some, [], ◌∷◌, arith, string_eq, nat_eq,
}
use simple_network_dashboard.Device.{Device}
use simple_network_dashboard.Sockets.{new_sockets, selected_device_ids}
use simple_network_dashboard.Polling.{
  Trouble, failing, still_failing, first_failure, same_failure, failure_of, log_metrics_result,
  Polled, Poller, add_line, take_result, take_results, as_completed, is_selected, selected_now,
  polled_devices, poll_once,
}
use simple_network_dashboard.Polling.Troubles.{
  fail_all, IsOrdered, last_of, IsSummed, fail_all-IsSummed, IsTracked, poll_once-IsTracked,
}

fail_all_run :
    (fail_all [] [] "d1" "timeout" (0 ∷ 2000 ∷ 310000 ∷ 312000 ∷ [])).1
    ≡ failing "timeout" ∷ still_failing "timeout" 3 ∷ []
unfolding fail_all log_metrics_result failure_of first_failure same_failure add_line lookup insert
fail_all_run = refl

times-IsOrdered : IsOrdered 0 (2000 ∷ 310000 ∷ [])
unfolding IsOrdered
times-IsOrdered = omega arith

fail_all-IsSummed_example :
    IsSummed "d1" 3 0
      (last_of 0 (2000 ∷ 310000 ∷ []))
      (fail_all [] [] "d1" "timeout" (0 ∷ 2000 ∷ 310000 ∷ []))
fail_all-IsSummed_example =
    fail_all-IsSummed [] "d1" "timeout" 0 (2000 ∷ 310000 ∷ []) refl (unfold lookup in refl)
      times-IsOrdered

abbrev trouble : Trouble
trouble = record { error = "dns"; window_count = 1; total_count = 1; window_start = 0 }

abbrev poller : Poller ℕ
poller = record {
  cache = [];
  troubles = ("d1", trouble) ∷ ("d2", trouble) ∷ [];
  sockets = record new_sockets { connections = 1 ∷ []; selections = (1, "d2") ∷ [] };
  lines = [];
}

abbrev result : Polled ℕ
result = record {
  metrics = 5;
  error = some "dns";
  public = record { body = []; check = none };
  now = 2000;
}

-- a device of this id
abbrev device : String → Device
device id = record {
  id = id;
  name = id;
  host = "192.0.2.1";
  username = "root";
  metrics_port = 9100;
  commands = [];
}

poll_once-IsTracked_example :
    IsTracked
      (selected_now poller)
      (poll_once poller (device "d1" ∷ device "d2" ∷ []) (λ d. result) []).troubles
poll_once-IsTracked_example =
    poll_once-IsTracked poller (device "d1" ∷ device "d2" ∷ []) (λ d. result) []

-- the failure of "d2" goes on, and "d1" is forgotten
poll_once_run :
    (poll_once poller (device "d1" ∷ device "d2" ∷ []) (λ d. result) []).troubles
    ≡ ("d2", record trouble { window_count = 2; total_count = 2 }) ∷ []
unfolding poll_once polled_devices is_selected selected_now selected_device_ids new_sockets
    as_completed take_results take_result log_metrics_result failure_of same_failure insert lookup
    add_line
poll_once_run = refl
