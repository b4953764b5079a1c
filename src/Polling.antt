-- ===== src/Polling.antt =====
-- The metrics polling of simple_network_dashboard/main.py: `_log_metrics_result` and `_poll_once`.
-- Times are whole milliseconds of the monotonic clock. The results of the fetches, in the order in
-- which they finish, come from outside, as does the text of a frame.
mod Troubles
mod Tests
use simple_network_dashboard.Prelude.{
  lookup, insert, remove, ℕ, zero, suc, ◌+◌, ◌-◌, String, Bool, Option, none, some, List, [], ◌∷◌,
  ◌++◌, leb, if◌then◌else◌, ◌>>=◌, is_nil, any, keep_if, string_eq, nat_eq, ◌==◌, Dict,
}
use simple_network_dashboard.Config.{metrics_error_summary}
use simple_network_dashboard.Device.{Device}
use simple_network_dashboard.Sockets.{Frame, Sockets, broadcast, selected_device_ids}

-- an entry of `_metrics_error_state`
pub record Trouble : Type 0 where
  pub error : String
  pub window_count : ℕ
  pub total_count : ℕ
  pub window_start : ℕ

abbrev pub Troubles : Type 0
Troubles = Dict String Trouble

-- the line that is written, if the debug log is on
pub data Line : Type 0 where
  recovered : ℕ → Line
  failing : String → Line
  still_failing : String → ℕ → Line

unfoldable pub first_failure : String → ℕ → Trouble × Option Line
first_failure error now = (
  record { error = error; window_count = 1; total_count = 1; window_start = now },
  some (failing error),
)

-- a failure with the error of the entry
unfoldable pub same_failure : Trouble → ℕ → Trouble × Option Line
same_failure t now =
    let t' = record t { window_count = t.window_count + 1; total_count = t.total_count + 1 } in
    if leb metrics_error_summary (now - t.window_start)
    then (
      record t' { window_count = 0; window_start = now },
      some (still_failing t.error t'.window_count),
    )
    else (t', none)

unfoldable pub failure_of : Option Trouble → String → ℕ → Trouble × Option Line
failure_of none error now = first_failure error now
failure_of (some t) error now =
    if t.error == error then same_failure t now else first_failure error now

unfoldable pub recovery : Option Trouble → Option Line
recovery none = none
recovery (some t) = some (recovered t.total_count)

-- `_log_metrics_result`; an error that is none or empty is none
unfoldable pub log_metrics_result : Troubles → String → Option String → ℕ → Troubles × Option Line
log_metrics_result st did none now = (remove did st, recovery (lookup did st))
log_metrics_result st did (some error) now =
    let (t, line) = failure_of (lookup did st) error now in
    if error == "" then (remove did st, recovery (lookup did st)) else (insert did t st, line)

-- what `fetch_one` returned for a device: the metrics or its error, the public part as a frame, and
-- the reading of the clock
pub record Polled (M : Type 0) : Type 0 where
  pub metrics : M
  pub error : Option String
  pub public : Frame
  pub now : ℕ

-- `_metrics_cache`, `_metrics_error_state`, `ws_mgr`, and the lines written
pub record Poller (M : Type 0) : Type 0 where
  pub cache : Dict String M
  pub troubles : Troubles
  pub sockets : Sockets
  pub lines : List Line

unfoldable pub add_line : List Line → Option Line → List Line
add_line lines none = lines
add_line lines (some l) = lines ++ l ∷ []

-- the body of the loop over the finished tasks
unfoldable pub take_result : {M : Type 0} → Poller M → String → Polled M → Poller M
take_result p did r =
    let (troubles, line) = log_metrics_result p.troubles did r.error r.now in
    record p {
      cache = insert did r.metrics p.cache;
      troubles = troubles;
      sockets = broadcast p.sockets r.public;
      lines = add_line p.lines line;
    }

-- the loop, over the devices in the order in which their fetches finish
unfoldable pub take_results : {M : Type 0} → Poller M → (Device → Polled M) → List Device → Poller M
take_results p fetch [] = p
take_results p fetch (d ∷ ds) = take_results (take_result p d.id (fetch d)) fetch ds

-- the element after `n` others, and the rest
unfoldable pub pick : ℕ → List Device → Option (Device × List Device)
pick n [] = none
pick zero (d ∷ ds) = some (d, ds)
pick (suc n) (d ∷ ds) = do (x, rest) ← pick n ds; some (x, d ∷ rest)

-- the devices in the order in which their fetches finish: each number says how many of those that
-- are left stand before the next, and the order of the devices goes on where the numbers end
unfoldable pub as_completed : List ℕ → List Device → List Device
as_completed [] ds = ds
as_completed (n ∷ ns) ds = elim (pick n ds) [ none ↦ ds | some x ↦ x.0 ∷ as_completed ns x.1 ]

unfoldable pub is_selected : List String → String → Bool
is_selected selected did = any (λ s. s == did) selected

-- `selected_ids`
unfoldable pub selected_now : {M : Type 0} → Poller M → List String
selected_now p = if is_nil p.sockets.connections then [] else selected_device_ids p.sockets

-- the devices that a cycle fetches
unfoldable pub polled_devices : {M : Type 0} → Poller M → List Device → List Device
polled_devices p devices = keep_if (λ (d : Device). is_selected (selected_now p) d.id) devices

-- `_poll_once`, on the device list, with what each fetch returns and the order in which they finish
unfoldable pub poll_once :
    {M : Type 0} → Poller M → List Device → (Device → Polled M) → List ℕ → Poller M
poll_once p devices fetch turns =
    let selected = selected_now p in
    let kept = keep_if (λ (e : String × Trouble). is_selected selected e.0) p.troubles in
    take_results (record p { troubles = kept }) fetch
      (as_completed turns (polled_devices p devices))
