-- ===== src/DebugLog/Tests.antt =====
-- Runs of simple_network_dashboard/debug_log.py, and its theorems at concrete inputs.
use simple_network_dashboard.Prelude.{
  ◌≡◌, refl, inr, true, false, none, some, List, [], ◌∷◌, nat_eq,
}
use simple_network_dashboard.DebugLog.{
  DebugLog, raises, is_enabled, remove_handler, close_handler, disable_on_failure, write, enable,
  disable, toggle_debug,
}
use simple_network_dashboard.DebugLog.Handlers.{
  IsSingle, LogEvent, wrote, toggled, happen, happen_all, happen_all-IsSingle, IsToggled,
  toggle_debug-IsToggled,
}

abbrev off : DebugLog
off = record {
  handler = none;
  attached = [];
  closed = [];
  failed_notice = none;
  told = [];
  can_tell = true;
}

abbrev on : DebugLog
on = record off { handler = some 1; attached = 1 ∷ [] }

abbrev busy : List LogEvent
busy =
    wrote false ∷ toggled true 2 true true true ∷ wrote true ∷ toggled true 3 true false true ∷ []

on-IsSingle : IsSingle on
unfolding IsSingle
on-IsSingle = inr (1, refl, refl)

busy_run : (happen_all on busy).attached ≡ 3 ∷ []
unfolding happen_all happen write disable_on_failure remove_handler close_handler toggle_debug
    is_enabled enable disable
busy_run = refl

happen_all-IsSingle_example : IsSingle (happen_all on busy)
happen_all-IsSingle_example = happen_all-IsSingle on busy on-IsSingle

-- the handler cannot be closed while the log is turned off
toggle_debug-IsToggled_example :
    IsToggled on false true false false (toggle_debug on false 2 true false false)
toggle_debug-IsToggled_example = toggle_debug-IsToggled on false 2 true false false on-IsSingle

-- the last write fails
turned_off_raises : (toggle_debug on false 2 true true true).1 ≡ raises
unfolding write disable_on_failure remove_handler close_handler toggle_debug is_enabled disable
turned_off_raises = refl

-- it stays on record, with nothing attached
stays_on_record : (toggle_debug on false 2 true false false).0.handler ≡ some 1
unfolding write disable_on_failure remove_handler close_handler toggle_debug is_enabled disable
stays_on_record = refl
