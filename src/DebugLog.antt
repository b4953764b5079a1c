-- ===== src/DebugLog.antt =====
-- simple_network_dashboard/debug_log.py and the route `toggle_debug` of main.py: the optional debug
-- log. A handler is named by a number. Whether opening a file works, whether a write to it fails, and
-- whether closing it raises, come from outside. A write fails in `handleError`, which does not raise.
mod Handlers
mod Tests
use simple_network_dashboard.Prelude.{
  ℕ, String, Bool, not, ◌&&◌, Option, none, some, List, [], ◌∷◌, ◌++◌, if◌then◌else◌, is_none,
  keep_if, nat_eq, ◌==◌,
}

-- `_debug_handler`, the handlers of `_debug_logger`, those on which `close` was called, `_debug_failed_notice`,
-- the reasons told to the browsers, and whether there are a loop and a broadcaster to tell them by
pub record DebugLog : Type 0 where
  pub handler : Option ℕ
  pub attached : List ℕ
  pub closed : List ℕ
  pub failed_notice : Option String
  pub told : List String
  pub can_tell : Bool

-- the answer of the route, `enabled` true or false or an error, or that it raises
pub data Toggled : Type 0 where
  answer_on answer_off not_opened raises : Toggled

-- `_debug_enabled`
unfoldable pub is_enabled : DebugLog → Bool
is_enabled l = not (is_none l.handler)

-- `removeHandler`
unfoldable pub remove_handler : DebugLog → ℕ → DebugLog
remove_handler l h = record l { attached = keep_if (λ x. not (x == h)) l.attached }

-- `handler.close()`
unfoldable pub close_handler : DebugLog → ℕ → DebugLog
close_handler l h = record l { closed = l.closed ++ h ∷ [] }

-- `_disable_debug_on_failure`, which goes on if closing raises
unfoldable pub disable_on_failure : DebugLog → String → DebugLog
disable_on_failure l reason = elim l.handler [
  | none ↦ l
  | some h ↦
      let l1 =
        close_handler (remove_handler (record l { handler = none; failed_notice = some reason }) h)
          h in
      if l.can_tell then record l1 { told = l1.told ++ reason ∷ [] } else l1
]

-- `_debug_write`, if a write to the file fails or not
unfoldable pub write : DebugLog → Bool → DebugLog
write l fails = elim l.handler [
  | none ↦ l
  | some h ↦ if fails then disable_on_failure l "debug log write or rotation failed" else l
]

-- `enable`, with the new handler, whether it opens, and whether its first write fails
unfoldable pub enable : DebugLog → ℕ → Bool → Bool → DebugLog × Toggled
enable l h opens fails =
    let l1 = record l { handler = some h; attached = l.attached ++ h ∷ []; failed_notice = none } in
    if opens then (write l1 fails, answer_on) else (l, not_opened)

-- `disable`; a handler of `None` has no method `close`, and a close that raises leaves the handler on
-- record
unfoldable pub disable : DebugLog → Bool → Bool → DebugLog × Toggled
disable l fails closes =
    let l1 = write l fails in
    elim l1.handler [
      | none ↦ (l1, raises)
      | some h ↦
          let l2 = close_handler (remove_handler l1 h) h in
          if closes then (record l2 { handler = none }, answer_off) else (l2, raises)
    ]

-- `toggle_debug`
unfoldable pub toggle_debug : DebugLog → Bool → ℕ → Bool → Bool → Bool → DebugLog × Toggled
toggle_debug l wanted h opens fails closes =
    if wanted && not (is_enabled l)
    then enable l h opens fails
    else if not wanted && is_enabled l
    then disable l fails closes
    else (l, answer_off)

-- `close_on_shutdown`; a close that raises ends it, with the handler off the record
unfoldable pub close_on_shutdown : DebugLog → Bool → DebugLog
close_on_shutdown l fails =
    let l1 = write l fails in
    elim l1.handler [
      | none ↦ l1
      | some h ↦ close_handler (remove_handler (record l1 { handler = none }) h) h
    ]
