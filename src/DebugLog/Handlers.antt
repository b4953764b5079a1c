-- ===== src/DebugLog/Handlers.antt =====
-- Which handlers simple_network_dashboard/debug_log.py has open, and what its route answers.
use simple_network_dashboard.Prelude.{
  ℕ, String, ◌≡◌, refl, ap, ◌⊎◌, inl, inr, Bool, true, false, not, ◌&&◌, none, some, List, [], ◌∷◌,
  ◌++◌, arith, if◌then◌else◌, Option-cases, if_elim, option_elim, keep_if, nat_eq, ◌==◌, ==_refl,
}
use simple_network_dashboard.DebugLog.{
  DebugLog, Toggled, answer_on, answer_off, not_opened, raises, is_enabled, remove_handler,
  close_handler, disable_on_failure, write, enable, disable, toggle_debug, close_on_shutdown,
}

-- no handler is attached but the one on record
unfoldable pub IsSingle : DebugLog → Type 0
IsSingle l = (l.attached ≡ []) ⊎ ((h : ℕ) × (l.handler ≡ some h) × (l.attached ≡ h ∷ []))

emptied-IsSingle : (l : DebugLog) → l.attached ≡ [] → IsSingle l
unfolding IsSingle
emptied-IsSingle l e = inl e

-- the handler on record is taken off the logger
remove_handler-attached :
    (l : DebugLog) (h : ℕ)
    → IsSingle l
    → l.handler ≡ some h
    → keep_if (λ x. not (x == h)) l.attached ≡ []
unfolding IsSingle
remove_handler-attached l h (inl e) k = rw e
remove_handler-attached l h (inr (g, e, a)) k =
    let same : g ≡ h = ground (arith, e, k) in rw (a, same) (rw (==_refl h))

disable_on_failure-some :
    (l : DebugLog) (reason : String) (h : ℕ)
    → IsSingle l
    → l.handler ≡ some h
    → ((disable_on_failure l reason).handler ≡ none)
      × ((disable_on_failure l reason).failed_notice ≡ some reason)
      × IsSingle (disable_on_failure l reason)
unfolding disable_on_failure remove_handler close_handler
disable_on_failure-some l reason h s e =
    let P = λ (x : DebugLog). (x.handler ≡ none) × (x.failed_notice ≡ some reason) × IsSingle x in
    let gone = remove_handler-attached l h s e in
    rw (e, disable_on_failure)
      (if_elim P l.can_tell _ _ (λ _. unfold IsSingle in (refl, refl, inl gone))
        (λ _. unfold IsSingle in (refl, refl, inl gone)))

disable_on_failure-none :
    (l : DebugLog) (reason : String) → l.handler ≡ none → disable_on_failure l reason ≡ l
unfolding disable_on_failure
disable_on_failure-none l reason e =
    option_elim (λ (x : DebugLog). x ≡ l) l.handler _ _ (λ _. refl)
      (λ h k. absurd (ground (arith, e, k)))

disable_on_failure-IsSingle :
    (l : DebugLog) (reason : String) → IsSingle l → IsSingle (disable_on_failure l reason)
disable_on_failure-IsSingle l reason s = elim (Option-cases l.handler) [
  | inl n ↦ rw (disable_on_failure-none l reason n) s
  | inr (h, e) ↦ (disable_on_failure-some l reason h s e).2
]

abbrev pub write_failed : String
write_failed = "debug log write or rotation failed"

write-some :
    (l : DebugLog) (fails : Bool) (h : ℕ)
    → IsSingle l
    → l.handler ≡ some h
    → ((write l fails).handler ≡ (if fails then none else some h))
      × ((write l fails).failed_notice ≡ (if fails then some write_failed else l.failed_notice))
      × IsSingle (write l fails)
unfolding write
write-some l false h s e = rw (e, write) (e, refl, s)
write-some l true h s e = rw (e, write) (disable_on_failure-some l write_failed h s e)

write-none : (l : DebugLog) (fails : Bool) → l.handler ≡ none → write l fails ≡ l
unfolding write
write-none l fails e =
    option_elim (λ (x : DebugLog). x ≡ l) l.handler _ _ (λ _. refl)
      (λ h k. absurd (ground (arith, e, k)))

write-IsSingle : (l : DebugLog) (fails : Bool) → IsSingle l → IsSingle (write l fails)
write-IsSingle l fails s = elim (Option-cases l.handler) [
  | inl n ↦ rw (write-none l fails n) s
  | inr (h, e) ↦ (write-some l fails h s e).2
]

disable-IsSingle :
    (l : DebugLog) (fails closes : Bool) → IsSingle l → IsSingle (disable l fails closes).0
unfolding disable remove_handler close_handler
disable-IsSingle l fails closes s =
    let l1 = write l fails in
    let s1 = write-IsSingle l fails s in
    let P = λ (x : DebugLog × Toggled). IsSingle x.0 in
    option_elim P l1.handler _ _ (λ _. s1)
      (λ h e.
        let gone = remove_handler-attached l1 h s1 e in
        if_elim P closes _ _ (λ _. emptied-IsSingle _ gone) (λ _. emptied-IsSingle _ gone))

close_on_shutdown-IsSingle :
    (l : DebugLog) (fails : Bool) → IsSingle l → IsSingle (close_on_shutdown l fails)
unfolding close_on_shutdown remove_handler close_handler
close_on_shutdown-IsSingle l fails s =
    let l1 = write l fails in
    let s1 = write-IsSingle l fails s in
    option_elim IsSingle l1.handler _ _ (λ _. s1)
      (λ h e. emptied-IsSingle _ (remove_handler-attached l1 h s1 e))

single_empty : (l : DebugLog) → IsSingle l → l.handler ≡ none → l.attached ≡ []
unfolding IsSingle
single_empty l (inl e) n = e
single_empty l (inr (h, e, a)) n = absurd (ground (arith, e, n))

enabled-IsSingle :
    (l : DebugLog) (h : ℕ)
    → IsSingle l
    → l.handler ≡ none
    → IsSingle
        (record l { handler = some h; attached = l.attached ++ h ∷ []; failed_notice = none })
unfolding IsSingle
enabled-IsSingle l h s n =
    inr (h, refl, ap (λ (x : List ℕ). x ++ h ∷ []) (single_empty l (unfold IsSingle in s) n))

enable-IsSingle :
    (l : DebugLog) (h : ℕ) (opens fails : Bool)
    → IsSingle l
    → l.handler ≡ none
    → IsSingle (enable l h opens fails).0
unfolding enable
enable-IsSingle l h false fails s n = s
enable-IsSingle l h true fails s n = write-IsSingle _ fails (enabled-IsSingle l h s n)

-- a write, a failure elsewhere in `logging`, a request, or the shutdown
pub data LogEvent : Type 0 where
  wrote : Bool → LogEvent
  rotation_failed : String → LogEvent
  toggled : Bool → ℕ → Bool → Bool → Bool → LogEvent
  shut_down : Bool → LogEvent

unfoldable pub happen : DebugLog → LogEvent → DebugLog
happen l (wrote fails) = write l fails
happen l (rotation_failed reason) = disable_on_failure l reason
happen l (toggled wanted h opens fails closes) = (toggle_debug l wanted h opens fails closes).0
happen l (shut_down fails) = close_on_shutdown l fails

unfoldable pub happen_all : DebugLog → List LogEvent → DebugLog
happen_all l [] = l
happen_all l (e ∷ es) = happen_all (happen l e) es

toggle_debug-IsSingle :
    (l : DebugLog) (wanted : Bool) (h : ℕ) (opens fails closes : Bool)
    → IsSingle l
    → IsSingle (toggle_debug l wanted h opens fails closes).0
unfolding toggle_debug is_enabled
toggle_debug-IsSingle l wanted h opens fails closes s =
    let P = λ (x : DebugLog × Toggled). IsSingle x.0 in
    if_elim P (wanted && not (is_enabled l)) _ _
      (λ t. enable-IsSingle l h opens fails s (ground (arith, t)))
      (λ _.
        if_elim P (not wanted && is_enabled l) _ _ (λ _. disable-IsSingle l fails closes s)
          (λ _. s))

happen-IsSingle : (l : DebugLog) (e : LogEvent) → IsSingle l → IsSingle (happen l e)
unfolding happen
happen-IsSingle l (wrote fails) s = write-IsSingle l fails s
happen-IsSingle l (rotation_failed reason) s = disable_on_failure-IsSingle l reason s
happen-IsSingle l (toggled wanted h opens fails closes) s =
    toggle_debug-IsSingle l wanted h opens fails closes s
happen-IsSingle l (shut_down fails) s = close_on_shutdown-IsSingle l fails s

-- If no handler is attached to the logger but the one on record, then so it is after any writes,
-- failed rotations, requests to turn the log on or off, and shutdowns, whichever of their writes
-- and closes fail: no handler that is off the record is left on the logger.
pub happen_all-IsSingle :
    (l : DebugLog) (es : List LogEvent) → IsSingle l → IsSingle (happen_all l es)
unfolding happen_all
happen_all-IsSingle l [] s = s
happen_all-IsSingle l (e ∷ es) s = happen_all-IsSingle (happen l e) es (happen-IsSingle l e s)

-- what an answer says of the log before and after
unfoldable pub IsToggled : DebugLog → Bool → Bool → Bool → Bool → DebugLog × Toggled → Type 0
IsToggled l wanted opens fails closes (l', answer_on) =
    (wanted ≡ true) × (is_enabled l ≡ false) × (opens ≡ true) × (is_enabled l' ≡ not fails)
IsToggled l wanted opens fails closes (l', answer_off) =
    ((wanted ≡ true) × (is_enabled l ≡ true) × (l' ≡ l))
    ⊎ ((wanted ≡ false) × (is_enabled l' ≡ false))
IsToggled l wanted opens fails closes (l', not_opened) =
    (wanted ≡ true) × (is_enabled l ≡ false) × (opens ≡ false) × (l' ≡ l)
IsToggled l wanted opens fails closes (l', raises) =
    (wanted ≡ false)
    × (is_enabled l ≡ true)
    × (l'.attached ≡ [])
    × (((fails ≡ true) × (is_enabled l' ≡ false) × (l'.failed_notice ≡ some write_failed))
        ⊎ ((fails ≡ false) × (closes ≡ false) × (l'.handler ≡ l.handler)))

enable-IsToggled :
    (l : DebugLog) (h : ℕ) (opens fails closes : Bool)
    → IsSingle l
    → l.handler ≡ none
    → IsToggled l true opens fails closes (enable l h opens fails)
unfolding enable IsToggled is_enabled
enable-IsToggled l h false fails closes s n = (refl, rw n, refl, refl)
enable-IsToggled l h true fails closes s n =
    let one = enabled-IsSingle l h s n in
    (refl, rw n, refl, ground (arith, write-some _ fails h one refl))

disable-IsToggled :
    (l : DebugLog) (h : ℕ) (opens fails closes : Bool)
    → IsSingle l
    → l.handler ≡ some h
    → IsToggled l false opens fails closes (disable l fails closes)
unfolding disable remove_handler close_handler
disable-IsToggled l h opens fails closes s e =
    let written = write-some l fails h s e in
    let P = IsToggled l false opens fails closes in
    option_elim P (write l fails).handler _ _
      (λ n.
        unfold IsToggled is_enabled in
        (
          refl,
          rw e,
          single_empty (write l fails) written.2 n,
          inl (ground (arith, written.0, n), rw n, ground (arith, written, n)),
        ))
      (λ k n.
        if_elim P closes _ _ (λ _. unfold IsToggled is_enabled in inr (refl, refl))
          (λ c.
            unfold IsToggled is_enabled in
            (
              refl,
              rw e,
              remove_handler-attached (write l fails) k written.2 n,
              inr (ground (arith, written.0, n), c, ground (arith, written.0, n, e)),
            )))

-- What each answer to a request to turn the debug log on or off says, if no handler is attached but
-- the one on record. `enabled: true` comes only if the log was off and its file opened, and the log
-- is then on unless its first write failed. `enabled: false` comes if the log is off as was wanted,
-- or if it was wanted on and is on, unchanged. An error comes if the file did not open, and nothing
-- has changed. The request raises only if the log was on and to be turned off, and no handler is
-- attached then: either the write of the last line failed, and the log is off with the notice of
-- the failure, or closing the handler raised, and the handler is still on record.
pub toggle_debug-IsToggled :
    (l : DebugLog) (wanted : Bool) (h : ℕ) (opens fails closes : Bool)
    → IsSingle l
    → IsToggled l wanted opens fails closes (toggle_debug l wanted h opens fails closes)
unfolding toggle_debug is_enabled
toggle_debug-IsToggled l true h opens fails closes s =
    let P = IsToggled l true opens fails closes in
    if_elim P (not (is_enabled l)) _ _
      (λ t. enable-IsToggled l h opens fails closes s (ground (arith, t)))
      (λ t. unfold IsToggled is_enabled in inl (refl, ground (arith, t), refl))
toggle_debug-IsToggled l false h opens fails closes s =
    let P = IsToggled l false opens fails closes in
    if_elim P (is_enabled l) _ _
      (λ t. elim (Option-cases l.handler) [
        | inl n ↦ absurd (ground (arith, n, t))
        | inr (k, e) ↦ disable-IsToggled l k opens fails closes s e
      ])
      (λ t. unfold IsToggled is_enabled in inr (refl, t))
