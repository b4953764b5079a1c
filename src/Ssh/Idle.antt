-- ===== src/Ssh/Idle.antt =====
-- `tick_idle` and `stay_connected` of simple_network_dashboard/ssh_manager.py. The origin of the
-- clock is such that a reading is at least `idle_warn_seconds`.
pub mod Timeout
use simple_network_dashboard.Prelude.{
  lookup, insert, ℕ, ◌+◌, ◌-◌, ◌/◌, String, Bool, true, false, not, ◌&&◌, none, some, [], ◌∷◌, ltb,
  leb, if◌then◌else◌, is_nil, any, keep_if, string_eq, nat_eq, ◌==◌, Dict,
}
use simple_network_dashboard.Config.{idle_warn_seconds, idle_timeout_seconds, term_silence_seconds}
use simple_network_dashboard.Ssh.Session.{Session}
use simple_network_dashboard.Ssh.Manager.{
  Activity, idle_disconnected, ssh_idle_timeout, ssh_idle_warning, push, Manager, write_session,
  do_effect, log, owner_reset, owner_pop,
}
use simple_network_dashboard.Ssh.Close.{close}
use simple_network_dashboard.Ssh.HostKeys.{sweep_expired_host_key_prompts}

-- `[(did, s) for did, s in self.sessions.items() if s.owner == owner]`
unfoldable pub owned : Manager → String → Dict String ℕ
owned m owner = keep_if (λ (e : String × ℕ). (m.heap e.1).owner == owner) m.sessions

-- `now - s.last_io < config.TERM_SILENCE_SECONDS`
not_silent : ℕ → Session → Bool
not_silent now s = ltb now (s.last_io + term_silence_seconds)

-- whether a run of the owner is busy, and whether such a run is not silent
unfoldable pub any_busy : Manager → Dict String ℕ → Bool
any_busy m l = any (λ (e : String × ℕ). (m.heap e.1).busy) l

unfoldable pub any_lively : Manager → Dict String ℕ → ℕ → Bool
unfolding not_silent
any_lively m l now = any (λ (e : String × ℕ). (m.heap e.1).busy && not_silent now (m.heap e.1)) l

-- a change of the owner's entry, if there is one
unfoldable pub with_activity : Manager → String → (Activity → Activity) → Manager
with_activity m owner f = elim (lookup owner m.activity) [
  | none ↦ m
  | some info ↦ record m { activity = insert owner (f info) m.activity }
]

-- the owner is active now
unfoldable pub lively : ℕ → Activity → Activity
lively now info = record { last_active = now; warned = false; silent = false }

-- the owner's runs have just crossed into silence
unfoldable pub fell_silent : ℕ → Activity → Activity
fell_silent now info =
    if info.silent
    then info
    else record { last_active = now - idle_warn_seconds; warned = false; silent = true }

-- the loop that closes an idle owner's sessions
unfoldable pub time_out_each : Manager → String → Dict String ℕ → Manager
unfolding log
time_out_each m owner [] = m
time_out_each m owner ((did, g) ∷ rest) =
    time_out_each (close (log m did idle_disconnected (some owner) none) did (some g)) owner rest

unfoldable pub time_out : Manager → String → Dict String ℕ → Manager
unfolding time_out_each do_effect owner_pop
time_out m owner l =
    owner_pop (do_effect (time_out_each m owner l) (push (ssh_idle_timeout owner))) owner

-- `int(IDLE_TIMEOUT_SECONDS - idle)`, in seconds
unfoldable pub seconds_left : ℕ → ℕ
seconds_left idle_time = (idle_timeout_seconds - idle_time) / 1000

unfoldable pub warn : Manager → String → ℕ → Manager
unfolding do_effect with_activity seconds_left
warn m owner idle_time =
    with_activity (do_effect m (push (ssh_idle_warning owner (seconds_left idle_time)))) owner
      λ info. record info { warned = true }

-- the end of the loop body: time-out, warning or nothing
unfoldable pub judge : Manager → String → Dict String ℕ → ℕ → Manager
unfolding time_out warn
judge m owner l now = elim (lookup owner m.activity) [
  | none ↦ m
  | some info ↦
      let idle_time = now - info.last_active in
      if leb idle_timeout_seconds idle_time
      then time_out m owner l
      else if leb idle_warn_seconds idle_time && not info.warned
      then warn m owner idle_time
      else m
]

-- the loop body of `tick_idle` for one owner
unfoldable pub tick_owner : Manager → ℕ → String → Manager
unfolding judge with_activity owner_pop
tick_owner m now owner =
    let l = owned m owner in
    let silent = with_activity m owner (fell_silent now) in
    if is_nil l
    then owner_pop m owner
    else if any_lively m l now
    then with_activity m owner (lively now)
    else if any_busy m l
    then judge silent owner l now
    else judge m owner l now

unfoldable pub tick_each : Manager → ℕ → Dict String Activity → Manager
tick_each m now [] = m
tick_each m now ((owner, info) ∷ rest) = tick_each (tick_owner m now owner) now rest

-- `tick_idle`
unfoldable pub tick_idle : Manager → ℕ → Manager
unfolding tick_each
tick_idle m now = let m' = sweep_expired_host_key_prompts m now in tick_each m' now m'.activity

-- the loop of `stay_connected` over `self.sessions.values()`
unfoldable pub stay_each : Manager → String → ℕ → Dict String ℕ → Manager
unfolding write_session
stay_each m owner now [] = m
stay_each m owner now ((did, g) ∷ rest) =
    let s = m.heap g in
    let m' =
      if s.owner == owner && s.busy then write_session m g (record s { last_io = now }) else m in
    stay_each m' owner now rest

-- `stay_connected`
unfoldable pub stay_connected : Manager → String → ℕ → Manager
unfolding stay_each owner_reset
stay_connected m owner now = stay_each (owner_reset m owner now) owner now m.sessions
