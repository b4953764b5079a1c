-- ===== src/Ssh/Invariant/Requests.antt =====
-- What is done on behalf of an owner, as steps of the manager in any order and interleaving: requests,
-- what the threads of the owner's runs do, and the locked sections that these are made of. `connect`
-- is three steps, since the network answers with no lock held. The methods that close a session
-- (`_close`, `disconnect`, `trust_host_key`, `reject_host_key`, `release_owner`, the sweep and the idle
-- clock) are also there as their single sections, between which other steps may come.
use simple_network_dashboard.Prelude.{
  ℕ, String, ◌≡◌, refl, sym, ap, ◌∙◌, ◌≢◌, Option, none, some, List, arith, nat_beq_iff, string_eq,
  nat_eq, Dict,
}
use simple_network_dashboard.Ssh.Session.{Session}
use simple_network_dashboard.Ssh.Manager.{
  Pending, Activity, Effect, Manager, write_session, do_effect, slot, clear_pending,
}
use simple_network_dashboard.Ssh.Close.{
  pop_slot, announce_closed, mismatch, disconnect, disconnect_all,
}
use simple_network_dashboard.Ssh.Connect.{reserve, close_replaced, Outcome, finish}
use simple_network_dashboard.Ssh.HostKeys.{
  HostsUpdate, finish_trust, trust_host_key, reject_host_key,
}
use simple_network_dashboard.Ssh.Commands.{run_command, finish_exec, writer_is_stuck}
use simple_network_dashboard.Ssh.Control.{
  claim_terminal, terminal_input, terminal_resize, terminal_ack, cancel, force_stop,
  request_terminal_redraw,
}
use simple_network_dashboard.Ssh.Idle.{tick_idle, stay_connected}
use simple_network_dashboard.Ssh.Owners.{release_owner, owner_terminal_snapshot}
use simple_network_dashboard.Ssh.Invariant.{IsConsistent, SameSession}
use simple_network_dashboard.Ssh.Invariant.Steps.{
  IsSafe, other-IsSafe, clear_pending-IsSafe, write_session-IsSafe, pop_slot-IsSafe,
  do_effect-IsSafe,
}
use simple_network_dashboard.Ssh.Invariant.Closing.{announce_closed-IsSafe, disconnect-IsSafe}
use simple_network_dashboard.Ssh.Invariant.Runs.{
  run_command-IsSafe, claim_terminal-IsSafe, terminal_input-IsSafe, terminal_resize-IsSafe,
  terminal_ack-IsSafe, request_terminal_redraw-IsSafe, cancel-IsSafe,
}
use simple_network_dashboard.Device.{Device}
use simple_network_dashboard.Terminal.Size.{Integer}
use simple_network_dashboard.Ssh.Invariant.Batches.{
  stay_connected-IsSafe, release_owner-IsSafe, owner_terminal_snapshot-IsSafe,
}
use simple_network_dashboard.Ssh.Invariant.Prompts.{
  finish_trust-IsSafe, trust_host_key-IsSafe, reject_host_key-IsSafe,
}
use simple_network_dashboard.Ssh.Invariant.Connecting.{reserve-IsSafe}
use simple_network_dashboard.Ssh.Invariant.Connecting.Finishing.{
  close_replaced-IsSafe, finish-IsSafe,
}
use simple_network_dashboard.Ssh.Invariant.Workers.{
  finish_exec-IsSafe, force_stop-IsSafe, writer_is_stuck-IsSafe,
}
use simple_network_dashboard.Ssh.Invariant.Unowned.{
  disconnect-IsConsistent, disconnect_all-IsConsistent, tick_idle-IsConsistent,
}

pub data Step (owner : String) (m : Manager) : Manager → Type 0 where
  reserves :
      (did password : String) (device : Device) (now : ℕ)
      → Step owner m (reserve m did password device owner now).0
  -- the old session that `connect` closes is the owner's
  closes_replaced :
      (did : String) (old : ℕ)
      → (m.heap old).owner ≡ owner
      → Step owner m (close_replaced m did owner (some old))
  -- so is the one that it finishes
  finishes :
      (did : String) (g : ℕ) (old : Option ℕ) (answer : Outcome) (code : String) (now : ℕ)
      → (m.heap g).owner ≡ owner
      → Step owner m (finish m did g old answer code now).0
  disconnects : (did : String) → Step owner m (disconnect m did (some owner)).0
  trusts :
      (did code : String) (now : ℕ) (update : HostsUpdate)
      → Step owner m (trust_host_key m did code owner now update).0
  rejects : (did code : String) (now : ℕ) → Step owner m (reject_host_key m did code owner now).0
  runs :
      (did : String) (cmd : List ℕ) (label : Option String) (cols rows : Option Integer)
      (run_id : String) (now : ℕ)
      → Step owner m (run_command m did cmd label (some owner) cols rows run_id now).0
  claims :
      (did : String) (run_id : Option String) (socket_id : String)
      → Step owner m (claim_terminal m did run_id owner socket_id).0
  types_in :
      (did : String) (run_id : Option String) (rev : ℕ) (text : Option (List ℕ))
      (socket_id : String) (now : ℕ)
      → Step owner m (terminal_input m did run_id rev text owner socket_id now).0
  resizes :
      (did : String) (run_id : Option String) (rev : ℕ) (cols rows : Option Integer)
      (socket_id : String)
      → Step owner m (terminal_resize m did run_id rev cols rows owner socket_id).0
  acknowledges :
      (did : String) (run_id : Option String) (seq : Option Integer) (now : ℕ)
      → Step owner m (terminal_ack m did run_id seq owner now)
  cancels :
      (did : String) (run_id : Option String) → Step owner m (cancel m did run_id (some owner)).0
  redraws :
      (did : String) (run_id : Option String)
      → Step owner m (request_terminal_redraw m did run_id owner).0
  stays : (now : ℕ) → Step owner m (stay_connected m owner now)
  reconnects : (now : ℕ) → Step owner m (owner_terminal_snapshot m owner now).0
  releases : Step owner m (release_owner m owner)
  -- the worker, the stop timer and the writer of a run of the owner's
  ends_run : (g now : ℕ) → (m.heap g).owner ≡ owner → Step owner m (finish_exec m g now)
  forces_stop :
      (did : String) (g : ℕ) (run_id : Option String) (channel : ℕ)
      → (m.heap g).owner ≡ owner
      → Step owner m (force_stop m did g run_id channel)
  gets_stuck :
      (did : String) (g : ℕ) (run_id : Option String) (channel : ℕ)
      → (m.heap g).owner ≡ owner
      → Step owner m (writer_is_stuck m did g run_id channel)
  -- the sections of a close: a session of the owner's leaves its slot; the prompt of the device is
  -- forgotten; the client of the popped session is closed and the browsers are told
  pops :
      (did : String) (g : ℕ)
      → slot m did ≡ some g
      → (m.heap g).owner ≡ owner
      → Step owner m (pop_slot m did g)
  forgets : (did : String) → Step owner m (clear_pending m did)
  announces :
      (did : String) (g : ℕ) (to : Option String)
      → (m.heap g).owner ≡ owner
      → Step owner m (announce_closed m did g to)
  -- an approval once its prompt is taken, with the session that it is bound to
  ends_trust :
      (did : String) (p : Pending) (g : ℕ) (update : HostsUpdate)
      → (m.heap g).owner ≡ owner
      → Step owner m (finish_trust m did p (some g) update).0
  -- a message or another effect, and a change of when owners were active
  tells : (e : Effect) → Step owner m (do_effect m e)
  counts : (activity : Dict String Activity) → Step owner m (record m { activity = activity })
  -- an assignment by a thread of a session of the owner's, such as the worker of a run, to any of
  -- its fields but owner, device and generation, that does not reopen it
  writes :
      (g : ℕ) (s : Session)
      → (m.heap g).owner ≡ owner
      → SameSession (m.heap g) s
      → Step owner m (write_session m g s)

pub Step-IsSafe :
    (owner : String) (m : Manager) (h : IsConsistent m) {m' : Manager}
    → Step owner m m'
    → IsSafe owner m m'
Step-IsSafe owner m h (reserves did password device now) =
    reserve-IsSafe owner m h did password device now
Step-IsSafe owner m h (closes_replaced did old o) =
    close_replaced-IsSafe owner m h did (some old)
      λ g e. let same : old ≡ g = cc e in ap (λ (i : ℕ). (m.heap i).owner) (sym same) ∙ o
Step-IsSafe owner m h (finishes did g old answer code now o) =
    finish-IsSafe owner m h did g o old answer code now
Step-IsSafe owner m h (disconnects did) = disconnect-IsSafe owner m h did
Step-IsSafe owner m h (trusts did code now update) =
    trust_host_key-IsSafe owner m h did code now update
Step-IsSafe owner m h (rejects did code now) = reject_host_key-IsSafe owner m h did code now
Step-IsSafe owner m h (runs did cmd label cols rows run_id now) =
    run_command-IsSafe owner m h did cmd label cols rows run_id now
Step-IsSafe owner m h (claims did run_id socket_id) =
    claim_terminal-IsSafe owner m h did run_id socket_id
Step-IsSafe owner m h (types_in did run_id rev text socket_id now) =
    terminal_input-IsSafe owner m h did run_id rev text socket_id now
Step-IsSafe owner m h (resizes did run_id rev cols rows socket_id) =
    terminal_resize-IsSafe owner m h did run_id rev cols rows socket_id
Step-IsSafe owner m h (acknowledges did run_id seq now) =
    terminal_ack-IsSafe owner m h did run_id seq now
Step-IsSafe owner m h (cancels did run_id) = cancel-IsSafe owner m h did run_id
Step-IsSafe owner m h (redraws did run_id) = request_terminal_redraw-IsSafe owner m h did run_id
Step-IsSafe owner m h (stays now) = stay_connected-IsSafe owner m h now
Step-IsSafe owner m h (reconnects now) = owner_terminal_snapshot-IsSafe owner m h now
Step-IsSafe owner m h releases = release_owner-IsSafe owner m h
Step-IsSafe owner m h (ends_run g now o) = finish_exec-IsSafe owner m h g now o
Step-IsSafe owner m h (forces_stop did g run_id channel o) =
    force_stop-IsSafe owner m h did g run_id channel o
Step-IsSafe owner m h (gets_stuck did g run_id channel o) =
    writer_is_stuck-IsSafe owner m h did g run_id channel o
Step-IsSafe owner m h (pops did g q o) = pop_slot-IsSafe owner m h did g q o
Step-IsSafe owner m h (forgets did) = clear_pending-IsSafe owner m h did
Step-IsSafe owner m h (announces did g to o) = announce_closed-IsSafe owner m h did g to o
Step-IsSafe owner m h (ends_trust did p g update o) =
    finish_trust-IsSafe owner m h did p (some g) update λ k q e.
      let same : k ≡ g = unfold mismatch in ground (arith, nat_beq_iff k g) in
      ap (λ (i : ℕ). (m.heap i).owner) same ∙ o
Step-IsSafe owner m h (tells e) = do_effect-IsSafe owner m h e
Step-IsSafe owner m h (counts activity) = other-IsSafe owner m h activity m.effects
Step-IsSafe owner m h (writes g s o e) = write_session-IsSafe owner m h g s o e

-- steps for owners for which `P` holds, one after another
pub data Steps (P : String → Type 0) : Manager → Manager → Type 0 where
  nothing : {m : Manager} → Steps P m m
  next :
      {owner : String} {m m1 m2 : Manager}
      → P owner
      → Step owner m m1
      → Steps P m1 m2
      → Steps P m m2

-- whatever the program does to the manager: a step for any owner, the deletion of a device, a tick of
-- the idle clock, which also sweeps the prompts, and the end of the program
pub data Events : Manager → Manager → Type 0 where
  none_yet : {m : Manager} → Events m m
  acts : {owner : String} {m m1 m2 : Manager} → Step owner m m1 → Events m1 m2 → Events m m2
  deletes : {m m2 : Manager} (did : String) → Events (disconnect m did none).0 m2 → Events m m2
  ticks : {m m2 : Manager} (now : ℕ) → Events (tick_idle m now) m2 → Events m m2
  ends_all : {m m2 : Manager} → Events (disconnect_all m) m2 → Events m m2

-- From a manager that meets the invariant, the invariant still holds after any steps for any
-- owners, deletions of devices, ticks of the idle clock with its sweep of the prompts, and a
-- closing of all sessions, in whatever order, also where a method that takes locks several times to
-- close a session is interrupted by others between its sections: the session in a device's slot is
-- a live one of that device, drawn from the counter, and a host-key prompt on record carries the
-- owner of the session that raised it.
pub Events-IsConsistent : {m m' : Manager} → IsConsistent m → Events m m' → IsConsistent m'
Events-IsConsistent h none_yet = h
Events-IsConsistent {m} h (acts {owner = owner} step rest) =
    Events-IsConsistent (Step-IsSafe owner m h step).consistent rest
Events-IsConsistent {m} h (deletes did rest) =
    Events-IsConsistent (disconnect-IsConsistent m h did) rest
Events-IsConsistent {m} h (ticks now rest) =
    Events-IsConsistent (tick_idle-IsConsistent m now h) rest
Events-IsConsistent {m} h (ends_all rest) =
    Events-IsConsistent (disconnect_all-IsConsistent m h) rest

-- From a manager that meets the invariant, steps for other owners only, however many and in
-- whatever order, leave a session that is in its slot there, with every field of it unchanged.
-- Steps for an owner are its requests, what the workers, timers and writers of its runs do and
-- assign, and every single locked section of a close of one of its sessions, for whatever reason it
-- is closed; of what may be done to any session, which is to delete its device or to end the
-- program, nothing is said.
pub Steps-untouched :
    (owner did : String) (g : ℕ) {m m' : Manager}
    → IsConsistent m
    → Steps (λ other. owner ≢ other) m m'
    → slot m did ≡ some g
    → (m.heap g).owner ≡ owner
    → (slot m' did ≡ some g) × (m'.heap g ≡ m.heap g)
Steps-untouched owner did g h nothing q o = (q, refl)
Steps-untouched owner did g {m} h (next {owner = other} p step rest) q o =
    let safe = Step-IsSafe other m h step in
    let there = (h.slots did g q).allocated in
    let apart : (m.heap g).owner ≢ other = λ e. p (sym o ∙ e) in
    let same = safe.others.objects g there apart in
    let later =
      Steps-untouched owner did g safe.consistent rest (safe.others.slots did g there q apart)
        (ap (λ (s : Session). s.owner) same ∙ o) in
    (later.0, later.1 ∙ same)
