-- ===== src/Ssh/Control.antt =====
-- simple_network_dashboard/terminal_control.py: what a browser may do to a running command. Each
-- method is one locked section.
pub mod Acks
pub mod Takeover
use mathlib.Core.Option
use simple_network_dashboard.Terminal.Writer
use simple_network_dashboard.Prelude.{
  ℕ, ◌+◌, ◌-◌, String, Bool, true, false, not, ◌&&◌, ◌||◌, Option, none, some, List, ltb, leb,
  if◌then◌else◌, length, is_none, keep_if, sum_of, ◌==◌, nat_eq, string_eq, Dict,
}
use simple_network_dashboard.Config.{
  term_unacked_max_bytes, term_ack_stall_seconds, term_input_max_chars,
}
use simple_network_dashboard.Terminal.Size.{Integer, nonneg, neg, clamp_size}
use simple_network_dashboard.Terminal.Writer.{Writer}
use simple_network_dashboard.Ssh.Session.{Session}
use simple_network_dashboard.Ssh.Manager.{
  close_channel, start_stop_timer, Manager, write_session, do_effect, slot, is_current,
}
use simple_network_dashboard.Ssh.Commands.{is_connected, not_owned_by, same_run, same_channel}

-- `sess.owner == owner and sess.state == "connected" and sess.busy and sess.run_id == run_id`
unfoldable pub is_own_run : Session → Option String → String → Bool
unfolding is_connected same_run
is_own_run s run_id owner =
    s.owner == owner && is_connected s.state && s.busy && same_run s.run_id run_id

-- A method on the session in the slot, if there is one and it passes a test; else it refuses.
unfoldable pub guarded :
    {R : Type 0}
    → Manager
    → String
    → (Session → Bool)
    → R
    → (ℕ → Session → Manager × R)
    → Manager × R
guarded m did test refuse act = elim (slot m did) [
  | none ↦ (m, refuse)
  | some g ↦ if test (m.heap g) then act g (m.heap g) else (m, refuse)
]

-- `claim_terminal`: the new control revision, or none
unfoldable pub claim_terminal :
    Manager → String → Option String → String → String → Manager × Option ℕ
unfolding write_session
claim_terminal m did run_id owner socket_id =
    guarded m did (λ s. is_own_run s run_id owner) none
      λ g s. (
        write_session m g (record s {
          controller = some socket_id;
          control_rev = s.control_rev + 1;
          writer = Option.map Writer.clear_input s.writer;
        }),
        some (s.control_rev + 1),
      )

-- `sess.controller == socket_id and sess.control_rev == rev and sess.auth_complete and
-- sess.writer is not None`
unfoldable pub controls : Session → ℕ → String → Bool
unfolding same_run
controls s rev socket_id =
    same_run s.controller (some socket_id)
    && s.control_rev == rev
    && s.auth_complete
    && not (is_none s.writer)

pub data InputResult : Type 0 where
  refused_input full accepted : InputResult

unfoldable pub write_input :
    Manager → ℕ → Session → List ℕ → ℕ → Option Writer → Manager × InputResult
unfolding write_session
write_input m g s text now none = (m, refused_input)
write_input m g s text now (some w) =
    let (w', taken) = Writer.input w text in
    if taken
    then (write_session m g (record s { writer = some w'; last_io = now }), accepted)
    else (m, full)

-- `terminal_input`; the text is none if what the browser sent is no string
unfoldable pub terminal_input :
    Manager
    → String
    → Option String
    → ℕ
    → Option (List ℕ)
    → String
    → String
    → ℕ
    → Manager × InputResult
unfolding write_input controls
terminal_input m did run_id rev none owner socket_id now = (m, refused_input)
terminal_input m did run_id rev (some text) owner socket_id now =
    guarded m did
      (λ s.
        leb (length text) term_input_max_chars
        && is_own_run s run_id owner
        && controls s rev socket_id)
      refused_input λ g s. write_input m g s text now s.writer

resize_writer : ℕ × ℕ → Writer → Writer
resize_writer (cols, rows) w = Writer.resize w cols rows

-- `terminal_resize`; a size is none if what the browser sent is no integer
unfoldable pub terminal_resize :
    Manager
    → String
    → Option String
    → ℕ
    → Option Integer
    → Option Integer
    → String
    → String
    → Manager × Bool
unfolding write_session controls resize_writer
terminal_resize m did run_id rev none rows owner socket_id = (m, false)
terminal_resize m did run_id rev (some cols) none owner socket_id = (m, false)
terminal_resize m did run_id rev (some cols) (some rows) owner socket_id =
    guarded m did (λ s. is_own_run s run_id owner && controls s rev socket_id) false
      λ g s.
        let size = clamp_size (some cols) (some rows) in
        (
          write_session m g
              (record s { size = some size; writer = Option.map (resize_writer size) s.writer }),
          true,
        )

-- `del sess.sent_bytes[sent_seq]` for the numbers up to `seq`
pub forget_sent : ℕ → Dict ℕ ℕ → Dict ℕ ℕ
forget_sent seq sent = keep_if (λ (e : ℕ × ℕ). ltb seq e.0) sent

-- the assignments of `terminal_ack` under `term_condition`
unfoldable pub acknowledged : Session → ℕ → ℕ → Session
acknowledged s seq now = if ltb s.sent_seq seq || leb seq s.acked_seq then s else record s {
  acked_seq = seq;
  ack_progress_at = now;
  ack_stalled = false;
  sent_bytes = forget_sent seq s.sent_bytes;
}

-- `terminal_ack`; the number is none if what the browser sent is no integer, and one below 0
-- is below `acked_seq`
unfoldable pub terminal_ack :
    Manager → String → Option String → Option Integer → String → ℕ → Manager
unfolding write_session
terminal_ack m did run_id none owner now = m
terminal_ack m did run_id (some (neg n)) owner now = m
terminal_ack m did run_id (some (nonneg seq)) owner now =
    (guarded m did (λ s. is_own_run s run_id owner) tt
      λ g s. (write_session m g (acknowledged s seq now), tt)).0

-- `sum(sess.sent_bytes.values())`
pub unacked : Session → ℕ
unacked s = sum_of (λ (e : ℕ × ℕ). e.1) s.sent_bytes

-- One round of the loop of `_wait_for_terminal_ack`: the answer, or none if it waits. The first
-- argument is whether the session is still in its slot with this run, the second whether a browser
-- of the owner is connected.
unfoldable pub wait_for_terminal_ack : Bool → Bool → Session → ℕ → Session × Option Bool
wait_for_terminal_ack current watching s now =
    if not current
    then (s, some false)
    else if s.cancelled
    then (s, some true)
    else if not watching || s.ack_stalled
    then (s, some true)
    else if leb (unacked s) term_unacked_max_bytes
    then (s, some true)
    else if leb (s.ack_progress_at + term_ack_stall_seconds) now
    then (record s { ack_stalled = true }, some true)
    else (s, none)

pub data CancelResult : Type 0 where
  not_running not_owner_of cancelling : CancelResult

-- what `cancel` does once its guards have passed
unfoldable pub cancel_run : Manager → String → Option String → ℕ → Session → Option ℕ → Manager
unfolding write_session do_effect
cancel_run m did run_id g s none = write_session m g s
cancel_run m did run_id g s (some channel) =
    let ready = s.auth_complete && not (is_none s.writer) in
    let forced = write_session m g (record s { forced = true }) in
    let asked =
      write_session m g
        (record s { writer = Option.map Writer.interrupt s.writer; stop_timer = true }) in
    if ready && s.stop_timer
    then do_effect forced (close_channel channel)
    else if ready
    then do_effect asked (start_stop_timer did g run_id channel)
    else do_effect (write_session m g s) (close_channel channel)

-- `cancel`
unfoldable pub cancel : Manager → String → Option String → Option String → Manager × CancelResult
unfolding cancel_run
cancel m did run_id owner =
    guarded m did (λ s. s.busy && same_run s.run_id run_id) not_running
      λ g s. if not_owned_by owner s.owner then (m, not_owner_of) else (
        cancel_run m did run_id g (record s { cancelled = true; cancel_requested = true })
            s.channel,
        cancelling,
      )

-- `_force_stop`, when the stop timer runs out
unfoldable pub force_stop : Manager → String → ℕ → Option String → ℕ → Manager
unfolding write_session is_current do_effect
force_stop m did g run_id channel =
    let s = m.heap g in
    if is_current m did g && same_run s.run_id run_id && same_channel s.channel channel
    then do_effect (write_session m g (record s { forced = true })) (close_channel channel)
    else m

redraw : Option (ℕ × ℕ) → Writer → Writer
redraw none w = w
redraw (some (cols, rows)) w = Writer.resize (Writer.resize w cols (rows - 1)) cols rows

-- `request_terminal_redraw`
unfoldable pub request_terminal_redraw : Manager → String → Option String → String → Manager × Bool
unfolding write_session redraw
request_terminal_redraw m did run_id owner =
    guarded m did
      (λ s.
        s.owner == owner
        && same_run s.run_id run_id
        && not (is_none s.writer)
        && not (is_none s.size))
      false
      λ g s. (write_session m g (record s { writer = Option.map (redraw s.size) s.writer }), true)
