-- ===== src/Sockets.antt =====
-- `_WSManager` of simple_network_dashboard/ws_manager.py: the sockets of the browsers and what waits
-- to be sent to each. A socket is named by a number, and the frame `(data, still_current)` by its
-- text, its length and the number of its check.
mod Queue
mod Order
mod Owners
mod Tests
use simple_network_dashboard.Prelude.{
  lookup, insert, remove, ℕ, ◌+◌, ◌-◌, String, Bool, true, false, not, ◌||◌, Option, none, some,
  List, [], ◌∷◌, ◌++◌, map, ltb, if◌then◌else◌, length, keep_if, string_eq, nat_eq, ◌==◌, Dict,
}
use simple_network_dashboard.Config.{socket_queue_max_bytes}

pub record Frame : Type 0 where
  pub body : List ℕ
  pub check : Option ℕ

-- `_SocketState`, and in `sent` what its sender has passed to `ws.send_text`, oldest first
pub record SocketState : Type 0 where
  pub queue : List Frame
  pub queued_bytes : ℕ
  pub ready : Bool
  pub event : Bool
  pub sent : List Frame

unfoldable pub new_socket : SocketState
new_socket = record { queue = []; queued_bytes = 0; ready = false; event = false; sent = [] }

-- `state.queued_bytes + len(data) > config.SOCKET_QUEUE_MAX_BYTES`
over : SocketState → Frame → Bool
over s f = ltb socket_queue_max_bytes (s.queued_bytes + length f.body)

-- the frame goes to the end, or none if the socket is to be closed
pub add_last : SocketState → Frame → Option SocketState
unfolding over
add_last s f =
    if over s f
    then none
    else some (record s {
      queue = s.queue ++ f ∷ [];
      queued_bytes = s.queued_bytes + length f.body;
      event = s.event || s.ready;
    })

-- the first frame goes before all held ones, and the sender may start
pub add_first : SocketState → Frame → Option SocketState
unfolding over
add_first s f =
    if over s f
    then none
    else some (record s {
      queue = f ∷ s.queue;
      queued_bytes = s.queued_bytes + length f.body;
      ready = true;
      event = true;
    })

-- `still_current is None or still_current()`; an exception counts as false
is_still_current : Option ℕ → (ℕ → Bool) → Bool
is_still_current none answers = true
is_still_current (some k) answers = answers k

-- the sender takes the first frame, and sends it if it is still current
take_frame : List Frame → SocketState → (ℕ → Bool) → SocketState
unfolding is_still_current
take_frame [] s answers = record s { event = false }
take_frame (f ∷ rest) s answers =
    let s' = record s { queue = rest; queued_bytes = s.queued_bytes - length f.body } in
    if is_still_current f.check answers then record s' { sent = s.sent ++ f ∷ [] } else s'

-- One round of `_send_queued` in which nothing fails. The event stays set while there are frames.
pub send_round : SocketState → (ℕ → Bool) → SocketState
unfolding take_frame
send_round s answers =
    if not s.event
    then s
    else if not s.ready
    then record s { event = false }
    else take_frame s.queue s answers

pub record Sockets : Type 0 where
  pub connections : List ℕ
  pub owners : Dict ℕ String
  pub socket_ids : Dict ℕ String
  pub selections : Dict ℕ String
  pub states : Dict ℕ SocketState
  -- the sockets that are being closed with code 1013
  pub closing : List ℕ

-- `_WSManager()`
unfoldable pub new_sockets : Sockets
new_sockets = record {
  connections = [];
  owners = [];
  socket_ids = [];
  selections = [];
  states = [];
  closing = [];
}

-- an owner or a device id that is none or empty is as good as absent
unfoldable pub unless_empty : Option String → Option String
unless_empty none = none
unless_empty (some s) = if s == "" then none else some s

-- `connect`; `socket_id` is the new random name
unfoldable pub connect : Sockets → ℕ → Option String → String → Sockets
unfolding unless_empty new_socket
connect m ws owner_id socket_id = record m {
  connections = m.connections ++ ws ∷ [];
  states = insert ws new_socket m.states;
  owners = elim (unless_empty owner_id) [ none ↦ m.owners | some owner ↦ insert ws owner m.owners ];
  socket_ids = insert ws socket_id m.socket_ids;
}

-- `drop`
unfoldable pub drop_socket : Sockets → ℕ → Sockets
drop_socket m ws = record m {
  connections = keep_if (λ c. not (c == ws)) m.connections;
  owners = remove ws m.owners;
  socket_ids = remove ws m.socket_ids;
  selections = remove ws m.selections;
  states = remove ws m.states;
}

-- `_close_socket`
unfoldable pub close_socket : Sockets → ℕ → Sockets
unfolding drop_socket
close_socket m ws = let m' = drop_socket m ws in record m' { closing = m.closing ++ ws ∷ [] }

-- the socket's state after a change, or the socket closed
change : Sockets → ℕ → Option SocketState → Sockets
unfolding close_socket
change m ws none = close_socket m ws
change m ws (some s) = record m { states = insert ws s m.states }

-- `send_init`
pub send_init : Sockets → ℕ → Frame → Sockets
unfolding change add_first
send_init m ws f = elim (lookup ws m.states) [ none ↦ m | some s ↦ change m ws (add_first s f) ]

-- `_enqueue`, and `send_to`
pub enqueue : Sockets → ℕ → Frame → Sockets
unfolding change add_last
enqueue m ws f = elim (lookup ws m.states) [ none ↦ m | some s ↦ change m ws (add_last s f) ]

-- a round of the sender of a socket; `fails` is whether `ws.send_text` fails or takes too long
pub send_queued : Sockets → ℕ → (ℕ → Bool) → Bool → Sockets
unfolding change send_round
send_queued m ws answers fails = elim (lookup ws m.states) [
  | none ↦ m
  | some s ↦ if fails then close_socket m ws else change m ws (some (send_round s answers))
]

enqueue_each : Sockets → List ℕ → Frame → Sockets
enqueue_each m [] f = m
enqueue_each m (ws ∷ rest) f = enqueue_each (enqueue m ws f) rest f

-- `broadcast`
pub broadcast : Sockets → Frame → Sockets
unfolding enqueue_each
broadcast m f = enqueue_each m m.connections f

-- `self._owners.get(ws) == owner_id`
owned_by : Sockets → String → ℕ → Bool
owned_by m owner ws = elim (lookup ws m.owners) [ none ↦ false | some o ↦ o == owner ]

send_each : Sockets → String → List ℕ → Frame → Sockets
unfolding owned_by
send_each m owner [] f = m
send_each m owner (ws ∷ rest) f =
    send_each (if owned_by m owner ws then enqueue m ws f else m) owner rest f

-- `send_to_owner`
pub send_to_owner : Sockets → String → Frame → Sockets
unfolding send_each
send_to_owner m owner f = if owner == "" then m else send_each m owner m.connections f

-- `set_selected_device`
pub set_selected_device : Sockets → ℕ → Option String → Sockets
unfolding unless_empty
set_selected_device m ws device_id = elim (unless_empty device_id) [
  | none ↦ record m { selections = remove ws m.selections }
  | some did ↦ record m { selections = insert ws did m.selections }
]

-- `unselect_device_everywhere`
pub unselect_device_everywhere : Sockets → String → Sockets
unselect_device_everywhere m did = record m {
  selections = keep_if (λ (e : ℕ × String). not (e.1 == did)) m.selections;
}

-- `owner_count`
unfoldable pub owner_count : Sockets → String → ℕ
owner_count m owner = length (keep_if (λ (e : ℕ × String). e.1 == owner) m.owners)

-- `owner_of` and `socket_id`
pub owner_of : Sockets → ℕ → Option String
owner_of m ws = lookup ws m.owners

pub socket_id_of : Sockets → ℕ → Option String
socket_id_of m ws = lookup ws m.socket_ids

pair_with : ℕ → Option String → List (ℕ × String)
pair_with ws none = []
pair_with ws (some name) = (ws, name) ∷ []

pair_each : Sockets → String → List ℕ → List (ℕ × String)
unfolding owned_by pair_with
pair_each m owner [] = []
pair_each m owner (ws ∷ rest) =
    let more = pair_each m owner rest in
    if owned_by m owner ws then pair_with ws (lookup ws m.socket_ids) ++ more else more

-- `owner_sockets`
pub owner_sockets : Sockets → String → List (ℕ × String)
unfolding pair_each
owner_sockets m owner = pair_each m owner m.connections

-- `selected_device_ids`, as a list in which an id may come twice
unfoldable pub selected_device_ids : Sockets → List String
selected_device_ids m = map (λ (e : ℕ × String). e.1) m.selections
