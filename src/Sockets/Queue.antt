-- ===== src/Sockets/Queue.antt =====
-- What waits for a socket is counted exactly, and bounded.
use simple_network_dashboard.Prelude.{
  lookup, insert, ℕ, ◌+◌, ◌≤◌, String, ◌≡◌, refl, ap, subst, ◌∙◌, inl, inr, Bool, not, Option, none,
  some, List, [], ◌∷◌, arith, ltb, Bool-cases, if_elim, option_elim, length, sum_of, sum_of-append,
  string_eq, nat_eq, ◌==◌, lookup-insert, lookup-remove-some,
}
use simple_network_dashboard.Config.{socket_queue_max_bytes}
use simple_network_dashboard.Sockets.{
  Frame, SocketState, new_socket, over, add_last, add_first, is_still_current, take_frame,
  send_round, Sockets, new_sockets, unless_empty, connect, drop_socket, close_socket, change,
  send_init, enqueue, send_queued, enqueue_each, broadcast, owned_by, send_each, send_to_owner,
  set_selected_device, unselect_device_everywhere,
}

abbrev frame_size : Frame → ℕ
frame_size f = length f.body

-- `queued_bytes` is the size of the queue, and at most 4 MiB.
pub record IsWithin (s : SocketState) : Type 0 where
  pub exact : s.queued_bytes ≡ sum_of frame_size s.queue
  pub bounded : s.queued_bytes ≤ socket_queue_max_bytes

pub record AreWithin (m : Sockets) : Type 0 where
  pub each : (ws : ℕ) (s : SocketState) → lookup ws m.states ≡ some s → IsWithin s

pub new_sockets-AreWithin : AreWithin new_sockets
unfolding new_sockets lookup
new_sockets-AreWithin = record { each = λ ws s e. cc }

-- what an optional state satisfies
abbrev OptionWithin : Option SocketState → Type 0
OptionWithin none = Unit
OptionWithin (some s) = IsWithin s

add_last-IsWithin : (s : SocketState) (f : Frame) → IsWithin s → OptionWithin (add_last s f)
unfolding add_last over
add_last-IsWithin s f h =
    if_elim OptionWithin (ltb socket_queue_max_bytes (s.queued_bytes + length f.body)) _ _ (λ _. tt)
      λ e. record {
        exact = omega (arith, h.exact, sum_of-append frame_size s.queue (f ∷ []));
        bounded = ground arith;
      }

add_first-IsWithin : (s : SocketState) (f : Frame) → IsWithin s → OptionWithin (add_first s f)
unfolding add_first over
add_first-IsWithin s f h =
    if_elim OptionWithin (ltb socket_queue_max_bytes (s.queued_bytes + length f.body)) _ _ (λ _. tt)
      λ e. record { exact = omega (arith, h.exact); bounded = ground arith }

take_frame-IsWithin :
    (l : List Frame) (s : SocketState) (answers : ℕ → Bool)
    → s.queue ≡ l
    → IsWithin s
    → IsWithin (take_frame l s answers)
unfolding take_frame
take_frame-IsWithin [] s answers e h = record { exact = h.exact; bounded = h.bounded }
take_frame-IsWithin (f ∷ rest) s answers e h =
    let total : s.queued_bytes ≡ length f.body + sum_of frame_size rest =
      h.exact ∙ ap (sum_of frame_size) e in
    if_elim IsWithin (is_still_current f.check answers) _ _
      (λ _. record { exact = omega arith; bounded = omega (arith, h.bounded) })
      λ _. record { exact = omega arith; bounded = omega (arith, h.bounded) }

send_round-IsWithin :
    (s : SocketState) (answers : ℕ → Bool) → IsWithin s → IsWithin (send_round s answers)
unfolding send_round
send_round-IsWithin s answers h =
    if_elim IsWithin (not s.event) _ _ (λ _. h)
      λ _.
        if_elim IsWithin (not s.ready) _ _ (λ _. record { exact = h.exact; bounded = h.bounded })
          λ _. take_frame-IsWithin s.queue s answers refl h

module _ (m : Sockets) (h : AreWithin m) where
  drop_socket-AreWithin : (ws : ℕ) → AreWithin (drop_socket m ws)
  unfolding drop_socket
  drop_socket-AreWithin ws = record {
    each = λ k s e. h.each k s (lookup-remove-some k ws m.states e);
  }

  insert-AreWithin :
      (ws : ℕ) (s : SocketState)
      → IsWithin s
      → (k : ℕ) (r : SocketState) → lookup k (insert ws s m.states) ≡ some r
      → IsWithin r
  insert-AreWithin ws s w k r e = elim (Bool-cases (ws == k)) [
    | inl same ↦
        let one : s ≡ r = ground (arith, lookup-insert k ws s m.states) in subst IsWithin one w
    | inr differ ↦ h.each k r (ground (arith, lookup-insert k ws s m.states))
  ]

  change-AreWithin : (ws : ℕ) (o : Option SocketState) → OptionWithin o → AreWithin (change m ws o)
  unfolding change close_socket
  change-AreWithin ws none w = record { each = (drop_socket-AreWithin ws).each }
  change-AreWithin ws (some s) w = record { each = insert-AreWithin ws s w }

  enqueue-AreWithin : (ws : ℕ) (f : Frame) → AreWithin (enqueue m ws f)
  unfolding enqueue
  enqueue-AreWithin ws f =
      option_elim AreWithin (lookup ws m.states) _ _ (λ _. h)
        λ s e. change-AreWithin ws (add_last s f) (add_last-IsWithin s f (h.each ws s e))

  send_init-AreWithin : (ws : ℕ) (f : Frame) → AreWithin (send_init m ws f)
  unfolding send_init
  send_init-AreWithin ws f =
      option_elim AreWithin (lookup ws m.states) _ _ (λ _. h)
        λ s e. change-AreWithin ws (add_first s f) (add_first-IsWithin s f (h.each ws s e))

  send_queued-AreWithin :
      (ws : ℕ) (answers : ℕ → Bool) (fails : Bool) → AreWithin (send_queued m ws answers fails)
  unfolding send_queued
  send_queued-AreWithin ws answers fails =
      option_elim AreWithin (lookup ws m.states) _ _ (λ _. h)
        λ s e.
          if_elim AreWithin fails _ _ (λ _. change-AreWithin ws none tt)
            λ _.
              change-AreWithin ws (some (send_round s answers))
                (send_round-IsWithin s answers (h.each ws s e))

  connect-AreWithin :
      (ws : ℕ) (owner : Option String) (name : String) → AreWithin (connect m ws owner name)
  unfolding connect new_socket
  connect-AreWithin ws owner name = record {
    each = insert-AreWithin ws new_socket (record { exact = refl; bounded = omega arith });
  }

enqueue_each-AreWithin :
    (l : List ℕ) (m : Sockets) (f : Frame) → AreWithin m → AreWithin (enqueue_each m l f)
unfolding enqueue_each
enqueue_each-AreWithin [] m f h = h
enqueue_each-AreWithin (ws ∷ l) m f h =
    enqueue_each-AreWithin l (enqueue m ws f) f (enqueue-AreWithin m h ws f)

send_each-AreWithin :
    (l : List ℕ) (m : Sockets) (owner : String) (f : Frame)
    → AreWithin m
    → AreWithin (send_each m owner l f)
unfolding send_each
send_each-AreWithin [] m owner f h = h
send_each-AreWithin (ws ∷ l) m owner f h =
    send_each-AreWithin l _ owner f
      (if_elim AreWithin (owned_by m owner ws) _ _ (λ _. enqueue-AreWithin m h ws f) λ _. h)

-- what happens to the sockets, in any order
pub data Event : Type 0 where
  connects : ℕ → Option String → String → Event
  drops : ℕ → Event
  inits : ℕ → Frame → Event
  sends : ℕ → Frame → Event
  broadcasts : Frame → Event
  tells_owner : String → Frame → Event
  rounds : ℕ → (ℕ → Bool) → Bool → Event
  selects : ℕ → Option String → Event
  unselects : String → Event

unfoldable pub happen : Sockets → Event → Sockets
happen m (connects ws owner name) = connect m ws owner name
happen m (drops ws) = drop_socket m ws
happen m (inits ws f) = send_init m ws f
happen m (sends ws f) = enqueue m ws f
happen m (broadcasts f) = broadcast m f
happen m (tells_owner owner f) = send_to_owner m owner f
happen m (rounds ws answers fails) = send_queued m ws answers fails
happen m (selects ws device_id) = set_selected_device m ws device_id
happen m (unselects did) = unselect_device_everywhere m did

unfoldable pub happen_all : Sockets → List Event → Sockets
happen_all m [] = m
happen_all m (e ∷ rest) = happen_all (happen m e) rest

happen-AreWithin : (m : Sockets) (e : Event) → AreWithin m → AreWithin (happen m e)
unfolding happen
happen-AreWithin m (connects ws owner name) h = connect-AreWithin m h ws owner name
happen-AreWithin m (drops ws) h = drop_socket-AreWithin m h ws
happen-AreWithin m (inits ws f) h = send_init-AreWithin m h ws f
happen-AreWithin m (sends ws f) h = enqueue-AreWithin m h ws f
happen-AreWithin m (broadcasts f) h = unfold broadcast in enqueue_each-AreWithin m.connections m f h
happen-AreWithin m (tells_owner owner f) h =
    unfold send_to_owner in
    (if_elim AreWithin (owner == "") _ _ (λ _. h)
      λ _. send_each-AreWithin m.connections m owner f h)
happen-AreWithin m (rounds ws answers fails) h = send_queued-AreWithin m h ws answers fails
happen-AreWithin m (selects ws device_id) h =
    unfold set_selected_device in
    option_elim AreWithin (unless_empty device_id) _ _ (λ _. record { each = h.each })
      λ did _. record { each = h.each }
happen-AreWithin m (unselects did) h = unfold unselect_device_everywhere in record { each = h.each }

-- If for every connected socket the byte count is the size of the frames that wait, and at most 4
-- MiB, then so it is after whatever happens, in whatever order.
pub happen_all-AreWithin :
    (m : Sockets) (events : List Event) → AreWithin m → AreWithin (happen_all m events)
unfolding happen_all
happen_all-AreWithin m [] h = h
happen_all-AreWithin m (e ∷ rest) h =
    happen_all-AreWithin (happen m e) rest (happen-AreWithin m e h)
