-- ===== src/Sockets/Owners.antt =====
-- A message for one owner reaches no socket of another.
use simple_network_dashboard.Prelude.{
  lookup, ℕ, ◌+◌, ◌<◌, String, ◌≡◌, refl, sym, ap, ◌∙◌, ◌≢◌, inl, inr, Bool, true, false, not, none,
  some, List, [], ◌∷◌, ◌++◌, arith, eq_iff, if◌then◌else◌, nat_beq_iff, Bool-cases, if_elim,
  option_elim, length, any, keep_if, string_eq, nat_eq, ◌==◌, lookup-insert, lookup-remove,
}
use simple_network_dashboard.Sockets.{
  Frame, SocketState, over, add_last, Sockets, drop_socket, close_socket, change, enqueue, owned_by,
  send_each, send_to_owner,
}
use simple_network_dashboard.Config.{socket_queue_max_bytes}

module _ (m : Sockets) (ws k : ℕ) (apart : (k == ws) ≡ false) where
  close_socket-other :
      (lookup ws (close_socket m k).states ≡ lookup ws m.states)
      × (lookup ws (close_socket m k).owners ≡ lookup ws m.owners)
  unfolding close_socket drop_socket
  close_socket-other =
      (lookup-remove ws k m.states ∙ rw apart, lookup-remove ws k m.owners ∙ rw apart)

  enqueue-other :
      (f : Frame)
      → (lookup ws (enqueue m k f).states ≡ lookup ws m.states)
        × (lookup ws (enqueue m k f).owners ≡ lookup ws m.owners)
  unfolding enqueue change
  enqueue-other f =
      let P = λ (r : Sockets).
        (lookup ws r.states ≡ lookup ws m.states) × (lookup ws r.owners ≡ lookup ws m.owners) in
      option_elim P (lookup k m.states) _ _ (λ _. (refl, refl))
        λ s _.
          option_elim (λ (r : Sockets). P r) (add_last s f) (close_socket m k) _
            (λ _. close_socket-other) λ s' _. (lookup-insert ws k s' m.states ∙ rw apart, refl)

-- the owner's name in the table is not that of a socket that it does not own
not_owned_by :
    (m : Sockets) (owner : String) (ws : ℕ)
    → lookup ws m.owners ≢ some owner
    → owned_by m owner ws ≡ false
unfolding owned_by
not_owned_by m owner ws n =
    option_elim (λ (b : Bool). b ≡ false) (lookup ws m.owners) _ _ (λ _. refl)
      λ o q. elim (Bool-cases (o == owner)) [
        | inl same ↦ absurd (n (q ∙ ap some ((eq_iff o owner).0 same)))
        | inr differ ↦ differ
      ]

-- the record of a socket is as it was
pub record IsUntouched (m m' : Sockets) (ws : ℕ) : Type 0 where
  pub state : lookup ws m'.states ≡ lookup ws m.states
  pub owner : lookup ws m'.owners ≡ lookup ws m.owners

send_one-IsUntouched :
    (m : Sockets) (owner : String) (ws k : ℕ) (f : Frame)
    → lookup ws m.owners ≢ some owner
    → IsUntouched m (if owned_by m owner k then enqueue m k f else m) ws
send_one-IsUntouched m owner ws k f n =
    if_elim (λ (r : Sockets). IsUntouched m r ws) (owned_by m owner k) _ _
      (λ mine. elim (Bool-cases (k == ws)) [
        | inl same ↦
            let e : k ≡ ws = (nat_beq_iff k ws).0 same in
            let foreign = not_owned_by m owner ws n in
            absurd (cc (ap (owned_by m owner) e, mine, foreign))
        | inr apart ↦ let (a, b) = enqueue-other m ws k apart f in record { state = a; owner = b }
      ])
      λ _. record { state = refl; owner = refl }

send_each-IsUntouched :
    (l : List ℕ) (m : Sockets) (owner : String) (ws : ℕ) (f : Frame)
    → lookup ws m.owners ≢ some owner
    → IsUntouched m (send_each m owner l f) ws
unfolding send_each
send_each-IsUntouched [] m owner ws f n = record { state = refl; owner = refl }
send_each-IsUntouched (k ∷ l) m owner ws f n =
    let m1 = if owned_by m owner k then enqueue m k f else m in
    let one = send_one-IsUntouched m owner ws k f n in
    let rest = send_each-IsUntouched l m1 owner ws f λ e. n (sym one.owner ∙ e) in
    record { state = rest.state ∙ one.state; owner = rest.owner ∙ one.owner }

-- A message for an owner leaves every socket that is not registered under that owner as it was, with
-- what waits for it and what it was sent, even if sockets of the owner are closed on the way.
pub send_to_owner-IsUntouched :
    (m : Sockets) (owner : String) (ws : ℕ) (f : Frame)
    → lookup ws m.owners ≢ some owner
    → IsUntouched m (send_to_owner m owner f) ws
unfolding send_to_owner
send_to_owner-IsUntouched m owner ws f n =
    if_elim (λ (r : Sockets). IsUntouched m r ws) (owner == "") _ _
      (λ _. record { state = refl; owner = refl })
      λ _. send_each-IsUntouched m.connections m owner ws f n

-- nothing of the socket is left but its closing
pub record IsForgotten (m : Sockets) (ws : ℕ) : Type 0 where
  pub states : lookup ws m.states ≡ none
  pub owners : lookup ws m.owners ≡ none
  pub socket_ids : lookup ws m.socket_ids ≡ none
  pub selections : lookup ws m.selections ≡ none
  pub connections : any (λ c. c == ws) m.connections ≡ false

any-keep_if : (l : List ℕ) (ws : ℕ) → any (λ c. c == ws) (keep_if (λ c. not (c == ws)) l) ≡ false
any-keep_if [] ws = refl
any-keep_if (c ∷ l) ws = ground (arith, any-keep_if l ws)

close_socket-IsForgotten : (m : Sockets) (ws : ℕ) → IsForgotten (close_socket m ws) ws
unfolding close_socket drop_socket
close_socket-IsForgotten m ws =
    let same : (ws == ws) ≡ true = (nat_beq_iff ws ws).1 refl in
    record {
      states = lookup-remove ws ws m.states ∙ rw same;
      owners = lookup-remove ws ws m.owners ∙ rw same;
      socket_ids = lookup-remove ws ws m.socket_ids ∙ rw same;
      selections = lookup-remove ws ws m.selections ∙ rw same;
      connections = any-keep_if m.connections ws;
    }

-- A frame that would take a connected socket over 4 MiB is not queued: the socket is forgotten in
-- every table and its closing is under way, and all other sockets stay as they were.
pub enqueue-IsForgotten :
    (m : Sockets) (ws : ℕ) (f : Frame) (s : SocketState)
    → lookup ws m.states ≡ some s
    → socket_queue_max_bytes < s.queued_bytes + length f.body
    → IsForgotten (enqueue m ws f) ws
      × ((enqueue m ws f).closing ≡ m.closing ++ ws ∷ [])
      × ((k : ℕ) → (ws == k) ≡ false → IsUntouched m (enqueue m ws f) k)
enqueue-IsForgotten m ws f s there large =
    let too_big : add_last s f ≡ none = (unfold add_last over in ground arith) in
    let closed : enqueue m ws f ≡ close_socket m ws =
      (unfold enqueue change in rw (there, enqueue) (rw (too_big, change))) in
    (
      rw closed (close_socket-IsForgotten m ws),
      rw closed (unfold close_socket in refl),
      λ k apart. let (a, b) = enqueue-other m k ws apart f in record { state = a; owner = b },
    )
