-- ===== src/Http/Presence/Grace.antt =====
-- When the sessions of an owner whose browsers are gone are released, in
-- simple_network_dashboard/main.py.
-- what may happen: a browser comes, goes, or is dropped by the socket manager; a pause ends; and
-- anything that requests and threads do to the SSH sessions, or to sign-in
use simple_network_dashboard.Prelude.{
  insert, remove, ℕ, ◌≤◌, String, ◌≡◌, refl, subst, ◌⊎◌, inl, inr, true, false, not, none, some,
  List, [], ◌∷◌, ◌++◌, arith, eq_iff, if◌then◌else◌, Bool-cases, if_elim, option_elim, length, any,
  keep_if, All, string_eq, nat_eq, ◌==◌, Dict,
}
use simple_network_dashboard.Sockets.{
  Sockets, unless_empty, connect, drop_socket, close_socket, owner_count,
}
use simple_network_dashboard.Ssh.Owners.Release.{release_owner-gone}
use simple_network_dashboard.Http.Web.{Web, cancel_pending_release}
use simple_network_dashboard.Http.Login.Answers.{any-keep_if, IsGone}
use simple_network_dashboard.Http.Presence.{socket_opened, socket_closed, grace_over}

pub data Event : Type 0 where
  opened : ℕ → String → String → Event
  closed : ℕ → String → Event
  overrun : ℕ → Event
  grace : String → Event
  elsewhere : (Web → Web) → Event

-- what happens elsewhere leaves sockets and pauses alone
unfoldable pub happen : Web → Event → Web
happen w (opened ws owner id) = socket_opened w ws owner id
happen w (closed ws owner) = socket_closed w ws owner
happen w (overrun ws) = record w { sockets = close_socket w.sockets ws }
happen w (grace owner) = grace_over w owner
happen w (elsewhere f) = record (f w) { sockets = w.sockets; releases = w.releases }

unfoldable pub happen_all : Web → List Event → Web
happen_all w [] = w
happen_all w (e ∷ es) = happen_all (happen w e) es

abbrev pub Waits : Web → String → Type 0
Waits w owner = any (λ o. o == owner) w.releases ≡ true

-- an owner whose sessions wait to be released has no browser
unfoldable pub IsTidy : Web → Type 0
IsTidy w = (owner : String) → Waits w owner → owner_count w.sockets owner ≡ 0

module _ (owner : String) where
  abbrev count : Dict ℕ String → ℕ
  count d = length (keep_if (λ (e : ℕ × String). e.1 == owner) d)

  count-remove-le : (ws : ℕ) (d : Dict ℕ String) → count (remove ws d) ≤ count d
  unfolding remove
  count-remove-le ws [] = omega arith
  count-remove-le ws ((k, o) ∷ d) = ground (arith, count-remove-le ws d)

  count-insert-le :
      (ws : ℕ) (o : String) (d : Dict ℕ String)
      → (o == owner) ≡ false
      → count (insert ws o d) ≤ count d
  unfolding insert
  count-insert-le ws o [] h = ground arith
  count-insert-le ws o ((k, p) ∷ d) h = ground (arith, count-insert-le ws o d)

  drop_socket-owner_count-le :
      (m : Sockets) (ws : ℕ) → owner_count (drop_socket m ws) owner ≤ owner_count m owner
  unfolding owner_count drop_socket
  drop_socket-owner_count-le m ws = count-remove-le ws m.owners

  connect-owner_count-le :
      (m : Sockets) (ws : ℕ) (o id : String)
      → (o == owner) ≡ false
      → owner_count (connect m ws (some o) id) owner ≤ owner_count m owner
  unfolding owner_count connect unless_empty
  connect-owner_count-le m ws o id h =
      option_elim (λ (d : Dict ℕ String). count d ≤ count m.owners)
        (if o == "" then none else some o) m.owners (λ p. insert ws p m.owners) (λ _. omega arith)
        (λ p e. count-insert-le ws p m.owners (ground (arith, e)))

  any-keep_if-other :
      (o : String) (l : List String)
      → any (λ x. x == owner) (keep_if (λ x. not (x == o)) l) ≡ true
      → (any (λ x. x == owner) l ≡ true) × ((o == owner) ≡ false)
  any-keep_if-other o [] h = cc
  any-keep_if-other o (x ∷ l) h =
      ground (arith, any-keep_if-other o l, eq_iff x o, eq_iff x owner, eq_iff o owner)

  any-append :
      (l : List String) (o : String)
      → any (λ x. x == owner) (l ++ o ∷ []) ≡ true
      → (any (λ x. x == owner) l ≡ true) ⊎ ((o == owner) ≡ true)
  any-append [] o h = inr (ground arith)
  any-append (x ∷ l) o h = elim (Bool-cases (x == owner)) [
    | inl t ↦ inl (rw t refl)
    | inr t ↦ elim (any-append l o (ground (arith, t, h))) [
      | inl k ↦ inl (ground (arith, k))
      | inr k ↦ inr k
    ]
  ]

module _ (w : Web) (tidy : IsTidy w) where
  opened-IsTidy : (ws : ℕ) (o id : String) → IsTidy (socket_opened w ws o id)
  unfolding IsTidy socket_opened cancel_pending_release
  opened-IsTidy ws o id owner h =
      let (waited, apart) = any-keep_if-other owner o w.releases h in
      omega (arith, tidy owner waited, connect-owner_count-le owner w.sockets ws o id apart)

  closed-IsTidy : (ws : ℕ) (o : String) → IsTidy (socket_closed w ws o)
  unfolding IsTidy socket_closed cancel_pending_release
  closed-IsTidy ws o =
      let fewer = λ (owner : String). drop_socket-owner_count-le owner w.sockets ws in
      if_elim IsTidy (owner_count (drop_socket w.sockets ws) o == 0) _ _
        (λ none_left owner h. elim (any-append owner (keep_if (λ x. not (x == o)) w.releases) o h) [
          | inl k ↦
              let (waited, _) = any-keep_if-other owner o w.releases k in
              omega (arith, tidy owner waited, fewer owner)
          | inr same ↦
              subst (λ (k : String). owner_count (drop_socket w.sockets ws) k ≡ 0)
                ((eq_iff o owner).0 same) (ground (arith, none_left))
        ])
        (λ some_left owner h. omega (arith, tidy owner h, fewer owner))

  overrun-IsTidy : (ws : ℕ) → IsTidy (record w { sockets = close_socket w.sockets ws })
  unfolding IsTidy close_socket drop_socket owner_count
  overrun-IsTidy ws owner h = omega (arith, tidy owner h, count-remove-le owner ws w.sockets.owners)

  grace-IsTidy : (o : String) → IsTidy (grace_over w o)
  unfolding IsTidy grace_over cancel_pending_release
  grace-IsTidy o =
      if_elim IsTidy (not (any (λ x. x == o) w.releases)) _ _ (λ _. tidy)
        (λ _.
          if_elim IsTidy (owner_count w.sockets o == 0) _ _
            (λ _ owner h. tidy owner (any-keep_if-other owner o w.releases h).0)
            (λ _ owner h. tidy owner (any-keep_if-other owner o w.releases h).0))

happen-IsTidy : (w : Web) (e : Event) → IsTidy w → IsTidy (happen w e)
unfolding happen IsTidy
happen-IsTidy w (opened ws owner id) t = opened-IsTidy w t ws owner id
happen-IsTidy w (closed ws owner) t = closed-IsTidy w t ws owner
happen-IsTidy w (overrun ws) t = overrun-IsTidy w t ws
happen-IsTidy w (grace owner) t = grace-IsTidy w t owner
happen-IsTidy w (elsewhere f) t = t

happen_all-IsTidy : (w : Web) (es : List Event) → IsTidy w → IsTidy (happen_all w es)
unfolding happen_all
happen_all-IsTidy w [] t = t
happen_all-IsTidy w (e ∷ es) t = happen_all-IsTidy (happen w e) es (happen-IsTidy w e t)

-- the pause of the owner ends after these events
pub IsReleased : Web → String → Type 0
IsReleased w owner = (owner_count w.sockets owner ≡ 0) × IsGone owner (grace_over w owner)

-- From a state in which an owner whose sessions wait to be released has no browser, and after any
-- events: if the pause of an owner ends while its release is pending, the owner has no browser, and
-- no session, no prompt and no pending release of it is left.
pub grace_over-IsReleased :
    (w : Web) (es : List Event) (owner : String)
    → IsTidy w
    → Waits (happen_all w es) owner
    → IsReleased (happen_all w es) owner
unfolding IsReleased IsTidy grace_over cancel_pending_release
grace_over-IsReleased w es owner t h =
    let w' = happen_all w es in
    let none_left = happen_all-IsTidy w es t owner h in
    let gone = release_owner-gone owner w'.ssh in
    (
      none_left,
      rw (h, none_left)
          (record {
            no_release = any-keep_if owner w'.releases;
            no_session = gone.0;
            no_prompt = gone.1;
          }),
    )

-- no browser of the owner goes
unfoldable pub Stays : String → Event → Type 0
Stays owner (closed ws o) = (o == owner) ≡ false
Stays owner _ = Unit

abbrev AtRest : String → Web → Type 0
AtRest owner w = any (λ o. o == owner) w.releases ≡ false

any-keep_if-rest :
    (owner o : String) (l : List String)
    → any (λ x. x == owner) l ≡ false
    → any (λ x. x == owner) (keep_if (λ x. not (x == o)) l) ≡ false
any-keep_if-rest owner o [] h = refl
any-keep_if-rest owner o (x ∷ l) h = ground (arith, any-keep_if-rest owner o l)

any-append-rest :
    (owner o : String) (l : List String)
    → any (λ x. x == owner) l ≡ false
    → (o == owner) ≡ false
    → any (λ x. x == owner) (l ++ o ∷ []) ≡ false
any-append-rest owner o [] h k = ground arith
any-append-rest owner o (x ∷ l) h k = ground (arith, any-append-rest owner o l)

happen-AtRest :
    (owner : String) (w : Web) (e : Event)
    → Stays owner e
    → AtRest owner w
    → AtRest owner (happen w e)
unfolding happen socket_opened socket_closed grace_over cancel_pending_release Stays
happen-AtRest owner w (opened ws o id) s h = any-keep_if-rest owner o w.releases h
happen-AtRest owner w (closed ws o) s h =
    if_elim (AtRest owner) (owner_count (drop_socket w.sockets ws) o == 0) _ _
      (λ _. any-append-rest owner o _ (any-keep_if-rest owner o w.releases h) s) (λ _. h)
happen-AtRest owner w (overrun ws) s h = h
happen-AtRest owner w (grace o) s h =
    if_elim (AtRest owner) (not (any (λ x. x == o) w.releases)) _ _ (λ _. h)
      (λ _.
        if_elim (AtRest owner) (owner_count w.sockets o == 0) _ _
          (λ _. any-keep_if-rest owner o w.releases h) (λ _. any-keep_if-rest owner o w.releases h))
happen-AtRest owner w (elsewhere f) s h = h

happen_all-AtRest :
    (owner : String) (w : Web) (es : List Event)
    → All (Stays owner) es
    → AtRest owner w
    → AtRest owner (happen_all w es)
unfolding happen_all
happen_all-AtRest owner w [] s h = h
happen_all-AtRest owner w (e ∷ es) s h =
    happen_all-AtRest owner (happen w e) es s.1 (happen-AtRest owner w e s.0 h)

-- Once a browser of an owner has come back, and whatever happens then except that a browser of that
-- owner goes, the end of a pause of that owner changes nothing.
pub grace_over-socket_opened :
    (w : Web) (ws : ℕ) (owner id : String) (es : List Event)
    → All (Stays owner) es
    → let w' = happen_all (socket_opened w ws owner id) es in grace_over w' owner ≡ w'
unfolding grace_over
grace_over-socket_opened w ws owner id es s =
    let opened_at_rest : AtRest owner (socket_opened w ws owner id) =
      unfold socket_opened cancel_pending_release in any-keep_if owner w.releases in
    let rest = happen_all-AtRest owner (socket_opened w ws owner id) es s opened_at_rest in rw rest
