-- ===== src/Delivery/Order.antt =====
-- Messages are delivered in the order in which they were accepted, none lost and none twice.
use mathlib.Core.List.{map-append}
use simple_network_dashboard.Prelude.{
  ℕ, ◌≡◌, refl, sym, ap, ◌∙◌, true, not, ◌&&◌, List, [], ◌∷◌, ◌++◌, map, arith, if◌then◌else◌,
  if_elim, append-nil, append_assoc,
}
use simple_network_dashboard.Delivery.{
  Delivery, is_running, Action, on_push, on_push_terminal, on_set_event, on_drain, on_shutdown,
  on_cancel, push, has_room, push_terminal, set_event, take_first, drain, shutdown, cancel_drain,
  step, run,
}

module _ {M : Type 0} where
  -- everything accepted so far, oldest first
  pub content : Delivery M → List M
  content q = q.delivered ++ map (λ (e : M × ℕ). e.0) q.queue

  -- the message of an action, if the queue takes it
  pub accepted : Delivery M → Action M → List M
  accepted q (on_push msg size) = if not q.is_shutdown && is_running q.loop then msg ∷ [] else []
  accepted q (on_push_terminal msg size go_on) =
      if not q.is_shutdown && go_on && has_room q size then msg ∷ [] else []
  accepted q _ = []

  pub accepted_all : Delivery M → List (Action M) → List M
  accepted_all q [] = []
  accepted_all q (a ∷ rest) = accepted q a ++ accepted_all (step q a) rest

  content-append :
      (l : List M) (queue : List (M × ℕ)) (msg : M) (size : ℕ)
      → l ++ map (λ (e : M × ℕ). e.0) (queue ++ (msg, size) ∷ [])
        ≡ (l ++ map (λ (e : M × ℕ). e.0) queue) ++ msg ∷ []
  content-append l queue msg size =
      rw map-append (sym (append_assoc l (map (λ (e : M × ℕ). e.0) queue) (msg ∷ [])))

  take_first-content :
      (l : List (M × ℕ)) (q : Delivery M) → q.queue ≡ l → content (take_first l q) ≡ content q
  unfolding take_first content
  take_first-content [] q e = refl
  take_first-content ((msg, size) ∷ rest) q e =
      rw e (append_assoc q.delivered (msg ∷ []) (map (λ (e : M × ℕ). e.0) rest))

  content-draining : (q : Delivery M) → content (record q { draining = true }) ≡ content q
  unfolding content
  content-draining q = refl

  step-content : (q : Delivery M) (a : Action M) → content (step q a) ≡ content q ++ accepted q a
  unfolding step accepted
  step-content q (on_push msg size) =
      unfold push content in
      ground (
        arith,
        content-append q.delivered q.queue msg size,
        append-nil (q.delivered ++ map (λ (e : M × ℕ). e.0) q.queue),
      )
  step-content q (on_push_terminal msg size go_on) =
      unfold push_terminal content in
      ground (
        arith,
        content-append q.delivered q.queue msg size,
        append-nil (q.delivered ++ map (λ (e : M × ℕ). e.0) q.queue),
      )
  step-content q on_set_event =
      unfold set_event content in
      ground (arith, append-nil (q.delivered ++ map (λ (e : M × ℕ). e.0) q.queue))
  step-content q on_drain =
      unfold drain in
      (let P = λ (r : Delivery M). content r ≡ content q ++ [] in
        if_elim P q.ended _ _ (λ _. sym (append-nil (content q)))
          λ _.
            if_elim P q.draining _ _
              (λ _. take_first-content q.queue q refl ∙ sym (append-nil (content q)))
              λ _.
                if_elim P q.event _ _ (λ _. content-draining q ∙ sym (append-nil (content q)))
                  λ _. sym (append-nil (content q)))
  step-content q on_shutdown =
      unfold shutdown content in sym (append-nil (q.delivered ++ map (λ (e : M × ℕ). e.0) q.queue))
  step-content q on_cancel =
      unfold cancel_drain content in
      ground (arith, append-nil (q.delivered ++ map (λ (e : M × ℕ). e.0) q.queue))

  -- Under any interleaving, what was delivered and what still waits are together, in order, what
  -- was there before and the messages accepted since: nothing is lost, repeated or overtaken.
  pub run-content :
      (q : Delivery M) (actions : List (Action M))
      → content (run q actions) ≡ content q ++ accepted_all q actions
  unfolding run accepted_all
  run-content q [] = sym (append-nil (content q))
  run-content q (a ∷ rest) =
      run-content (step q a) rest
      ∙ ap (λ (l : List M). l ++ accepted_all (step q a) rest) (step-content q a)
      ∙ append_assoc (content q) (accepted q a) (accepted_all (step q a) rest)
