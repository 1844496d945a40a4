-- ===== src/Messages/Flight/Requests.antt =====
-- At most one message of a task is in flight: sends, requests and the end of a run in
-- message-controller.ts.
use palmagent.Common.{sym}
use mathlib.Core.Path.{subst}
use palmagent.Common.{
  ℕ, ◌≤◌, String, ◌≡◌, refl, inl, inr, Bool, true, false, Option, none, some, List, [], ◌∷◌, count,
  find, modify, any, count-eq-zero, count-append, count-modify-le, count-modify_off, ok,
  checked-keeps, answer-keeps, arith, eq_iff, find_sound, string_eq, Bool-cases, Failure, is_none,
}
use palmagent.Messages.Types.{
  rejected, StoredMessage, SubmitMessage, MessageAction, edit, renew, release, delete, MessageQueue,
  is_queued, is_blocking, is_send,
}
use palmagent.Messages.Transitions.{save, snapshot, by_id, finish_run}
use palmagent.Messages.Controller.{
  World, Host, raise_if, has_unconfirmed, may_send, send_now, send_found, dispatch, start_next,
  claim, start, finish_start, after_failed_start, failure_text, pump, next_message, mark_sending,
}
use palmagent.Messages.Requests.{
  enqueue, accept, launch, submit_known, act_on_found, submit, revise, revise_message, act_on,
  action, send_message, send_checks, resume, resume_checks, finish, new_message, edit_view, stale,
}
use palmagent.Messages.Flight.{in_flight, IsSingle, finish_run-IsSingle}

count-modify_found :
    (m next : StoredMessage) (xs : List StoredMessage)
    → find (by_id m.id) xs ≡ some m
    → (in_flight next ≡ true → in_flight m ≡ true)
    → count in_flight (modify (by_id m.id) (λ _. next) xs) ≤ count in_flight xs
count-modify_found m next [] e h = cc
count-modify_found m next (x ∷ xs) e h = ground (arith, count-modify_found m next xs)

module _ {O : Type 0} (host : Host O)
    (keeps : (m : StoredMessage) (w : World O)
      → IsSingle w.queue
      → IsSingle (host.start m w).1.queue) where
  finish_start-IsSingle :
      (id : String) (r : Option Failure × World O)
      → IsSingle r.1.queue
      → IsSingle (finish_start host id r).1.queue
  unfolding finish_start after_failed_start
  finish_start-IsSingle id (none, w) h = h
  finish_start-IsSingle id (some e, w) h = ground (
    arith,
    count-modify_off in_flight (by_id id)
        (λ m. record m { status = rejected; error = some (failure_text e) }) w.queue.messages
        (λ x. ground arith),
  )

  start-IsSingle :
      (m : StoredMessage) (w : World O) → IsSingle w.queue → IsSingle (start host m w).1.queue
  unfolding start
  start-IsSingle m w h = finish_start-IsSingle m.id (host.start m w) (keeps m w h)

  dispatch-IsSingle :
      (m : StoredMessage) (w : World O)
      → has_unconfirmed w.queue ≡ false
      → IsSingle (dispatch host m w).1.queue
  unfolding dispatch
  dispatch-IsSingle m w h = elim (Bool-cases (is_none (w.queue).run_id)) [
    | inl idle ↦ rw idle (start-IsSingle _ _ claimed)
    | inr active ↦ rw active claimed
  ]
    where
      claimed :
          count in_flight (modify (by_id m.id) (claim host (w.queue).run_id) (w.queue).messages) ≤ 1
      claimed = omega (
        arith,
        count-modify-le in_flight (by_id m.id) (claim host (w.queue).run_id) (w.queue).messages,
        count-eq-zero in_flight (w.queue).messages h,
      )

  send_found-IsSingle :
      (o : Option StoredMessage) (w : World O)
      → IsSingle w.queue
      → has_unconfirmed w.queue ≡ false
      → IsSingle (send_found host o w).1.queue
  unfolding send_found
  send_found-IsSingle none w h free = h
  send_found-IsSingle (some m) w h free = dispatch-IsSingle m w free

  send_now-IsSingle :
      (id : String) (w : World O) → IsSingle w.queue → IsSingle (send_now host id w).1.queue
  unfolding send_now may_send
  send_now-IsSingle id w h =
      ground (arith, send_found-IsSingle (find (by_id id) (w.queue).messages) w)

  blocking_unconfirmed :
      (xs : List StoredMessage)
      → any (λ m. is_blocking m.status) xs ≡ false
      → any in_flight xs ≡ false
  blocking_unconfirmed [] h = refl
  blocking_unconfirmed (x ∷ xs) h = ground (arith, blocking_unconfirmed xs)

  next_message_free :
      (now : ℕ) (w : World O) (m : StoredMessage)
      → next_message host now w ≡ some m
      → has_unconfirmed w.queue ≡ false
  unfolding next_message
  next_message_free now w m e = ground (arith, blocking_unconfirmed (w.queue).messages)

  start_next-IsSingle :
      (o : Option StoredMessage) (w : World O)
      → IsSingle w.queue
      → ((m : StoredMessage) → o ≡ some m → has_unconfirmed w.queue ≡ false)
      → IsSingle (start_next host o w).1.queue
  unfolding start_next
  start_next-IsSingle none w h free = h
  start_next-IsSingle (some m) w h free = start-IsSingle _ _ (
      omega (
        arith,
        count-modify-le in_flight (λ (m : StoredMessage). is_queued m.status) (mark_sending host)
            (w.queue).messages,
        count-eq-zero in_flight (w.queue).messages (free m refl),
      ))

  pub pump-IsSingle :
      (now : ℕ) (w : World O) → IsSingle w.queue → IsSingle (pump host now w).1.queue
  unfolding pump
  pump-IsSingle now w h =
      start_next-IsSingle (next_message host now w) w h (λ m e. next_message_free now w m e)

  enqueue-IsSingle :
      (req : SubmitMessage) (a : Option (List String)) (w : World O)
      → IsSingle w.queue
      → IsSingle (enqueue host (new_message host req a w) w).queue
  unfolding enqueue
  enqueue-IsSingle req a w h =
      omega (arith, count-append in_flight (w.queue).messages (new_message host req a w ∷ []))

  launch-IsSingle :
      (now : ℕ) (req : SubmitMessage) (w : World O)
      → IsSingle w.queue
      → IsSingle (launch host now req w).1.queue
  unfolding launch
  launch-IsSingle now req w h = elim (Bool-cases (is_send req.mode)) [
    | inl s ↦ rw s (send_now-IsSingle req.client_message_id w h)
    | inr q ↦ rw q (pump-IsSingle now w h)
  ]

  accept-IsSingle :
      (now : ℕ) (req : SubmitMessage) (a : Option (List String)) (w : World O)
      → IsSingle w.queue
      → IsSingle (accept host now req a w).1.queue
  unfolding accept
  accept-IsSingle now req a w h =
      answer-keeps {B = Unit {0}} (λ (v : World O). IsSingle v.queue) (λ v. snapshot v.queue)
        (launch host now req (enqueue host (new_message host req a w) w))
        (launch-IsSingle now req (enqueue host (new_message host req a w) w)
          (enqueue-IsSingle req a w h))

  submit_known-IsSingle :
      (now : ℕ) (req : SubmitMessage) (o : Option StoredMessage) (w : World O)
      → IsSingle w.queue
      → IsSingle (submit_known host now req o w).1.queue
  unfolding submit_known
  submit_known-IsSingle now req (some old) w h = ground arith
  submit_known-IsSingle now req none w h =
      checked-keeps (λ (v : World O). IsSingle v.queue) _ w (λ a. accept host now req a w) h
        (λ a _. accept-IsSingle now req a w h)

  pub submit-IsSingle :
      (now : ℕ) (req : SubmitMessage) (w : World O)
      → IsSingle w.queue
      → IsSingle (submit host now req w).1.queue
  unfolding submit
  submit-IsSingle now req w h = submit_known-IsSingle now req _ w h

  revise_off :
      (now : ℕ) (a : MessageAction) (m next : StoredMessage)
      → revise host now a m ≡ ok next
      → in_flight next ≡ true
      → in_flight m ≡ true
  unfolding revise
  revise_off now (edit version token) m next e = ground arith
  revise_off now (renew token) m next e = ground arith
  revise_off now (MessageAction.save token version text skills images) m next e = ground arith
  revise_off now (release token) m next e = ground arith
  revise_off now (delete version) m next e = ground arith
  revise_off now (MessageAction.send version run) m next e = ground arith

  revise_message-IsSingle :
      (now : ℕ) (a : MessageAction) (m : StoredMessage) (w : World O)
      → find (by_id m.id) (w.queue).messages ≡ some m
      → IsSingle w.queue
      → IsSingle (revise_message host now a m w).1.queue
  unfolding revise_message
  revise_message-IsSingle now a m w e h =
      checked-keeps (λ (v : World O). IsSingle v.queue) (revise host now a m) w _ h
        λ next r.
          let v : World O = record w {
            queue = save (record (w.queue) {
              messages = modify (by_id m.id) (λ _. next) (w.queue).messages;
            });
          } in
          answer-keeps {B = Unit {0}} (λ (u : World O). IsSingle u.queue) (edit_view host a m)
            (pump host now v)
            (pump-IsSingle now v (
              omega (
                arith,
                count-modify_found m next (w.queue).messages e (revise_off now a m next r),
              )))

  send_message-IsSingle :
      (now : ℕ) (run : Option String) (m : StoredMessage) (w : World O)
      → IsSingle w.queue
      → IsSingle (send_message host now run m w).1.queue
  unfolding send_message
  send_message-IsSingle now run m w h =
      checked-keeps (λ (v : World O). IsSingle v.queue) (send_checks host now run m w) w _ h
        λ _ _.
          answer-keeps {B = Unit {0}} (λ (v : World O). IsSingle v.queue) (λ v. snapshot v.queue)
            (send_now host m.id w) (send_now-IsSingle m.id w h)

  act_on-IsSingle :
      (now : ℕ) (a : MessageAction) (m : StoredMessage) (w : World O)
      → find (by_id m.id) (w.queue).messages ≡ some m
      → IsSingle w.queue
      → IsSingle (act_on host now a m w).1.queue
  unfolding act_on
  act_on-IsSingle now (MessageAction.send version run) m w e h = send_message-IsSingle now run m w h
  act_on-IsSingle now a m w e h = revise_message-IsSingle now a m w e h

  act_on_found-IsSingle :
      (now : ℕ) (a : MessageAction) (id : String) (o : Option StoredMessage) (w : World O)
      → find (by_id id) (w.queue).messages ≡ o
      → IsSingle w.queue
      → IsSingle (act_on_found host now a o w).1.queue
  unfolding act_on_found
  act_on_found-IsSingle now a id none w e h = h
  act_on_found-IsSingle now a id (some m) w e h = elim (Bool-cases (stale host a m)) [
    | inl s ↦ rw s h
    | inr s ↦ rw s (
        act_on-IsSingle now a m w
          (subst (λ k. find (by_id k) (w.queue).messages ≡ some m)
            (sym ((eq_iff m.id id).0 (find_sound (by_id id) (w.queue).messages e))) e)
          h)
  ]

  pub action-IsSingle :
      (now : ℕ) (id : String) (a : MessageAction) (w : World O)
      → IsSingle w.queue
      → IsSingle (action host now id a w).1.queue
  unfolding action
  action-IsSingle now id a w h =
      checked-keeps {A = MessageQueue} (λ (v : World O). IsSingle v.queue)
        (raise_if (host.assert_writable w)) w
        (λ _. act_on_found host now a (find (by_id id) (w.queue).messages) w) h
        (λ _ _. act_on_found-IsSingle now a id (find (by_id id) (w.queue).messages) w refl h)

  pub resume-IsSingle :
      (now : ℕ) (w : World O) → IsSingle w.queue → IsSingle (resume host now w).1.queue
  unfolding resume
  resume-IsSingle now w h =
      checked-keeps (λ (v : World O). IsSingle v.queue) (resume_checks host w) w _ h
        λ _ _.
          let v : World O = record w { queue = save (record (w.queue) { paused = false }) } in
          answer-keeps {B = Unit {0}} (λ (u : World O). IsSingle u.queue) (λ u. snapshot u.queue)
            (pump host now v) (pump-IsSingle now v h)

  pub finish-IsSingle :
      (now : ℕ) (f drain : Bool) (e : Option String) (w : World O)
      → IsSingle w.queue
      → IsSingle (finish host now f drain e w).1.queue
  unfolding finish
  finish-IsSingle now f drain e w h =
      let ended = finish_run-IsSingle f e w.queue h in
      ground (arith, pump-IsSingle now (record w { queue = finish_run f e w.queue }))
