-- ===== src/Messages/Receipts.antt =====
-- Submitting is idempotent: a lost receipt of message-controller.ts is asked for again safely.
use mathlib.Core.Path.{subst}
use palmagent.Common.{
  ℕ, String, ◌≡◌, refl, ap, ◌∙◌, inl, inr, Bool, Option, none, some, List, [], ◌∷◌, ◌++◌, find,
  modify, Option-cases, Bool-cases, arith, eq_iff, beq_refl, ◌==◌, string_eq, Result, ok, err,
  checked, answer, Failure, ◌>>◌,
}
use palmagent.Messages.Types.{
  rejected, StoredMessage, SubmitMessage, MessageQueue, is_queued, is_send,
}
use palmagent.Messages.Transitions.{by_id, snapshot, save}
use palmagent.Messages.Controller.{
  World, Host, start, finish_start, after_failed_start, failure_text, dispatch, claim, send_found,
  send_now, may_send, start_next, mark_sending, pump, next_message,
}
use palmagent.Messages.Requests.{
  enqueue, launch, accept, submit_new, submit_again, submit_known, submit, new_message, admission,
}

-- The digest that is stored with the message `id`.
abbrev pub fingerprint_of : String → List StoredMessage → Option String
fingerprint_of id xs = elim (find (by_id id) xs) [ none ↦ none | some m ↦ some m.fingerprint ]

fingerprint-modify :
    (id : String) (p : StoredMessage → Bool) (f : StoredMessage → StoredMessage)
    (xs : List StoredMessage)
    → ((x : StoredMessage) → (f x).id ≡ x.id)
    → ((x : StoredMessage) → (f x).fingerprint ≡ x.fingerprint)
    → fingerprint_of id (modify p f xs) ≡ fingerprint_of id xs
fingerprint-modify id p f [] hi hf = refl
fingerprint-modify id p f (x ∷ xs) hi hf =
    ground (arith, fingerprint-modify id p f xs hi hf, hi x, hf x)

fingerprint-append_new :
    (m : StoredMessage) (xs : List StoredMessage)
    → find (by_id m.id) xs ≡ none
    → fingerprint_of m.id (xs ++ m ∷ []) ≡ some m.fingerprint
fingerprint-append_new m [] h = ground (arith, beq_refl m.id)
fingerprint-append_new m (x ∷ xs) h = ground (arith, fingerprint-append_new m xs)

module _ {O : Type 0} (host : Host O)
    (keeps : (m : StoredMessage) (w : World O) (id : String)
      → fingerprint_of id (host.start m w).1.queue.messages
        ≡ fingerprint_of id (w.queue).messages) where
  finish_start_keeps :
      (id k : String) (r : Option Failure × World O)
      → fingerprint_of k (finish_start host id r).1.queue.messages
        ≡ fingerprint_of k r.1.queue.messages
  unfolding finish_start after_failed_start
  finish_start_keeps id k (none, w) = refl
  finish_start_keeps id k (some e, w) = ground (
    arith,
    fingerprint-modify k (by_id id)
        (λ m. record m { status = rejected; error = some (failure_text e) }) (w.queue).messages
        (λ x. refl) (λ x. refl),
  )

  start_keeps :
      (m : StoredMessage) (w : World O) (k : String)
      → fingerprint_of k (start host m w).1.queue.messages ≡ fingerprint_of k (w.queue).messages
  unfolding start
  start_keeps m w k = finish_start_keeps m.id k (host.start m w) ∙ keeps m w k

  send_found_keeps :
      (o : Option StoredMessage) (w : World O) (k : String)
      → fingerprint_of k (send_found host o w).1.queue.messages
        ≡ fingerprint_of k (w.queue).messages
  unfolding send_found dispatch
  send_found_keeps none w k = refl
  send_found_keeps (some m) w k =
      let written : World O = record w {
        queue = save (record (w.queue) {
          messages = modify (by_id m.id) (claim host (w.queue).run_id) (w.queue).messages;
        });
      } in
      ground (
        arith,
        start_keeps (claim host (w.queue).run_id m) written k,
        fingerprint-modify k (by_id m.id) (claim host (w.queue).run_id) (w.queue).messages
            (λ x. refl) (λ x. refl),
      )

  start_next_keeps :
      (o : Option StoredMessage) (w : World O) (k : String)
      → fingerprint_of k (start_next host o w).1.queue.messages
        ≡ fingerprint_of k (w.queue).messages
  unfolding start_next
  start_next_keeps none w k = refl
  start_next_keeps (some m) w k =
      let written : World O = record w {
        queue = save (record (w.queue) {
          messages = modify (λ x. is_queued x.status) (mark_sending host) (w.queue).messages;
        });
      } in
      start_keeps (mark_sending host m) written k
      ∙ fingerprint-modify k (λ (x : StoredMessage). is_queued x.status) (mark_sending host)
          (w.queue).messages (λ x. refl) (λ x. refl)

  send_now_keeps :
      (id : String) (w : World O) (k : String)
      → fingerprint_of k (send_now host id w).1.queue.messages ≡ fingerprint_of k (w.queue).messages
  unfolding send_now may_send
  send_now_keeps id w k = ground (arith, send_found_keeps (find (by_id id) (w.queue).messages) w k)

  launch_keeps :
      (now : ℕ) (req : SubmitMessage) (w : World O) (k : String)
      → fingerprint_of k (launch host now req w).1.queue.messages
        ≡ fingerprint_of k (w.queue).messages
  unfolding launch pump
  launch_keeps now req w k = elim (Bool-cases (is_send req.mode)) [
    | inl s ↦ rw s (send_now_keeps req.client_message_id w k)
    | inr q ↦ rw q (start_next_keeps (next_message host now w) w k)
  ]

  enqueue_stores :
      (req : SubmitMessage) (a : Option (List String)) (w : World O)
      → find (by_id req.client_message_id) (w.queue).messages ≡ none
      → fingerprint_of req.client_message_id
          (enqueue host (new_message host req a w) w).queue.messages
        ≡ some (host.digest req)
  unfolding enqueue
  enqueue_stores req a w h = fingerprint-append_new (new_message host req a w) (w.queue).messages h

  answer_ok :
      (f : World O → MessageQueue) (r : Result (Unit {0}) × World O) {q : MessageQueue}
      {v : World O}
      → answer f r ≡ (ok q, v)
      → r.1 ≡ v
  answer_ok f (ok x, w) e = ap (λ t. t.1) e
  answer_ok f (err x, w) e = ap (λ t. t.1) e

  submit_new_stores :
      (now : ℕ) (req : SubmitMessage) (w : World O) {q : MessageQueue} {v : World O}
      → find (by_id req.client_message_id) (w.queue).messages ≡ none
      → submit_new host now req w ≡ (ok q, v)
      → fingerprint_of req.client_message_id (v.queue).messages ≡ some (host.digest req)
  unfolding submit_new accept
  submit_new_stores now req w {q} {v} h e =
      go (do admission host req w; host.save_attachments req.images) e
    where
      go :
          (c : Result (Option (List String)))
          → checked c w (λ a. accept host now req a w) ≡ (ok q, v)
          → fingerprint_of req.client_message_id (v.queue).messages ≡ some (host.digest req)
      go (ok a) e' =
          let w' : World O = enqueue host (new_message host req a w) w in
          let last : (launch host now req w').1 ≡ v =
            answer_ok (λ (u : World O). snapshot u.queue) (launch host now req w') e' in
          subst
            (λ (u : World O).
              fingerprint_of req.client_message_id (u.queue).messages ≡ some (host.digest req))
            last (launch_keeps now req w' req.client_message_id ∙ enqueue_stores req a w h)
      go (err x) e' = cc (ap (λ (t : Result MessageQueue × World O). t.0) e')

  submit_stores :
      (now : ℕ) (req : SubmitMessage) (w : World O) {q : MessageQueue} {v : World O}
      → submit host now req w ≡ (ok q, v)
      → fingerprint_of req.client_message_id (v.queue).messages ≡ some (host.digest req)
  unfolding submit submit_known submit_again
  submit_stores now req w {q} {v} e =
      elim (Option-cases (find (by_id req.client_message_id) (w.queue).messages)) [
        | inl new ↦ submit_new_stores now req w new (rw new at e)
        | inr (old, known) ↦ again old known (rw known at e)
      ]
    where
      again :
          (old : StoredMessage)
          → find (by_id req.client_message_id) (w.queue).messages ≡ some old
          → submit_again host req old w ≡ (ok q, v)
          → fingerprint_of req.client_message_id (v.queue).messages ≡ some (host.digest req)
      again old known e' = elim (Bool-cases (old.fingerprint == host.digest req)) [
        | inl same ↦
            let unchanged : w ≡ v =
              ap (λ (t : Result MessageQueue × World O). t.1) (rw same at e') in
            subst
              (λ (u : World O).
                fingerprint_of req.client_message_id (u.queue).messages ≡ some (host.digest req))
              unchanged
              (rw (known, fingerprint_of)
                (ap some ((eq_iff old.fingerprint (host.digest req)).0 same)))
        | inr other ↦ cc (ap (λ (t : Result MessageQueue × World O). t.0) (rw other at e'))
      ]

  -- A submission that was accepted can be sent again: whatever the task service says later, with
  -- the same digest of the request, the answer is the current snapshot and nothing changes. The
  -- service's `start` must keep the identifiers and digests of the stored messages.
  pub submit_again_reads :
      (now now' : ℕ) (host' : Host O) (req : SubmitMessage) (w : World O) {q : MessageQueue}
      {v : World O}
      → host'.digest req ≡ host.digest req
      → submit host now req w ≡ (ok q, v)
      → submit host' now' req v ≡ (ok (snapshot v.queue), v)
  unfolding submit submit_known submit_again
  submit_again_reads now now' host' req w {q} {v} d e =
      let stored = submit_stores now req w e in
      elim (Option-cases (find (by_id req.client_message_id) (v.queue).messages)) [
        | inl missing ↦ cc (rw (missing, fingerprint_of) at stored)
        | inr (old, known) ↦
            let found : some old.fingerprint ≡ some (host.digest req) =
              rw (known, fingerprint_of) at stored in
            let same : old.fingerprint ≡ host'.digest req = cc in
            rw (known, (eq_iff old.fingerprint (host'.digest req)).1 same)
      ]
