-- ===== src/Executions/Commands/Changes.antt =====
-- What the operations of execution-store.ts do to the table of the commands: a property of that
-- table that four changes keep holds after every operation.
use palmagent.Common.{
  ℕ, suc, String, ◌≡◌, refl, inl, inr, Bool, true, false, ◌&&◌, ◌||◌, not, Option, none, some, List,
  [], ◌∷◌, ◌++◌, any, modify, is_some, ◌==◌, string_eq, if◌then◌else◌, ok, err, ◌>>=◌, ◌>>◌,
  refuse_if, unexpected, Bool-cases, Leaves, check-Leaves, step-Leaves, refuse-Leaves, committed,
  committed-Leaves, if-keeps, arith, or_else, ltb,
}
use palmagent.Executions.Types.{
  ExecutionRecord, ExecutionStart, Event, asked, input_resolved, answered, status, other,
  ExecutionCommand, answer, send, steer, approve, interrupt, cancel, CommandResult, accepted,
  delivered, rejected, unknown, is_accepted, same_command, is_queued, is_starting, is_running,
  is_live, CommandRecord,
}
use palmagent.Executions.Store.{
  ExecutionStore, Platform, get, rewrite, clear_question, apply_event, record_event, same_event_key,
  append, insert_check, new_execution, reserve_new, is_same_request, reserve_after, latest, reserve,
  live_owner, bind_session, claim_as, claim, set_capacity, waiting, admit, finish, cancel_found,
  cancel_before_start, command, is_command, answer_blocked, add_command, enqueue_new, enqueue_after,
  enqueue, pending, with_result, record_delivery, settle_found, settle,
}
use palmagent.Executions.Operations.{
  Operation, op_reserve, op_bind_session, op_claim, op_set_capacity, op_admit, op_append,
  op_cancel_before_start, op_finish, op_enqueue, op_pending, op_settle, perform, perform_all,
}

-- The changes to the table: a new command, a hand-out, a settlement, and the end of an execution.
pub record Keeps (P : List CommandRecord → Type 0) : Type 0 where
  pub added :
      (execution id : String) (body : ExecutionCommand) (r : ExecutionRecord) (s : ExecutionStore)
      → command execution id s ≡ none
      → answer_blocked execution body r s ≡ false
      → P s.commands
      → P (add_command execution id body s).commands
  pub handed_out :
      (execution : String) (s : ExecutionStore) → P s.commands → P (pending execution s).1.commands
  pub settled :
      (execution id : String) (result : CommandResult) (c : CommandRecord) (s : ExecutionStore)
      → command execution id s ≡ some c
      → is_accepted c.result ≡ true
      → P s.commands
      → P (modify (is_command execution id) (with_result result) s.commands)
  pub ended :
      (id : String) (is_lost : Bool) (s : ExecutionStore)
      → P s.commands
      → P (finish id is_lost s).commands

module _ (P : List CommandRecord → Type 0) (keeps : Keeps P) where
  abbrev Holds : ExecutionStore → Type 0
  Holds s = P s.commands

  record_event-Holds :
      (id : String) (n : ℕ) (event : Event) (s : ExecutionStore)
      → Holds s
      → Holds (record_event id n event s)
  unfolding record_event apply_event rewrite clear_question
  record_event-Holds id n (asked q) s h = h
  record_event-Holds id n (input_resolved q) s h = h
  record_event-Holds id n (answered a) s h = h
  record_event-Holds id n (status q) s h = h
  record_event-Holds id n (other q) s h = h

  append-Holds :
      (id : String) (event : Event) (s : ExecutionStore)
      → Holds s
      → Leaves Holds (append id event s)
  unfolding append
  append-Holds id event s h =
      check-Leaves {A = ℕ} Holds (get id s)
        (λ r. do
          refuse_if (any (same_event_key id (suc r.last_seq)) s.events)
              (unexpected "UNIQUE constraint failed: events")
          ok (suc r.last_seq, record_event id (suc r.last_seq) event s))
        (λ r e.
          refuse-Leaves Holds (any (same_event_key id (suc r.last_seq)) s.events)
            (unexpected "UNIQUE constraint failed: events")
            (suc r.last_seq, record_event id (suc r.last_seq) event s)
            (record_event-Holds id (suc r.last_seq) event s h))

  cancel_found-Holds :
      (b : Bool) (id : String) (s : ExecutionStore) → Holds s → Leaves Holds (cancel_found b id s)
  unfolding cancel_found
  cancel_found-Holds true id s h = h
  cancel_found-Holds false id s h =
      step-Leaves {A = Bool} Holds (append id (status "process_exit") s)
        (λ appended. ok (true, finish id false appended.1))
        (append-Holds id (status "process_exit") s h) (λ q g. keeps.ended id false q.1 g)

  cancel_before_start-Holds :
      (id : String) (s : ExecutionStore) → Holds s → Leaves Holds (cancel_before_start id s)
  unfolding cancel_before_start
  cancel_before_start-Holds id s h =
      check-Leaves {A = Bool} Holds (get id s)
        (λ r.
          cancel_found (not (is_queued r.state || is_starting r.state) || is_some r.process) id s)
        (λ r e.
          cancel_found-Holds (not (is_queued r.state || is_starting r.state) || is_some r.process)
            id s h)

  enqueue_new-Holds :
      (execution id : String) (body : ExecutionCommand) (r : ExecutionRecord) (s : ExecutionStore)
      → command execution id s ≡ none
      → Holds s
      → Holds (enqueue_new execution id body r s).1
  unfolding enqueue_new
  enqueue_new-Holds execution id body r s e h =
      elim (Bool-cases (not (is_running r.state) || answer_blocked execution body r s)) [
        | inl y ↦ rw y h
        | inr n ↦ rw n (keeps.added execution id body r s e (ground arith) h)
      ]

  enqueue_after-Holds :
      (prior : Option CommandRecord) (execution id : String) (body : ExecutionCommand)
      (s : ExecutionStore)
      → command execution id s ≡ prior
      → Holds s
      → Leaves Holds (enqueue_after prior execution id body s)
  unfolding enqueue_after
  enqueue_after-Holds (some prior) execution id body s e h =
      refuse-Leaves Holds (not (same_command prior.body body))
        (unexpected "Command identity was reused with different content") (prior.result, s) h
  enqueue_after-Holds none execution id body s e h =
      check-Leaves {A = CommandResult} Holds (get execution s)
        (λ r. ok (enqueue_new execution id body r s))
        (λ r g. enqueue_new-Holds execution id body r s e h)

  record_delivery-Holds :
      (execution : String) (body : ExecutionCommand) (result : CommandResult) (s : ExecutionStore)
      → Holds s
      → Leaves Holds (record_delivery execution body result s)
  unfolding record_delivery clear_question rewrite
  record_delivery-Holds execution (answer a) delivered s h =
      let t : ExecutionStore = clear_question execution a.request_id s in
      step-Leaves {A = Unit {0}} Holds (append execution (answered a) t)
        (λ appended. ok (tt, appended.1)) (append-Holds execution (answered a) t h) (λ q g. g)
  record_delivery-Holds execution (answer a) accepted s h = h
  record_delivery-Holds execution (answer a) rejected s h = h
  record_delivery-Holds execution (answer a) unknown s h = h
  record_delivery-Holds execution (send t) result s h = h
  record_delivery-Holds execution (steer t) result s h = h
  record_delivery-Holds execution (approve t) result s h = h
  record_delivery-Holds execution interrupt result s h = h
  record_delivery-Holds execution cancel result s h = h

  settle_found-Holds :
      (prior : Option CommandRecord) (execution id : String) (result : CommandResult)
      (s : ExecutionStore)
      → command execution id s ≡ prior
      → Holds s
      → Leaves Holds (settle_found prior execution id result s)
  unfolding settle_found
  settle_found-Holds none execution id result s e h = h
  settle_found-Holds (some c) execution id result s e h = elim (Bool-cases (is_accepted c.result)) [
    | inl y ↦ rw y (
        record_delivery-Holds execution c.body result
          (record s { commands = modify (is_command execution id) (with_result result) s.commands })
          (keeps.settled execution id result c s e y h))
    | inr n ↦ rw n h
  ]

  module _ (p : Platform) where
    reserve_new-Holds :
        (id : String) (args : ExecutionStart) (release node : String) (skills : Option String)
        (s : ExecutionStore)
        → Holds s
        → Leaves Holds (reserve_new p id args release node skills s)
    unfolding reserve_new
    reserve_new-Holds id args release node skills s h =
        let t : ExecutionStore = record s {
          executions = s.executions ++ new_execution p id args release node skills ∷ [];
        } in
        check-Leaves {A = ExecutionRecord} Holds
          (insert_check (new_execution p id args release node skills) s)
          (λ _. do
            appended ← append id (status "execution_queued") t
            r ← get id appended.1
            ok (r, appended.1))
          (λ _ e.
            step-Leaves {A = ExecutionRecord} Holds (append id (status "execution_queued") t)
              (λ appended. do r ← get id appended.1; ok (r, appended.1))
              (append-Holds id (status "execution_queued") t h)
              (λ q g.
                check-Leaves {A = ExecutionRecord} Holds (get id q.1) (λ r. ok (r, q.1))
                  (λ r e2. g)))

    reserve_after-Holds :
        (o : Option ExecutionRecord) (id : String) (args : ExecutionStart) (release node : String)
        (skills : Option String) (s : ExecutionStore)
        → Holds s
        → Leaves Holds (reserve_after p o id args release node skills s)
    unfolding reserve_after
    reserve_after-Holds none id args release node skills s h =
        reserve_new-Holds id args release node skills s h
    reserve_after-Holds (some existing) id args release node skills s h =
        if-keeps (Leaves Holds) (is_live existing.state)
          (if is_same_request p args skills existing
            then ok (existing, s)
            else err (unexpected "An execution already owns this task"))
          (reserve_new p id args release node skills s)
          (if-keeps (Leaves Holds) (is_same_request p args skills existing) (ok (existing, s))
            (err (unexpected "An execution already owns this task")) h tt)
          (reserve_new-Holds id args release node skills s h)

    bind_session-Holds :
        (id session_id : String) (s : ExecutionStore)
        → Holds s
        → Leaves Holds (bind_session p id session_id s)
    unfolding bind_session rewrite
    bind_session-Holds id session_id s h =
        check-Leaves {A = Unit {0}} Holds (get id s)
          (λ r. do
            let key = p.owner_key r.args.agent (or_else r.args.provider_home "") session_id
            refuse_if
                (is_running r.state && any (λ q. not (q.id == id) && live_owner key q) s.executions)
                (unexpected "UNIQUE constraint failed: executions.ownerKey")
            ok (
              tt,
              rewrite id (λ q. if is_running q.state then record q { owner_key = key } else q) s,
            ))
          (λ r e.
            let key = p.owner_key r.args.agent (or_else r.args.provider_home "") session_id in
            refuse-Leaves Holds
              (is_running r.state && any (λ q. not (q.id == id) && live_owner key q) s.executions)
              (unexpected "UNIQUE constraint failed: executions.ownerKey")
              (
                tt,
                rewrite id (λ q. if is_running q.state then record q { owner_key = key } else q) s,
              )
              h)

    perform-Holds : (op : Operation) (s : ExecutionStore) → Holds s → Holds (perform p op s)
    unfolding perform reserve claim claim_as set_capacity admit enqueue settle
    perform-Holds (op_reserve id args release node skills) s h =
        committed-Leaves Holds (reserve p id args release node skills s) s h
          (reserve_after-Holds (latest args.task_id s) id args release node skills s h)
    perform-Holds (op_bind_session id session_id) s h =
        committed-Leaves Holds (bind_session p id session_id s) s h
          (bind_session-Holds id session_id s h)
    perform-Holds (op_claim id) s h = go p.process
      where
        go : (o : Option (ℕ × String)) → Holds (committed (claim_as p o id s) s)
        go none = h
        go (some q) = h
    perform-Holds (op_set_capacity n) s h = committed-Leaves Holds (set_capacity n s) s h (
        refuse-Leaves Holds (ltb n 1 || ltb 9007199254740991 n)
          (unexpected "Invalid execution capacity") (tt, record s { capacity = some n }) h)
    perform-Holds (op_admit limit) s h =
        if-keeps {A = List String × ExecutionStore} (λ q. Holds q.1) (any waiting s.executions) _ _
          h h
    perform-Holds (op_append id event) s h =
        committed-Leaves Holds (append id event s) s h (append-Holds id event s h)
    perform-Holds (op_cancel_before_start id) s h =
        committed-Leaves Holds (cancel_before_start id s) s h (cancel_before_start-Holds id s h)
    perform-Holds (op_finish id is_lost) s h = keeps.ended id is_lost s h
    perform-Holds (op_enqueue execution id body) s h =
        committed-Leaves Holds (enqueue execution id body s) s h
          (enqueue_after-Holds (command execution id s) execution id body s refl h)
    perform-Holds (op_pending execution) s h = keeps.handed_out execution s h
    perform-Holds (op_settle execution id result) s h =
        committed-Leaves Holds (settle execution id result s) s h
          (settle_found-Holds (command execution id s) execution id result s refl h)

    pub perform_all-Holds :
        (ops : List Operation) (s : ExecutionStore)
        → P s.commands
        → P (perform_all p ops s).commands
    unfolding perform_all
    perform_all-Holds [] s h = h
    perform_all-Holds (op ∷ ops) s h = perform_all-Holds ops (perform p op s) (perform-Holds op s h)
