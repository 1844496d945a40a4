-- ===== src/Tests/Executions.antt =====
-- An execution that waits for an answer, and the theorems on execution-store.ts applied to it.
use palmagent.Common.{◌≡◌, refl, false, none, some, List, [], ◌∷◌, map, any}
use palmagent.Executions.Types.{claude, ExecutionStart, answer, send, delivered, asked}
use palmagent.Executions.Store.{ExecutionStore, Platform, is_command, pending, admit}
use palmagent.Executions.Admission.{IsAdmission, saved, admit_fills}
use palmagent.Executions.Operations.{
  Operation, op_reserve, op_admit, op_claim, op_append, op_enqueue, op_settle, perform_all,
}
use palmagent.Executions.Commands.Answers.{IsAnsweredOnce, answered_once}
use palmagent.Executions.Commands.Delivery.{delivered_once}

abbrev platform : Platform
platform = record { owner_key = λ agent home session. session; process = some (7, "boot") }

abbrev start : ExecutionStart
start = record {
  task_id = "task";
  agent = claude;
  provider_home = none;
  resume_id = none;
  message_id = some "m1";
  content = "{}";
}

abbrev empty_store : ExecutionStore
empty_store = record { executions = []; events = []; commands = []; capacity = none; control = [] }

abbrev calls : List Operation
calls =
    op_reserve "e1" start "1" "node" none
    ∷ op_admit 4
    ∷ op_claim "e1"
    ∷ op_append "e1" (asked (record { request_id = "q1"; body = "Which?" }))
    ∷ op_enqueue "e1" "c1" (answer (record { request_id = "q1"; body = "This" }))
    ∷ op_enqueue "e1" "c2" (answer (record { request_id = "q1"; body = "That" }))
    ∷ []

-- The second answer to the question is refused.
one_answer : map (λ c. c.id) (perform_all platform calls empty_store).commands ≡ "c1" ∷ []
unfolding perform_all
one_answer = refl

answered_once_example : IsAnsweredOnce (perform_all platform calls empty_store).commands
answered_once_example = answered_once platform calls empty_store refl

abbrev answering : ExecutionStore
answering = perform_all platform calls empty_store

delivered_once_example :
    any
      (is_command "e1" "c1")
      (pending "e1" (
        perform_all platform
          (op_settle "e1" "c1" delivered ∷ op_enqueue "e1" "c1" (send "again") ∷ [])
          (pending "e1" answering).1)).0
    ≡ false
unfolding perform_all pending
delivered_once_example =
    delivered_once platform "e1" "c1"
      (op_settle "e1" "c1" delivered ∷ op_enqueue "e1" "c1" (send "again") ∷ []) answering refl

-- Two executions of two tasks are queued, and the saved capacity of one leaves room for the first,
-- whatever the given limit is.
abbrev queued_two : ExecutionStore
queued_two =
    record (perform_all platform
      (op_reserve "e1" start "1" "node" none
        ∷ op_reserve "e2" (record start { task_id = "other"; message_id = some "m2" }) "1" "node"
            none
        ∷ [])
      empty_store) { capacity = some 1 }

first_only : (admit 4 queued_two).0 ≡ "e1" ∷ []
unfolding perform_all admit
first_only = refl

admit_fills_example :
    IsAdmission 1 queued_two.executions (admit 4 queued_two).0 (admit 4 queued_two).1.executions
admit_fills_example = admit_fills 4 1 queued_two (saved 1 4)
