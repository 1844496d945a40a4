-- ===== src/Executions/Operations.antt =====
-- Sequences of calls of execution-store.ts, from any number of processes: each is one transaction,
-- and one that throws leaves the store as it was.
use palmagent.Common.{ℕ, String, Bool, Option, List, [], ◌∷◌, committed}
use palmagent.Executions.Types.{Event, ExecutionStart, ExecutionCommand, CommandResult}
use palmagent.Executions.Store.{
  ExecutionStore, Platform, reserve, bind_session, claim, set_capacity, admit, append,
  cancel_before_start, finish, enqueue, pending, settle,
}

pub data Operation : Type 0 where
  op_reserve : String → ExecutionStart → String → String → Option String → Operation
  op_bind_session : String → String → Operation
  op_claim : String → Operation
  op_set_capacity : ℕ → Operation
  op_admit : ℕ → Operation
  op_append : String → Event → Operation
  op_cancel_before_start : String → Operation
  op_finish : String → Bool → Operation
  op_enqueue : String → String → ExecutionCommand → Operation
  op_pending : String → Operation
  op_settle : String → String → CommandResult → Operation

module _ (p : Platform) where
  unfoldable pub perform : Operation → ExecutionStore → ExecutionStore
  unfolding reserve bind_session claim set_capacity admit append cancel_before_start finish enqueue
      pending settle
  perform (op_reserve id args release node skills) s =
      committed (reserve p id args release node skills s) s
  perform (op_bind_session id session_id) s = committed (bind_session p id session_id s) s
  perform (op_claim id) s = committed (claim p id s) s
  perform (op_set_capacity n) s = committed (set_capacity n s) s
  perform (op_admit limit) s = (admit limit s).1
  perform (op_append id event) s = committed (append id event s) s
  perform (op_cancel_before_start id) s = committed (cancel_before_start id s) s
  perform (op_finish id is_lost) s = finish id is_lost s
  perform (op_enqueue execution id body) s = committed (enqueue execution id body s) s
  perform (op_pending execution) s = (pending execution s).1
  perform (op_settle execution id result) s = committed (settle execution id result s) s

  unfoldable pub perform_all : List Operation → ExecutionStore → ExecutionStore
  unfolding perform
  perform_all [] s = s
  perform_all (op ∷ ops) s = perform_all ops (perform op s)
