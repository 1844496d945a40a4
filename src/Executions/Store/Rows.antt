-- ===== src/Executions/Store/Rows.antt =====
-- apps/server/src/modules/agents/adapters/outbound/execution-store.ts: the rows, and the events of an
-- execution.
use palmagent.Common.{
  ℕ, suc, String, Bool, false, ◌&&◌, not, Option, none, some, List, [], ◌∷◌, ◌++◌, any, find, keep,
  modify, or_option, ◌==◌, nat_eq, string_eq, option_eq, if◌then◌else◌, unexpected, Result, ok, err,
  ◌>>=◌, ◌>>◌, refuse_if,
}
use palmagent.Executions.Types.{
  AgentKind, QuestionRequest, Event, asked, input_resolved, answered, status, other,
  ExecutionRecord, CommandRecord, EventRecord,
}

pub record ExecutionStore : Type 0 where
  pub executions : List ExecutionRecord
  pub events : List EventRecord
  pub commands : List CommandRecord
  -- The setting of the admission, when one is saved.
  pub capacity : Option ℕ
  -- The control state of a task, as JSON.
  pub control : List (String × String)

-- The hash of the provider's session, and the identity of this process, which may be unknown.
pub record Platform : Type 0 where
  pub owner_key : AgentKind → String → String → String
  pub process : Option (ℕ × String)

abbrev pub has_execution : String → ExecutionRecord → Bool
has_execution id r = r.id == id

abbrev pub of_task : String → ExecutionRecord → Bool
of_task task_id r = r.args.task_id == task_id

abbrev pub found : Option ExecutionRecord → Result ExecutionRecord
found none = err (unexpected "Execution not found")
found (some r) = ok r

unfoldable pub get : String → ExecutionStore → Result ExecutionRecord
get id s = found (find (has_execution id) s.executions)

unfoldable pub list : ExecutionStore → List ExecutionRecord
list s = s.executions

unfoldable pub save_control : String → String → ExecutionStore → ExecutionStore
save_control task_id state s = record s {
  control = (task_id, state) ∷ keep (λ e. not (e.0 == task_id)) s.control;
}

abbrev pub body_of : Option (String × String) → Option String
body_of none = none
body_of (some e) = some e.1

unfoldable pub load_control : String → ExecutionStore → Option String
load_control task_id s = body_of (find (λ e. e.0 == task_id) s.control)

abbrev pub find_last : (ExecutionRecord → Bool) → List ExecutionRecord → Option ExecutionRecord
find_last p [] = none
find_last p (r ∷ rs) = or_option (find_last p rs) (if p r then some r else none)

unfoldable pub latest : String → ExecutionStore → Option ExecutionRecord
latest task_id s = find_last (of_task task_id) s.executions

-- The columns of one execution.
unfoldable pub rewrite :
    String → (ExecutionRecord → ExecutionRecord) → ExecutionStore → ExecutionStore
rewrite id f s = record s { executions = modify (has_execution id) f s.executions }

abbrev pub asks : String → Option QuestionRequest → Bool
asks request_id none = false
asks request_id (some q) = q.request_id == request_id

unfoldable pub clear_question : String → String → ExecutionStore → ExecutionStore
unfolding rewrite
clear_question execution request_id s =
    rewrite execution
      (λ r. record r { question = if asks request_id r.question then none else r.question }) s

-- What an event does to the question of its execution.
unfoldable pub apply_event : String → Event → ExecutionStore → ExecutionStore
unfolding rewrite clear_question
apply_event id (asked q) s = rewrite id (λ r. record r { question = some q }) s
apply_event id (input_resolved request_id) s = clear_question id request_id s
apply_event id (answered a) s = s
apply_event id (status subtype) s = s
apply_event id (other body) s = s

abbrev pub same_event_key : String → ℕ → EventRecord → Bool
same_event_key execution seq e = e.execution == execution && e.seq == seq

unfoldable pub record_event : String → ℕ → Event → ExecutionStore → ExecutionStore
unfolding rewrite apply_event
record_event id seq event s = apply_event id event (
    rewrite id (λ r. record r { last_seq = seq })
      (record s { events = s.events ++ record { execution = id; seq = seq; event = event } ∷ [] }))

unfoldable pub append : String → Event → ExecutionStore → Result (ℕ × ExecutionStore)
unfolding get record_event
append id event s = do
  r ← get id s
  refuse_if (any (same_event_key id (suc r.last_seq)) s.events)
      (unexpected "UNIQUE constraint failed: events")
  ok (suc r.last_seq, record_event id (suc r.last_seq) event s)
