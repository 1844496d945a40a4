-- ===== src/Conversation/Trace.antt =====
-- The steps that an activity shows: `traceOperations` and `traceStepTitle` of
-- packages/shared/src/conversation-trace.ts. The objects of `calls` and `active` are the places of the
-- operations in their list, which only grows.
pub mod Operations
pub mod Tracking
pub mod Places
pub mod Settled
use palmagent.Common.{
  ℕ, zero, suc, ◌+◌, String, Text, codes, Bool, true, false, ◌&&◌, ◌||◌, not, Option, none, some,
  List, [], ◌∷◌, ◌++◌, ◌==◌, string_eq, nat_eq, list_eq, if◌then◌else◌, is_empty, includes, length,
  or_else, map, is_some,
}
use palmagent.Events.{
  AgentKind, agent_eq, AgentEvent, status, output_image, assistant_text, tool_call, tool_result,
  result, error, Json, get, as_string, says, says_one,
}
use palmagent.Events.Summary.{text, or_text, short, tool_summary}
use palmagent.Conversation.Log.{
  LogItem, Content, prose, other, has_kind, payload, trace_image, failed,
}
use palmagent.Conversation.Trace.Operations.{
  TraceState, running, completed, error_state, interrupted, unknown, TraceKind, tool, reasoning,
  progress, event, TraceOperation, is_running, subtype, boundary, terminal, CallKey, same_call,
  Trace, empty_trace, settle_state, settle, settle_active, finish, update_at,
}

abbrev pub find_call : CallKey → List (CallKey × ℕ) → Option ℕ
find_call k [] = none
find_call k ((c, n) ∷ calls) =
    let rest = find_call k calls in if same_call c k then some n else rest

-- The key under an identity; without one calls are not matched.
abbrev pub key_of : Content → Text → Option CallKey
key_of (prose agent t i p) id = none
key_of (other ev deferred) [] = none
key_of (other ev deferred) (c ∷ id) = some (ev.task_id, ev.agent, or_else ev.session_id "", c ∷ id)

abbrev pub find_key : Option CallKey → List (CallKey × ℕ) → Option ℕ
find_key none calls = none
find_key (some k) calls = find_call k calls

abbrev pub note_call : Option CallKey → ℕ → List (CallKey × ℕ) → List (CallKey × ℕ)
note_call none n calls = calls
note_call (some k) n calls = (k, n) ∷ calls

-- A state that says nothing else leaves an error and a completion.
abbrev pub reopened : TraceState → TraceState
reopened error_state = error_state
reopened completed = completed
reopened running = running
reopened interrupted = running
reopened unknown = running

unfoldable pub next_state : LogItem → TraceState → TraceState
unfolding failed
next_state item state =
    let word = get "status" (payload item) in
    if failed item
    then error_state
    else if says_one word ("interrupted" ∷ "cancelled" ∷ "canceled" ∷ [])
    then interrupted
    else if says_one word ("completed" ∷ "success" ∷ "succeeded" ∷ [])
        || (has_kind item tool_result
            && not (says_one word ("in_progress" ∷ "running" ∷ "pending" ∷ [])))
    then completed
    else reopened state

unfoldable pub retitled : LogItem → TraceOperation → TraceOperation
unfolding tool_summary
retitled item op =
    if has_kind item tool_call
    then record op { kind = tool; title = tool_summary (payload item) }
    else op

unfoldable pub touch : LogItem → TraceOperation → TraceOperation
unfolding next_state retitled
touch item op = record (retitled item op) {
  members = op.members ++ item.key ∷ [];
  state = next_state item op.state;
}

unfoldable pub new_operation : LogItem → TraceOperation
unfolding tool_summary
new_operation item = record {
  key = item.key;
  title = if has_kind item tool_call then tool_summary (payload item) else codes "Tool result";
  kind = if has_kind item tool_call then tool else event;
  state = running;
  members = [];
}

-- The operation of a call: the one that is known, or a new one at the end.
unfoldable pub opened : LogItem → Option CallKey → Option ℕ → Trace → ℕ × Trace
unfolding new_operation
opened item key (some n) t = (n, t)
opened item key none t = (
  length t.operations,
  record {
    operations = t.operations ++ new_operation item ∷ [];
    calls = note_call key (length t.operations) t.calls;
    active = length t.operations ∷ t.active;
  },
)

unfoldable pub touched : LogItem → ℕ × Trace → Trace
unfolding touch
touched item (n, t) = record t { operations = update_at n (touch item) t.operations }

unfoldable pub tool_step : LogItem → Trace → Trace
unfolding opened touched
tool_step item t =
    let p = payload item in
    let key = key_of item.content (or_text (text (get "tool_use_id" p)) (text (get "id" p))) in
    touched item (opened item key (find_key key t.calls) t)

abbrev pub add : TraceOperation → Trace → Trace
add op t = record t { operations = t.operations ++ op ∷ [] }

abbrev pub completed_step : LogItem → TraceKind → Text → TraceOperation
completed_step item kind title = record {
  key = item.key;
  title = title;
  kind = kind;
  state = completed;
  members = item.key ∷ [];
}

abbrev pub include_member : ℕ → TraceOperation → TraceOperation
include_member key op = record op { members = op.members ++ key ∷ [] }

abbrev pub image_found : LogItem → Option ℕ → Trace → Trace
image_found item (some n) t = record t {
  operations = update_at n (include_member item.key) t.operations;
}
image_found item none t = add (completed_step item event (codes "Image output")) t

abbrev pub image_step : LogItem → Trace → Trace
image_step item t =
    image_found item
      (find_key (key_of item.content (text (get "tool_use_id" (payload item)))) t.calls) t

abbrev pub prose_text : Content → Text
prose_text (prose agent t i p) = t
prose_text (other ev deferred) = []

abbrev pub underscores : Text → Text
underscores s = map (λ c. if c == 95 then 32 else c) s

abbrev pub silent : List String
silent =
    "init" ∷ "session_started" ∷ "turn_started" ∷ "dispatch" ∷ "followup" ∷ "steer" ∷ "answer"
    ∷ "assistant_message" ∷ "message_delivered" ∷ "usage" ∷ "context_usage" ∷ "context_compacted"
    ∷ []

unfoldable pub status_operation : LogItem → TraceOperation
unfolding failed short
status_operation item = record {
  key = item.key;
  title = or_text (short (underscores (text (subtype item)))) (codes "Status update");
  kind = event;
  state = if failed item then error_state else completed;
  members = item.key ∷ [];
}

unfoldable pub status_step : LogItem → Trace → Trace
unfolding status_operation
status_step item t =
    if says (subtype item) "reasoning"
    then add (completed_step item reasoning (codes "Reasoning")) t
    else if says_one (subtype item) silent
    then t
    else add (status_operation item) t

unfoldable pub item_step : LogItem → Trace → Trace
unfolding tool_step status_step short
item_step item t =
    if has_kind item tool_call || has_kind item tool_result
    then tool_step item t
    else if trace_image item
    then image_step item t
    else if has_kind item assistant_text
    then add
        (completed_step item progress
          (or_text (short (prose_text item.content)) (codes "Progress update")))
        t
    else if has_kind item status
    then status_step item t
    else t

-- One item: a boundary ends what ran before it, and so does the end of a run.
unfoldable pub step : LogItem → Trace → Trace
unfolding finish item_step failed
step item t =
    let open_trace = if boundary item then finish false t else t in
    if terminal item
    then finish (failed item || not (has_kind item result)) open_trace
    else item_step item open_trace

unfoldable pub steps : List LogItem → Trace → Trace
unfolding step
steps [] t = t
steps (item ∷ items) t = steps items (step item t)

unfoldable pub trace_operations : List LogItem → Bool → List TraceOperation
unfolding steps finish
trace_operations log live =
    (if live then steps log empty_trace else finish false (steps log empty_trace)).operations

abbrev pub prefix : TraceState → Text
prefix running = codes "Running"
prefix completed = codes "Completed"
prefix error_state = codes "Failed"
prefix interrupted = codes "Interrupted"
prefix unknown = codes "Result unavailable"

abbrev pub titled : TraceState → TraceKind → Bool
titled state tool = true
titled error_state reasoning = true
titled error_state progress = true
titled error_state event = true
titled interrupted reasoning = true
titled interrupted progress = true
titled interrupted event = true
titled running reasoning = false
titled running progress = false
titled running event = false
titled completed reasoning = false
titled completed progress = false
titled completed event = false
titled unknown reasoning = false
titled unknown progress = false
titled unknown event = false

unfoldable pub trace_step_title : TraceOperation → Text
trace_step_title op =
    if titled op.state op.kind then prefix op.state ++ (codes ": " ++ op.title) else op.title
