-- ===== src/Conversation/Projection.antt =====
-- The collapsed conversation: `attachTraceOperations` and `projectConversation` of
-- packages/shared/src/conversation-trace.ts, and `runInterrupted` of packages/shared/src/conversation.ts.
use palmagent.Common.{
  ℕ, suc, Bool, true, false, ◌&&◌, ◌||◌, not, Option, none, some, List, [], ◌∷◌, ◌==◌, nat_eq,
  option_eq, any, keep, if◌then◌else◌, is_empty, ◌≡◌, refl, ◌++◌, arith, never,
}
use palmagent.Events.{status, error, result, get, says}
use palmagent.Conversation.Log.{LogItem, has_kind, payload}
use palmagent.Conversation.Trace.Operations.{TraceOperation}
use palmagent.Conversation.Trace.{trace_operations}
use palmagent.Conversation.Transcript.Rows.{RunFailure, Row, activity, failure, message}
use palmagent.Conversation.Transcript.{compact, present_transcript, is_compacted}
use palmagent.Conversation.Transcript.Prompts.{Asks, shows, present_transcript-shows}

-- A row with the operations that were attached to it.
pub record Projected : Type 0 where
  pub row : Row
  pub operations : List TraceOperation

abbrev pub owns : ℕ → Row → Bool
owns key (activity a) = any (λ (item : LogItem). item.key == key) a.items
owns key (failure r) = false
owns key (message k item) = false

abbrev pub or_here : Option ℕ → Bool → ℕ → Option ℕ
or_here (some m) here n = some m
or_here none here n = if here then some n else none

-- `owners.get(key)`: the last activity that has the item.
abbrev pub owner_of : ℕ → ℕ → List Row → Option ℕ
owner_of key n [] = none
owner_of key n (row ∷ rows) = or_here (owner_of key (suc n) rows) (owns key row) n

-- The owner of the first member that has one.
abbrev pub first_owner : List Row → List ℕ → Option ℕ
first_owner rows [] = none
first_owner rows (k ∷ ks) = elim (owner_of k 0 rows) [
  | some n ↦ some n
  | none ↦ first_owner rows ks
]

abbrev pub operations_at : List Row → List TraceOperation → ℕ → List TraceOperation
operations_at rows operations n =
    keep (λ (op : TraceOperation). first_owner rows op.members == some n) operations

abbrev pub attached_from : List Row → List TraceOperation → ℕ → List Row → List Projected
attached_from all operations n [] = []
attached_from all operations n (row ∷ rows) =
    record { row = row; operations = operations_at all operations n }
    ∷ attached_from all operations (suc n) rows

unfoldable pub attach_trace_operations : List Row → List TraceOperation → List Projected
attach_trace_operations rows operations = attached_from rows operations 0 rows

abbrev pub is_worth_showing : Row → List TraceOperation → Bool
is_worth_showing (activity a) operations = not (is_empty operations)
is_worth_showing (failure r) operations = true
is_worth_showing (message k item) operations = true

abbrev pub is_shown : Projected → Bool
is_shown p = is_worth_showing p.row p.operations

unfoldable pub project_conversation : List LogItem → Bool → List Projected
unfolding attach_trace_operations trace_operations present_transcript
project_conversation log live =
    keep is_shown
      (attach_trace_operations (present_transcript log compact live) (trace_operations log live))

-- A failure whose run ended without an answer.
abbrev pub ends_run : LogItem → Bool
ends_run item =
    has_kind item result
    || (has_kind item status && says (get "subtype" (payload item)) "process_exit")
    || (has_kind item error && says (get "code" (payload item)) "turn_result_missing")

unfoldable pub run_interrupted : RunFailure → Bool
run_interrupted r = not r.completed && any ends_run r.items

shown-message :
    (key : ℕ) (row : Row) (operations : List TraceOperation)
    → shows key row ≡ true
    → is_worth_showing row operations ≡ true
shown-message key (activity a) operations h = never h
shown-message key (failure r) operations h = never h
shown-message key (message k item) operations h = refl

shows-attached :
    (key : ℕ) (all : List Row) (operations : List TraceOperation) (n : ℕ) (rows : List Row)
    → any (shows key) rows ≡ true
    → any (λ (p : Projected). shows key p.row) (keep is_shown (attached_from all operations n rows))
      ≡ true
shows-attached key all operations n [] h = never h
shows-attached key all operations n (row ∷ rows) h = ground (
  arith,
  shown-message key row (operations_at all operations n),
  shows-attached key all operations (suc n) rows,
)

-- Every request of the user, every question and every approval request of a log keeps a row of its own
-- in the collapsed conversation, live or not, although activities without steps are left out of it.
pub project_conversation-shows :
    (before after : List LogItem) (item : LogItem) (live : Bool)
    → is_compacted item ≡ false
    → Asks item
    → any
        (λ (p : Projected). shows item.key p.row)
        (project_conversation (before ++ item ∷ after) live)
      ≡ true
unfolding project_conversation attach_trace_operations
project_conversation-shows before after item live c s =
    let rows = present_transcript (before ++ item ∷ after) compact live in
    shows-attached item.key rows (trace_operations (before ++ item ∷ after) live) 0 rows
      (present_transcript-shows compact before after item live c s)
