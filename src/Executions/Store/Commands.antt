-- ===== src/Executions/Store/Commands.antt =====
-- apps/server/src/modules/agents/adapters/outbound/execution-store.ts: the end of an execution, and its
-- commands.
use palmagent.Common.{
  ℕ, String, Bool, true, false, ◌&&◌, ◌||◌, not, Option, none, some, List, [], ◌∷◌, ◌++◌, map, any,
  find, keep, modify, take, is_some, ltb, ◌==◌, nat_eq, string_eq, option_eq, if◌then◌else◌,
  unexpected, Result, ok, ◌>>=◌, ◌>>◌, refuse_if,
}
use palmagent.Executions.Types.{
  ExecutionState, finished, lost, is_queued, is_starting, is_running, answered, status,
  ExecutionRecord, ExecutionCommand, answer, send, steer, approve, interrupt, cancel, same_command,
  CommandResult, accepted, delivered, rejected, unknown, is_accepted, is_rejected, CommandRecord,
  EventRecord,
}
use palmagent.Executions.Store.Rows.{ExecutionStore, get, rewrite, asks, clear_question, append}

abbrev pub ends : Bool → ExecutionState
ends true = lost
ends false = finished

unfoldable pub finish : String → Bool → ExecutionStore → ExecutionStore
unfolding rewrite
finish id is_lost s =
    let t = rewrite id (λ r. record r { state = ends is_lost; question = none }) s in
    record t {
      commands =
          map
            (λ c.
              if c.execution == id && is_accepted c.result
              then record c { result = unknown }
              else c)
            t.commands;
    }

unfoldable pub cancel_found : Bool → String → ExecutionStore → Result (Bool × ExecutionStore)
unfolding append finish
cancel_found true id s = ok (false, s)
cancel_found false id s = do
  appended ← append id (status "process_exit") s
  ok (true, finish id false appended.1)

unfoldable pub cancel_before_start : String → ExecutionStore → Result (Bool × ExecutionStore)
unfolding get cancel_found
cancel_before_start id s = do
  r ← get id s
  cancel_found (not (is_queued r.state || is_starting r.state) || is_some r.process) id s

unfoldable pub events_after : String → ℕ → ExecutionStore → List EventRecord
events_after id after s = take 256 (keep (λ e. e.execution == id && ltb after e.seq) s.events)

abbrev pub is_command : String → String → CommandRecord → Bool
is_command execution id c = c.execution == execution && c.id == id

unfoldable pub command : String → String → ExecutionStore → Option CommandRecord
command execution id s = find (is_command execution id) s.commands

abbrev pub answers : String → ExecutionCommand → Bool
answers request_id (answer a) = a.request_id == request_id
answers request_id _ = false

-- An answer to the request that was not definitely refused.
abbrev pub pending_answer : String → String → CommandRecord → Bool
pending_answer execution request_id c =
    c.execution == execution && answers request_id c.body && not (is_rejected c.result)

abbrev pub answer_blocked : String → ExecutionCommand → ExecutionRecord → ExecutionStore → Bool
answer_blocked execution (answer a) r s =
    not (asks a.request_id r.question) || any (pending_answer execution a.request_id) s.commands
answer_blocked execution _ r s = false

abbrev pub add_command : String → String → ExecutionCommand → ExecutionStore → ExecutionStore
add_command execution id body s = record s {
  commands =
      s.commands
      ++ record { execution = execution; id = id; body = body; result = accepted; claimed = false }
        ∷ [];
}

unfoldable pub enqueue_new :
    String
    → String
    → ExecutionCommand
    → ExecutionRecord
    → ExecutionStore
    → CommandResult × ExecutionStore
enqueue_new execution id body r s =
    if not (is_running r.state) || answer_blocked execution body r s
    then (rejected, s)
    else (accepted, add_command execution id body s)

unfoldable pub enqueue_after :
    Option CommandRecord
    → String
    → String
    → ExecutionCommand
    → ExecutionStore
    → Result (CommandResult × ExecutionStore)
unfolding get enqueue_new
enqueue_after (some prior) execution id body s = do
  refuse_if (not (same_command prior.body body))
      (unexpected "Command identity was reused with different content")
  ok (prior.result, s)
enqueue_after none execution id body s = do
  r ← get execution s
  ok (enqueue_new execution id body r s)

unfoldable pub enqueue :
    String → String → ExecutionCommand → ExecutionStore → Result (CommandResult × ExecutionStore)
unfolding enqueue_after command
enqueue execution id body s = enqueue_after (command execution id s) execution id body s

abbrev pub unclaimed : String → CommandRecord → Bool
unclaimed execution c = c.execution == execution && is_accepted c.result && not c.claimed

abbrev pub mark_claimed : String → CommandRecord → CommandRecord
mark_claimed execution c = if unclaimed execution c then record c { claimed = true } else c

-- The commands to deliver now, each marked before it is returned.
unfoldable pub pending : String → ExecutionStore → List CommandRecord × ExecutionStore
pending execution s = (
  map (mark_claimed execution) (keep (unclaimed execution) s.commands),
  record s { commands = map (mark_claimed execution) s.commands },
)

abbrev pub with_result : CommandResult → CommandRecord → CommandRecord
with_result result c = record c { result = result }

-- A delivered answer ends its question and is recorded as an event.
unfoldable pub record_delivery :
    String → ExecutionCommand → CommandResult → ExecutionStore → Result (Unit {0} × ExecutionStore)
unfolding clear_question append
record_delivery execution (answer a) delivered s = do
  appended ← append execution (answered a) (clear_question execution a.request_id s)
  ok (tt, appended.1)
record_delivery execution (answer a) accepted s = ok (tt, s)
record_delivery execution (answer a) rejected s = ok (tt, s)
record_delivery execution (answer a) unknown s = ok (tt, s)
record_delivery execution (send _) result s = ok (tt, s)
record_delivery execution (steer _) result s = ok (tt, s)
record_delivery execution (approve _) result s = ok (tt, s)
record_delivery execution interrupt result s = ok (tt, s)
record_delivery execution cancel result s = ok (tt, s)

unfoldable pub settle_found :
    Option CommandRecord
    → String
    → String
    → CommandResult
    → ExecutionStore
    → Result (Unit {0} × ExecutionStore)
unfolding record_delivery
settle_found none execution id result s = ok (tt, s)
settle_found (some c) execution id result s =
    if is_accepted c.result
    then record_delivery execution c.body result
        (record s { commands = modify (is_command execution id) (with_result result) s.commands })
    else ok (tt, s)

unfoldable pub settle :
    String → String → CommandResult → ExecutionStore → Result (Unit {0} × ExecutionStore)
unfolding settle_found command
settle execution id result s = settle_found (command execution id s) execution id result s
