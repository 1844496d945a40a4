-- ===== src/Tests/Tasks.antt =====
-- A task with a shell call that creates a pull request, a shared session and its history, and the
-- theorems on the task store applied to them.
use palmagent.Common.{
  ℕ, ◌+◌, ◌≤◌, ◌≡◌, refl, inl, String, Text, codes, true, Option, none, some, List, [], ◌∷◌, length,
  includes, ok, arith, list_eq, nat_eq,
}
use palmagent.Events.{
  AgentEvent, AgentEventKind, codex, assistant_text, tool_call, tool_result, is_kind, Json, null,
  number, natural, string, object, end, field,
}
use palmagent.Tasks.Evidence.{accept, result_id, max_pending}
use palmagent.Tasks.Evidence.Output.{is_pull_url}
use palmagent.Tasks.Evidence.Command.{commands}
use palmagent.Tasks.Evidence.Shell.{read, start}
use palmagent.Tasks.Evidence.Reader.{read-commands}
use palmagent.Tasks.Evidence.Provenance.{accept-has_call}
use palmagent.Tasks.Evidence.Calls.{tracked, has_call, tracked-le}
use palmagent.Tasks.Types.{TaskState, TaskRow, EventLine, EventRow, Import, queued}
use palmagent.Tasks.Rows.{task_to_row}
use palmagent.Tasks.Store.{Store, insert_task, get_task}
use palmagent.Tasks.Store.Laws.{insert_task-get_task}
use palmagent.Tasks.Events.{append_agent_events, appended}
use palmagent.Tasks.Events.Order.{AllNumbered, append_agent_events-AllNumbered}
use palmagent.Tasks.History.Paging.{read_back, below, read_back-below}
use palmagent.Tasks.Sessions.{import_events}
use palmagent.Tasks.Sessions.Prefixes.{Recorded, concat, texts, sources_of, import_events-texts}

abbrev source : Text
source = codes "cd repo && gh pr create --title 'A b' --fill"

read-commands_example : read (length source) none start source ≡ some (commands source)
read-commands_example = read-commands source

source_commands :
    commands source
    ≡ some (
        (codes "cd" ∷ codes "repo" ∷ [])
        ∷ (codes "gh"
            ∷ codes "pr"
            ∷ codes "create"
            ∷ codes "--title"
            ∷ codes "A b"
            ∷ codes "--fill"
            ∷ [])
        ∷ [])
unfolding commands
source_commands = refl

abbrev parse : Text → Option Json
parse text = none

abbrev event : AgentEventKind → Json → AgentEvent
event kind payload = record {
  task_id = "task";
  agent = codex;
  kind = kind;
  session_id = none;
  payload = payload;
  ts = 5;
}

abbrev call : AgentEvent
call = event tool_call (
    object (
      field "id" (string (codes "c1"))
        (field "name" (string (codes "bash")) (field "command" (string source) end))))

abbrev url : Text
url = codes "https://github.com/o/r/pull/12"

abbrev result_of_call : AgentEvent
result_of_call = event tool_result (
    object (
      field "tool_use_id" (string (codes "c1"))
        (field "exit_code" (number (natural 0)) (field "output" (string url) end))))

tracked-le_example : length (tracked parse (call ∷ [])).pending ≤ max_pending
tracked-le_example = tracked-le parse (call ∷ [])

reports :
    includes
      ((accept parse result_of_call.kind result_of_call.agent result_of_call.payload
        (tracked parse (call ∷ []))).0)
      url
    ≡ true
unfolding accept
reports = refl

accept-has_call_example :
    (is_kind result_of_call.kind tool_result ≡ true)
    × (is_pull_url url ≡ true)
    × (has_call parse (result_id result_of_call.payload) (call ∷ []) ≡ true)
accept-has_call_example = accept-has_call parse (call ∷ []) result_of_call url reports

abbrev task : TaskState
task = record {
  task_id = "task";
  pinned_at = none;
  context_usage = none;
  repo_id = "repo";
  agent = codex;
  title = none;
  skills = some ("skill" ∷ []);
  prompt = codes "go";
  status = queued;
  interrupted = true;
  session_id = none;
  session_control = none;
  branch = none;
  worktree_path = none;
  prs = none;
  pr_url = none;
  pending_input = none;
  pending_approval = none;
  permission = "full";
  model = none;
  effort = none;
  created_at = 1;
  updated_at = 1;
  last_activity_at = 1;
}

abbrev empty : Store ℕ
empty = record {
  tasks = [];
  events = [];
  last_event_id = 0;
  imports = [];
  evidence = [];
  conversation = 0;
}

insert_task-get_task_example :
    (s' : Store ℕ) × (insert_task task empty ≡ ok s') × (get_task "task" s' ≡ some task)
insert_task-get_task_example =
    insert_task-get_task task empty (record { usage = refl; skills = refl; prs = refl }) refl

abbrev pinned_row : TaskRow
unfolding task_to_row
pinned_row = record (task_to_row task) { id = "pinned"; pinned_at = some 90 }

-- The clock has moved back since the other pin.
abbrev filled : Store ℕ
unfolding task_to_row
filled = record empty { tasks = task_to_row task ∷ pinned_row ∷ [] }

abbrev update : String → List EventLine → ℕ → ℕ
update id events n = n + 1

abbrev batch : List AgentEvent
batch =
    call
    ∷ result_of_call
    ∷ event assistant_text (object (field "text" (string (codes "done")) end))
    ∷ []

abbrev after_batch : List EventRow × Store ℕ
after_batch = appended parse 7 update "task" batch none filled

appends : append_agent_events parse 7 update "task" batch none filled ≡ ok after_batch
unfolding append_agent_events filled
appends = refl

append_agent_events-AllNumbered_example : AllNumbered after_batch.1.events
unfolding filled
append_agent_events-AllNumbered_example =
    append_agent_events-AllNumbered parse 7 update "task" batch none filled after_batch.1
      after_batch.0 (λ id. tt) appends

abbrev line : ℕ → AgentEventKind → EventLine
line n kind = record { id = n; seq = n; task_id = "task"; kind = kind; payload = null; ts = 5 }

abbrev lines : Store ℕ
lines = record filled {
  events = line 1 tool_call ∷ line 2 tool_result ∷ line 3 assistant_text ∷ [];
}

read_back-below_example : read_back [] "task" 3 true 4 4 lines ≡ below [] "task" 3 true 4 lines
read_back-below_example =
    read_back-below [] "task" 3 true 4 4 lines (refl, (refl, (refl, tt))) (omega arith)

abbrev snapshot : Text → AgentEvent
snapshot text = event assistant_text (object (field "text" (string text) end))

abbrev snapshots : List AgentEvent
snapshots = snapshot (codes "He") ∷ snapshot (codes "He") ∷ snapshot (codes "Hello") ∷ []

abbrev pieces : List Text
pieces = codes "He" ∷ [] ∷ codes "llo" ∷ []

abbrev hash : Text → String
hash text = "digest"

import_events-texts_example :
    (out : List AgentEvent) × (rows' : List Import) × (import_events hash "task" snapshots
        (sources_of "m1" snapshots)
        []
      ≡ ok (out, rows'))
    × (texts out ≡ concat pieces)
    × Recorded hash "task" "m1" (concat pieces) rows'
import_events-texts_example =
    import_events-texts hash "task" "m1" snapshots pieces [] [] (inl (refl, refl))
      (refl, refl, (refl, refl, (refl, refl, tt)))
