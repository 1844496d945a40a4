-- ===== src/Tasks/Events.antt =====
-- The events of tasks and what is projected from them: `insertEvent`, `eventCursor`,
-- `eventsAfterGlobal`, `eventsAfterSeq`, `appendAgentEvents`, `projectPrEvents` and
-- `projectContextEvents` of apps/server/src/modules/tasks/adapters/outbound/sqlite-tasks.ts, and
-- apps/server/src/modules/tasks/adapters/outbound/context-usage.ts. The rows of a task stand in the
-- order of their numbers (Tasks/Events/Order), so `ORDER BY` reads the table as it stands.
pub mod Order
use Prim.Native.Nat.{max}
use palmagent.Common.{
  ℕ, zero, suc, ◌+◌, String, Text, Bool, true, false, ◌||◌, ◌&&◌, not, Option, none, some, List, [],
  ◌∷◌, ◌++◌, ◌==◌, string_eq, nat_eq, list_eq, option_eq, find, keep, modify, any, map, take,
  length, ltb, leb, is_some, is_none, is_empty, or_else, if◌then◌else◌, unexpected, Result, ok, err,
  ◌>>=◌, ◌>>◌, refuse_if,
}
use palmagent.Events.{
  AgentKind, codex, AgentEvent, AgentEventKind, status, is_kind, Json, null, boolean, number,
  natural, below, other, string, array, object, get, says, says_one, or_nullish, agent_eq,
}
use palmagent.Tasks.Prs.{PrRef, project_confirmed_prs}
use palmagent.Tasks.Types.{TaskRow, TaskState, ContextUsage, EventLine, EventRow, listed}
use palmagent.Tasks.Evidence.{PrEvidence, untracked, accept}
use palmagent.Tasks.Store.{
  Store, find_row, get_task, update_row, first_pr_url, set_task_raw_seq, touch_task, missing_task,
  is_task,
}

abbrev pub of_task : String → EventLine → Bool
of_task id e = e.task_id == id

-- `COALESCE(MAX(seq), 0)`
abbrev pub max_seq : List EventLine → ℕ
max_seq [] = 0
max_seq (e ∷ es) = max e.seq (max_seq es)

abbrev pub max_safe : ℕ
max_safe = 9007199254740991

abbrev pub mark_usage : Option ContextUsage → Option ContextUsage
mark_usage none = none
mark_usage (some usage) = some (record usage { stale = true })

-- `typeof v === "number" && Number.isSafeInteger(v) && v >= 0`
abbrev pub safe_count : Option Json → Option ℕ
safe_count (some (number (natural n))) = if leb n max_safe then some n else none
safe_count (some (number (below n))) = none
safe_count (some (number (other t))) = none
safe_count (some null) = none
safe_count (some (boolean b)) = none
safe_count (some (string s)) = none
safe_count (some (array xs)) = none
safe_count (some (object fs)) = none
safe_count none = none

abbrev pub positive : Option ℕ → Option ℕ
positive none = none
positive (some zero) = none
positive (some (suc n)) = some (suc n)

abbrev pub reported_usage : Option ContextUsage → ℕ → Option ℕ → Option ℕ → Option ContextUsage
reported_usage previous ts none window = mark_usage previous
reported_usage previous ts (some used) window =
    some (record {
      used_tokens = used;
      window_tokens = positive window;
      updated_at = ts;
      stale = false;
    })

unfoldable pub project_context_usage : Option ContextUsage → AgentEvent → Option ContextUsage
project_context_usage previous ev =
    let usage = or_else (get "usage" ev.payload) null in
    if not (ev.agent == codex) || not (is_kind ev.kind status)
    then previous
    else if says_one (get "subtype" ev.payload)
        ("compaction_requested" ∷ "context_compaction_started" ∷ [])
    then mark_usage previous
    else if not (says (get "subtype" ev.payload) "usage")
    then previous
    else reported_usage previous ev.ts
        (safe_count (get "totalTokens" (or_else (get "last" usage) null)))
        (safe_count (get "modelContextWindow" usage))

unfoldable pub project_contexts : Option ContextUsage → List AgentEvent → Option ContextUsage
unfolding project_context_usage
project_contexts usage [] = usage
project_contexts usage (ev ∷ evs) = project_contexts (project_context_usage usage ev) evs

abbrev pub row_to_event : TaskRow → EventLine → EventRow
row_to_event t e = record {
  id = e.id;
  seq = e.seq;
  event = record {
    task_id = e.task_id;
    agent = t.agent;
    kind = e.kind;
    session_id = t.session_id;
    payload = e.payload;
    ts = e.ts;
  };
}

abbrev pub write_evidence :
    String → PrEvidence → List (String × PrEvidence) → List (String × PrEvidence)
write_evidence id e [] = (id, e) ∷ []
write_evidence id e ((j, f) ∷ rows) =
    let rest = write_evidence id e rows in if j == id then (j, e) ∷ rows else (j, f) ∷ rest

abbrev pub evidence_row : String → List (String × PrEvidence) → Option PrEvidence
evidence_row id [] = none
evidence_row id ((j, f) ∷ rows) =
    let rest = evidence_row id rows in if j == id then some f else rest

abbrev pub evidence_beq : PrEvidence → PrEvidence → Bool
evidence_beq a b =
    (a.pending == b.pending) && ((a.legacy && b.legacy) || (not a.legacy && not b.legacy))

module _ (parse : Text → Option Json) where
  unfoldable pub accept_all : List AgentEvent → PrEvidence → List Text × PrEvidence
  unfolding accept
  accept_all [] e = ([], e)
  accept_all (ev ∷ evs) e =
      let first = accept parse ev.kind ev.agent ev.payload e in
      let rest = accept_all evs first.1 in (first.0 ++ rest.0, rest.1)

abbrev pub max_id : List EventLine → ℕ
max_id [] = 0
max_id (e ∷ es) = max e.id (max_id es)

-- The row of the task of an event; an event of no task is not joined.
abbrev pub joined : List TaskRow → List EventLine → List EventRow
joined tasks [] = []
joined tasks (e ∷ es) =
    let rest = joined tasks es in
    elim (find (is_task e.task_id) tasks) [ none ↦ rest | some t ↦ row_to_event t e ∷ rest ]

abbrev pub event_row : AgentEvent → EventLine → EventRow
event_row ev e = record { id = e.id; seq = e.seq; event = ev }

abbrev pub unchanged : Option PrEvidence → List Text × PrEvidence → Bool
unchanged none outcome = false
unchanged (some row) (urls, tracker) = is_empty urls && evidence_beq row tracker

module _ {C : Type 0} where
  abbrev pub events_of : String → Store C → List EventLine
  events_of id s = keep (of_task id) s.events

  unfoldable pub event_cursor : String → Store C → ℕ
  event_cursor id s = max_seq (events_of id s)

  unfoldable pub global_cursor : Store C → ℕ
  global_cursor s = max_id s.events

  unfoldable pub events_after_global : ℕ → ℕ → Store C → List EventRow
  events_after_global after limit s =
      take limit (joined s.tasks (keep (λ (e : EventLine). ltb after e.id) s.events))

  unfoldable pub events_after_seq : String → ℕ → ℕ → Store C → List EventRow
  events_after_seq id after limit s =
      take limit (joined s.tasks (keep (λ (e : EventLine). ltb after e.seq) (events_of id s)))

  unfoldable pub new_line : String → AgentEvent → Store C → EventLine
  unfolding event_cursor
  new_line id ev s = record {
    id = s.last_event_id + 1;
    seq = event_cursor id s + 1;
    task_id = id;
    kind = ev.kind;
    payload = ev.payload;
    ts = ev.ts;
  }

  unfoldable pub inserted : String → AgentEvent → Store C → Store C
  unfolding event_cursor
  inserted id ev s = record s {
    events = s.events ++ new_line id ev s ∷ [];
    last_event_id = s.last_event_id + 1;
  }

  -- `events.map((event) => insertEvent(...))`: the rows, and the store.
  unfoldable pub insert_events : String → List AgentEvent → Store C → List EventRow × Store C
  unfolding event_cursor
  insert_events id [] s = ([], s)
  insert_events id (ev ∷ evs) s =
      let rest = insert_events id evs (inserted id ev s) in
      (event_row ev (new_line id ev s) ∷ rest.0, rest.1)

  unfoldable pub known_prs : String → Store C → List PrRef
  unfolding get_task
  known_prs id s = elim (get_task id s) [ none ↦ [] | some t ↦ or_else t.prs [] ]

  -- The row of evidence, and the columns of the task; `touched` is the time of a new request.
  abbrev pub write_pr_evidence : String → PrEvidence → List PrRef → Option ℕ → Store C → Store C
  write_pr_evidence id tracker prs touched s = record s {
    evidence = write_evidence id tracker s.evidence;
    tasks =
        modify (is_task id)
          (λ (row : TaskRow). record row {
            pr_urls = some (listed prs);
            pr_url = first_pr_url prs;
            updated_at = or_else touched row.updated_at;
          })
          s.tasks;
  }

  module _ (parse : Text → Option Json) (now : ℕ) where
    unfoldable pub project_pr_events : String → List AgentEvent → Store C → Store C
    unfolding accept get_task project_confirmed_prs
    project_pr_events id events s =
        let row = evidence_row id s.evidence in
        let outcome = accept_all parse events (or_else row untracked) in
        let previous = known_prs id s in
        let prs = project_confirmed_prs previous outcome.0 false in
        if unchanged row outcome
        then s
        else write_pr_evidence id outcome.1 prs
            (if ltb (length previous) (length prs) then some now else none) s

    unfoldable pub project_context_events : String → List AgentEvent → Store C → Store C
    unfolding project_context_usage
    project_context_events id events s =
        if any (λ (ev : AgentEvent). is_kind ev.kind status) events
        then update_row id
            (λ row. record row { context_usage = project_contexts row.context_usage events }) s
        else s

    unfoldable pub note_raw_seq : String → Option ℕ → Store C → Store C
    unfolding set_task_raw_seq
    note_raw_seq id none s = s
    note_raw_seq id (some seq) s = set_task_raw_seq id seq s

    module _ (update : String → List EventLine → C → C) where
      abbrev pub update_conversation : String → Store C → Store C
      update_conversation id s = record s { conversation = update id s.events s.conversation }

      unfoldable pub projected : String → List AgentEvent → Store C → Store C
      unfolding accept get_task project_confirmed_prs project_context_usage
      projected id events s =
          project_context_events id events (project_pr_events id events (update_conversation id s))

      -- What a batch leaves, with its rows.
      unfoldable pub appended :
          String → List AgentEvent → Option ℕ → Store C → List EventRow × Store C
      unfolding accept get_task project_confirmed_prs project_context_usage set_task_raw_seq
          touch_task event_cursor
      appended id events raw s =
          let outcome = insert_events id events s in
          (outcome.0, touch_task id now (note_raw_seq id raw (projected id events outcome.1)))

      -- One transaction: a task that is missing has no row of evidence, and none may be added.
      unfoldable pub append_agent_events :
          String → List AgentEvent → Option ℕ → Store C → Result (List EventRow × Store C)
      unfolding accept get_task project_confirmed_prs project_context_usage set_task_raw_seq
          touch_task event_cursor
      append_agent_events id events raw s =
          refuse_if (is_none (find_row id s)) missing_task >> ok (appended id events raw s)
