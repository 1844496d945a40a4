-- ===== src/Tasks/Store.antt =====
-- The tables of the task store and the writes to one task:
-- apps/server/src/modules/tasks/adapters/outbound/sqlite-tasks.ts. Rows stand in the order of their
-- insertion. `C` is the state of the projections that conversation-history.ts keeps beside them.
pub mod Laws
use Prim.Native.Nat.{max}
use palmagent.Common.{
  ℕ, ◌+◌, String, Text, Bool, true, false, ◌||◌, Option, none, some, List, [], ◌∷◌, ◌++◌, ◌==◌,
  string_eq, option_eq, find, keep, modify, any, map, is_some, if◌then◌else◌, unexpected, is_none,
  Failure, Result, ok, err, ◌>>=◌, ◌>>◌, refuse_if,
}
use palmagent.Tasks.Prs.{PrRef}
use palmagent.Tasks.Types.{
  TaskState, TaskRow, TaskStatus, queued, running, awaiting_approval, awaiting_input, idle,
  is_archived, is_active_task_status, listed, ContextUsage, EventLine, Import,
}
use palmagent.Tasks.Evidence.{PrEvidence}
use palmagent.Tasks.Rows.{row_to_task, task_to_row, to_flag}

pub record Store (C : Type 0) : Type 0 where
  pub tasks : List TaskRow
  pub events : List EventLine
  pub last_event_id : ℕ
  pub imports : List Import
  pub evidence : List (String × PrEvidence)
  pub conversation : C

abbrev pub missing_task : Failure
missing_task = unexpected "FOREIGN KEY constraint failed"

abbrev pub is_task : String → TaskRow → Bool
is_task id t = t.id == id

abbrev pub state_of : Option TaskRow → Option TaskState
state_of none = none
state_of (some row) = some (row_to_task row)

-- `SET session_control = ?, ...`
abbrev pub mark_stale : Option String → TaskRow → TaskRow
mark_stale model row = elim row.context_usage [
  | none ↦ row
  | some usage ↦
      if row.model == model
      then row
      else record row { context_usage = some (record usage { stale = true }) }
]

abbrev pub larger : Option ℕ → Option ℕ → Option ℕ
larger none m = m
larger (some n) none = some n
larger (some n) (some m) = some (max n m)

-- `MAX(pinned_at)`
abbrev pub greatest : List TaskRow → Option ℕ
greatest [] = none
greatest (t ∷ ts) = larger t.pinned_at (greatest ts)

-- The place of a new pin: after every other, whatever the clock says.
abbrev pub place_after : ℕ → Option ℕ → ℕ
place_after now none = now
place_after now (some last) = max now (last + 1)

abbrev pub next_pin : ℕ → List TaskRow → ℕ
next_pin now rows = place_after now (greatest rows)

abbrev pub pin_of : Bool → ℕ → Option ℕ → Option ℕ
pin_of false place pin = none
pin_of true place none = some place
pin_of true place (some pin) = some pin

abbrev pub first_pr_url : List PrRef → Option Text
first_pr_url [] = none
first_pr_url (pr ∷ prs) = some pr.url

abbrev pub reset_row : ℕ → TaskRow → TaskRow
reset_row now row = record row {
  status = idle;
  interrupted = 1;
  pending_input = none;
  pending_approval = none;
  updated_at = now;
}

module _ {C : Type 0} where
  abbrev pub find_row : String → Store C → Option TaskRow
  find_row id s = find (is_task id) s.tasks

  unfoldable pub get_task : String → Store C → Option TaskState
  unfolding row_to_task
  get_task id s = state_of (find_row id s)

  abbrev pub update_row : String → (TaskRow → TaskRow) → Store C → Store C
  update_row id f s = record s { tasks = modify (is_task id) f s.tasks }

  -- A space of the task is there.
  unfoldable pub insert_task : TaskState → Store C → Result (Store C)
  unfolding task_to_row
  insert_task t s =
      refuse_if (any (is_task t.task_id) s.tasks) (unexpected "UNIQUE constraint failed: tasks.id")
      >> ok (record s { tasks = s.tasks ++ task_to_row t ∷ [] })

  unfoldable pub set_session_control : String → Option String → Store C → Store C
  set_session_control id control = update_row id (λ row. record row { session_control = control })

  abbrev pub pin_found : String → Bool → ℕ → Store C → Option TaskRow → Result (Option ℕ × Store C)
  pin_found id pinned now s none = err (unexpected "TypeError")
  pin_found id pinned now s (some row) =
      let pin = pin_of pinned (next_pin now s.tasks) row.pinned_at in
      ok (pin, update_row id (λ r. record r { pinned_at = pin; updated_at = now }) s)

  -- Answers with the pin; a row that is missing has none, which throws.
  unfoldable pub set_task_pin : String → Bool → ℕ → Store C → Result (Option ℕ × Store C)
  set_task_pin id pinned now s = pin_found id pinned now s (find_row id s)

  unfoldable pub set_task_title : String → Text → ℕ → Store C → Store C
  set_task_title id title now =
      update_row id (λ row. record row { title = some title; updated_at = now })

  unfoldable pub set_task_status : String → TaskStatus → Bool → ℕ → Store C → Store C
  set_task_status id status interrupted now = update_row id (λ row. record row {
    status = status;
    interrupted = to_flag interrupted;
    updated_at = now;
    pinned_at = if is_archived status then none else row.pinned_at;
  })

  -- The usage of a session does not carry over to another. It is cleared in a table whose rows belong
  -- to tasks that exist.
  unfoldable pub set_task_session : String → String → ℕ → Store C → Result (Store C)
  set_task_session id session now s =
      refuse_if (is_none (find_row id s)) missing_task
      >> ok (
          update_row id
            (λ row. record row {
              context_usage = if row.session_id == some session then row.context_usage else none;
              session_id = some session;
              updated_at = now;
            })
            s)

  unfoldable pub set_task_settings :
      String → Option String → Option String → String → ℕ → Store C → Store C
  set_task_settings id model effort permission now = update_row id (λ row.
      record (mark_stale model row) {
        model = model;
        effort = effort;
        permission = permission;
        updated_at = now;
      })

  unfoldable pub set_task_worktree : String → String → String → ℕ → Store C → Store C
  set_task_worktree id branch path now =
      update_row id
        (λ row. record row { branch = some branch; worktree_path = some path; updated_at = now })

  unfoldable pub touch_task : String → ℕ → Store C → Store C
  touch_task id now = update_row id (λ row. record row { last_activity_at = now })

  unfoldable pub set_task_prs : String → List PrRef → ℕ → Store C → Store C
  set_task_prs id prs now = update_row id (λ row. record row {
    pr_urls = some (listed prs);
    pr_url = first_pr_url prs;
    updated_at = now;
  })

  unfoldable pub set_task_pending_input : String → Option String → ℕ → Store C → Store C
  set_task_pending_input id pending now =
      update_row id (λ row. record row { pending_input = pending; updated_at = now })

  unfoldable pub set_task_pending_approval : String → Option String → ℕ → Store C → Store C
  set_task_pending_approval id pending now =
      update_row id (λ row. record row { pending_approval = pending; updated_at = now })

  unfoldable pub set_task_raw_seq : String → ℕ → Store C → Store C
  set_task_raw_seq id seq = update_row id (λ row. record row { last_raw_seq = seq })

  unfoldable pub get_task_raw_seq : String → Store C → ℕ
  get_task_raw_seq id s = elim (find_row id s) [ none ↦ 0 | some row ↦ row.last_raw_seq ]

  unfoldable pub in_flight_task_ids : Store C → List String
  in_flight_task_ids s =
      map (λ (t : TaskRow). t.id) (keep (λ (t : TaskRow). is_active_task_status t.status) s.tasks)

  unfoldable pub reset_interrupted_tasks : List String → ℕ → Store C → Store C
  reset_interrupted_tasks [] now s = s
  reset_interrupted_tasks (id ∷ ids) now s =
      reset_interrupted_tasks ids now (update_row id (reset_row now) s)
