-- ===== src/Routines/Scheduler.antt =====
-- The state of the scheduler and the results of its scripts: apps/server/src/modules/routines/
-- application/use-cases/routine-service.ts over its repository. The task service, the script runner
-- and the storage are the parameter `Outside`; `next` is `nextRun` on a stored expression, which may
-- throw.
use palmagent.Common.{
  ℕ, suc, String, Bool, ◌||◌, not, Option, List, [], ◌∷◌, ◌++◌, any, keep, modify, ◌==◌, nat_eq,
  string_eq, if◌then◌else◌, Failure, application, unexpected, Result,
}
use palmagent.Routines.Types.{Routine, RoutineRun, ScriptResult}

-- A script that runs, by the number of its run; and a result that is not yet stored.
pub record Tracked : Type 0 where
  pub run_id : ℕ
  pub routine_id : String

pub record Completed : Type 0 where
  pub run_id : ℕ
  pub routine_id : String
  pub result : ScriptResult

pub record Scheduler : Type 0 where
  pub routines : List Routine
  pub runs : List RoutineRun
  pub last_run_id : ℕ
  pub scripts : List Tracked
  pub results : List Completed
  pub stopping : Bool

pub record Outside : Type 0 where
  pub updating : Bool
  pub independent_scripts : Bool
  pub next : String → ℕ → Result (Option ℕ)
  pub create_task : Routine → Result String
  pub has_repo : String → Bool
  pub prepare : Routine → ℕ → Result (Option String)
  pub launch : Routine → ℕ → Result (Unit {0})
  -- Whether the storage takes the result of a run now.
  pub persists : ℕ → Bool
  pub clock : ℕ

abbrev pub error_text : Failure → String
error_text (application c text) = text
error_text (unexpected text) = text

unfoldable pub update_routine : Routine → Scheduler → Scheduler
update_routine r s = record s { routines = modify (λ q. q.id == r.id) (λ _. r) s.routines }

-- `insertRoutineRun`: the new run has the next number.
unfoldable pub insert_run : (ℕ → RoutineRun) → Scheduler → Scheduler
insert_run run s = record s {
  runs = run (suc s.last_run_id) ∷ s.runs;
  last_run_id = suc s.last_run_id;
}

abbrev pub with_result : ScriptResult → RoutineRun → RoutineRun
with_result result run = record run {
  status = result.status;
  note = result.note;
  finished_at = result.finished_at;
  exit_code = result.exit_code;
  output = result.output;
  worktree_path = result.worktree_path;
}

-- `finishRoutineRun`
unfoldable pub finish_run : ℕ → ScriptResult → Scheduler → Scheduler
finish_run run_id result s = record s {
  runs = modify (λ q. q.id == run_id) (with_result result) s.runs;
}

unfoldable pub has_pending_script : String → Scheduler → Bool
has_pending_script routine_id s =
    any (λ t. t.routine_id == routine_id) s.scripts
    || any (λ c. c.routine_id == routine_id) s.results

module _ (o : Outside) where
  -- The loop of `persistResults`: a result that the storage refuses stays for the next attempt.
  unfoldable pub persist_each : List Completed → Scheduler → Scheduler
  unfolding finish_run
  persist_each [] s = s
  persist_each (c ∷ cs) s = persist_each cs (
      if o.persists c.run_id
      then (let t = finish_run c.run_id c.result s in
          record t { results = keep (λ d. not (d.run_id == c.run_id)) t.results })
      else s)

  unfoldable pub persist_results : Scheduler → Scheduler
  unfolding persist_each
  persist_results s = persist_each s.results s

  -- `results.set(runId, ...)` replaces an entry of the same run.
  unfoldable pub complete_script : ℕ → String → ScriptResult → Scheduler → Scheduler
  unfolding persist_results
  complete_script run_id routine_id result s = persist_results (record s {
    scripts = keep (λ t. not (t.run_id == run_id)) s.scripts;
    results =
        keep (λ c. not (c.run_id == run_id)) s.results
        ++ record { run_id = run_id; routine_id = routine_id; result = result } ∷ [];
  })

  unfoldable pub track : ℕ → String → Scheduler → Scheduler
  track run_id routine_id s = record s {
    scripts = s.scripts ++ record { run_id = run_id; routine_id = routine_id } ∷ [];
  }
