-- ===== src/Routines/CatchUp.antt =====
-- What was missed while the server was down: `start` of apps/server/src/modules/routines/application/
-- use-cases/routine-service.ts.
use palmagent.Common.{
  ℕ, String, Bool, true, false, ◌&&◌, ◌||◌, not, Option, none, some, List, [], ◌∷◌, is_none, leb,
  ◌==◌, nat_eq, string_eq, if◌then◌else◌, Result, ok, ◌>>=◌, checked,
}
use palmagent.Routines.Scheduler.{Scheduler, Outside, update_routine, insert_run}
use palmagent.Routines.Types.{Routine, RoutineRun, skipped, is_script, is_manual}

module _ (o : Outside) where
  abbrev pub ignored_at_start : Routine → Bool
  ignored_at_start r =
      (o.independent_scripts && is_script r.kind)
      || not r.enabled
      || is_manual r.preset
      || r.schedule == ""

  abbrev pub is_due : ℕ → Routine → Bool
  is_due now r = elim r.next_run_at [ none ↦ false | some t ↦ leb t now ]

  abbrev pub missed_run : String → ℕ → ℕ → RoutineRun
  missed_run routine_id now number = record {
    id = number;
    routine_id = routine_id;
    fired_at = now;
    status = skipped;
    finished_at = none;
    exit_code = none;
    output = none;
    worktree_path = none;
    task_id = none;
    missed_while_down = true;
    note = some "missed while the server was down";
  }

  unfoldable pub reschedule : Routine → ℕ → Option ℕ → Scheduler → Scheduler
  unfolding update_routine insert_run
  reschedule r now next s =
      let moved = update_routine (record r { next_run_at = next; updated_at = now }) s in
      if is_due now r then insert_run (missed_run r.id now) moved else moved

  unfoldable pub revisit : ℕ → Routine → Scheduler → Result Scheduler
  unfolding reschedule
  revisit now r s =
      if not (ignored_at_start r) && (is_none r.next_run_at || is_due now r)
      then (do next ← o.next r.schedule now; ok (reschedule r now next s))
      else ok s

  -- The loop of `start`: what was missed while the server was down is recorded and not run.
  unfoldable pub catch_up : ℕ → List Routine → Scheduler → Result (Unit {0}) × Scheduler
  unfolding revisit
  catch_up now [] s = (ok tt, s)
  catch_up now (r ∷ rs) s = checked (revisit now r s) s (λ t. catch_up now rs t)
