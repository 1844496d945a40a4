-- ===== src/Routines/Service.antt =====
-- Firing: apps/server/src/modules/routines/application/use-cases/routine-service.ts.
use palmagent.Common.{
  ℕ, String, Bool, true, false, ◌&&◌, ◌||◌, not, Option, none, some, List, [], ◌∷◌, length, is_none,
  ltb, leb, ◌==◌, nat_eq, string_eq, if◌then◌else◌, Failure, application, unexpected,
  service_unavailable, conflict, Result, ok, err, ◌>>◌, refuse_if, checked,
}
use palmagent.Routines.Types.{
  Routine, RoutineRun, RunStatus, fired, manual_run, skipped, running, failed, ScriptResult,
  script_concurrency, is_script,
}
use palmagent.Routines.Scheduler.{
  Scheduler, Outside, error_text, update_routine, insert_run, finish_run, has_pending_script,
  persist_results, complete_script, track,
}

module _ (o : Outside) where
  -- The next time of a scheduled fire; none without a schedule.
  abbrev pub next_time : Routine → ℕ → Result (Option ℕ)
  next_time r now = if r.schedule == "" then ok none else o.next r.schedule now

  abbrev pub planned : Bool → Routine → ℕ → Result (Option ℕ)
  planned by_hand r now = if by_hand then ok r.next_run_at else next_time r now

  abbrev pub plain_run : String → ℕ → RunStatus → Option String → Option String → ℕ → RoutineRun
  plain_run routine_id now status task_id note number = record {
    id = number;
    routine_id = routine_id;
    fired_at = now;
    status = status;
    finished_at = none;
    exit_code = none;
    output = none;
    worktree_path = none;
    task_id = task_id;
    missed_while_down = false;
    note = note;
  }

  unfoldable pub is_full : Routine → Scheduler → Bool
  unfolding has_pending_script
  is_full r s = has_pending_script r.id s || leb script_concurrency (length s.scripts)

  abbrev pub script_failure : Failure → Option String → ScriptResult
  script_failure e worktree = record {
    status = failed;
    note = some (error_text e);
    finished_at = some o.clock;
    exit_code = none;
    output = none;
    worktree_path = worktree;
  }

  abbrev pub started : Option String → ScriptResult
  started worktree = record {
    status = running;
    note = none;
    finished_at = none;
    exit_code = none;
    output = none;
    worktree_path = worktree;
  }

  -- The worktree is recorded before the process starts.
  unfoldable pub start_prepared :
      Routine → ℕ → Option String → Result (Unit {0}) → Scheduler → Scheduler
  unfolding finish_run track complete_script
  start_prepared r run_id worktree (ok _) s =
      track o run_id r.id (finish_run run_id (started worktree) s)
  start_prepared r run_id worktree (err e) s =
      complete_script o run_id r.id (script_failure e worktree)
        (finish_run run_id (started worktree) s)

  unfoldable pub start_script : Routine → ℕ → Result (Option String) → Scheduler → Scheduler
  unfolding start_prepared complete_script
  start_script r run_id (ok worktree) s = start_prepared r run_id worktree (o.launch r run_id) s
  start_script r run_id (err e) s = complete_script o run_id r.id (script_failure e none) s

  abbrev pub prepared : Routine → ℕ → Result (Option String)
  prepared r run_id =
      if not (o.has_repo r.repo_id) || is_none r.script
      then err (unexpected "Script or space no longer exists")
      else o.prepare r run_id

  -- The update and the run are one transaction, made before any process can run.
  unfoldable pub admit_script : Routine → ℕ → Bool → Bool → Option ℕ → Scheduler → Scheduler
  unfolding update_routine insert_run
  admit_script r now by_hand full next s =
      insert_run
        (plain_run r.id now (if full then skipped else running) none (
          some (
            if full
            then "script already running or script capacity reached"
            else if by_hand
            then "manual"
            else "scheduled")))
        (update_routine (record r { last_run_at = some now; updated_at = now; next_run_at = next })
          s)

  unfoldable pub run_script : Routine → ℕ → Bool → Bool → Option ℕ → Scheduler → Scheduler
  unfolding admit_script start_script
  run_script r now by_hand full next s =
      let admitted = admit_script r now by_hand full next s in
      if full
      then admitted
      else start_script r admitted.last_run_id (prepared r admitted.last_run_id) admitted

  unfoldable pub script_checks : Routine → Bool → Scheduler → Result (Unit {0})
  unfolding is_full
  script_checks r by_hand s = do
    refuse_if (s.stopping || o.updating) (application service_unavailable "Palmagent is restarting")
    refuse_if (is_full r s && by_hand)
        (application conflict "A script is already running or all 4 script slots are busy")

  unfoldable pub fire_script : Routine → ℕ → Bool → Scheduler → Result (Unit {0}) × Scheduler
  unfolding script_checks run_script is_full
  fire_script r now by_hand s =
      checked (do script_checks r by_hand s; planned by_hand r now) s
        (λ next. (ok tt, run_script r now by_hand (is_full r s) next s))

  abbrev pub task_of : Result String → Option String
  task_of (ok id) = some id
  task_of (err e) = none

  abbrev pub note_of : Result String → Option String
  note_of (ok id) = none
  note_of (err e) = some (error_text e)

  -- A fire that fails to create its task is recorded too. The run is inserted before the next time
  -- is computed.
  unfoldable pub fire_agent : Routine → ℕ → Bool → Scheduler → Result (Unit {0}) × Scheduler
  unfolding update_routine insert_run
  fire_agent r now by_hand s =
      let task = o.create_task r in
      let logged =
        insert_run
          (plain_run r.id now (if by_hand then manual_run else fired) (task_of task) (note_of task))
          s in
      checked (planned by_hand r now) logged (λ next. (
        ok tt,
        update_routine (record r { last_run_at = some now; updated_at = now; next_run_at = next })
            logged,
      ))

  unfoldable pub fire : Routine → ℕ → Bool → Scheduler → Result (Unit {0}) × Scheduler
  unfolding fire_script fire_agent
  fire r now by_hand s =
      if is_script r.kind then fire_script r now by_hand s else fire_agent r now by_hand s

  abbrev pub skips : ℕ → Routine → Bool
  skips now r =
      (o.independent_scripts && is_script r.kind)
      || not r.enabled
      || (elim r.next_run_at [ none ↦ true | some t ↦ ltb now t ])

  unfoldable pub fire_next : Bool → Routine → ℕ → Scheduler → Result (Unit {0}) × Scheduler
  unfolding fire
  fire_next true r now s = (ok tt, s)
  fire_next false r now s = fire r now false s

  -- The loop of `tick` over the routines that were listed; an exception ends it.
  unfoldable pub fire_due : ℕ → List Routine → Scheduler → Result (Unit {0}) × Scheduler
  unfolding fire_next
  fire_due now [] s = (ok tt, s)
  fire_due now (r ∷ rs) s =
      let done = fire_next (skips now r) r now s in
      checked done.0 done.1 (λ _. fire_due now rs done.1)

  unfoldable pub tick : ℕ → Scheduler → Result (Unit {0}) × Scheduler
  unfolding persist_results fire_due
  tick now s =
      let t = persist_results o s in if o.updating then (ok tt, t) else fire_due now t.routines t
