-- ===== src/Routines/Scripts.antt =====
-- Scripts of routine-service.ts: at most four run, a routine runs one at a time, and a result is
-- kept until it is stored.
use mathlib.Core.Path.{subst}
use palmagent.Common.{
  ℕ, ◌+◌, ◌≤◌, ◌<◌, String, ◌≡◌, refl, inl, inr, Bool, true, false, not, Option, none, some, List,
  [], ◌∷◌, ◌++◌, keep, count, length, ◌==◌, nat_eq, string_eq, if◌then◌else◌, arith, Bool-cases,
  eq_iff, Result, ok, err, ◌>>◌, checked-keeps, count-append, count-eq-zero, count-keep-le,
  if-keeps,
}
use palmagent.Routines.Types.{
  Routine, ScriptResult, fired, manual_run, script_concurrency, is_script,
}
use palmagent.Routines.Service.{
  is_full, start_prepared, start_script, admit_script, run_script, prepared, planned, fire_script,
  fire_agent, fire, script_checks, fire_due, fire_next, plain_run, task_of, note_of, tick, skips,
  started, script_failure,
}
use palmagent.Routines.Scheduler.{
  Tracked, Completed, Scheduler, Outside, update_routine, insert_run, finish_run,
  has_pending_script, persist_each, persist_results, complete_script, track,
}

abbrev pub runs_for : String → Tracked → Bool
runs_for routine_id t = t.routine_id == routine_id

-- At most four scripts run, and none of a routine that runs already.
pub record IsExclusive (s : Scheduler) : Type 0 where
  pub slots : length s.scripts ≤ script_concurrency
  pub single : (routine_id : String) → count (runs_for routine_id) s.scripts ≤ 1

length-append : (xs ys : List Tracked) → length (xs ++ ys) ≡ length xs + length ys
length-append [] ys = omega arith
length-append (x ∷ xs) ys = omega (arith, length-append xs ys)

length-keep-le : (p : Tracked → Bool) (xs : List Tracked) → length (keep p xs) ≤ length xs
length-keep-le p [] = omega arith
length-keep-le p (x ∷ xs) = ground (arith, length-keep-le p xs)

module _ (o : Outside) where
  scripts-persist_each :
      (cs : List Completed) (s : Scheduler) → (persist_each o cs s).scripts ≡ s.scripts
  unfolding persist_each finish_run
  scripts-persist_each [] s = refl
  scripts-persist_each (c ∷ cs) s = elim (Bool-cases (o.persists c.run_id)) [
    | inl y ↦ rw (y, persist_each) (scripts-persist_each cs _)
    | inr n ↦ rw (n, persist_each) (scripts-persist_each cs s)
  ]

  persist_results-IsExclusive : (s : Scheduler) → IsExclusive s → IsExclusive (persist_results o s)
  unfolding persist_results
  persist_results-IsExclusive s h = record {
    slots = rw (scripts-persist_each s.results s) h.slots;
    single = λ k. rw (scripts-persist_each s.results s) (h.single k);
  }

  complete_script-IsExclusive :
      (run_id : ℕ) (k : String) (r : ScriptResult) (s : Scheduler)
      → IsExclusive s
      → IsExclusive (complete_script o run_id k r s)
  unfolding complete_script
  complete_script-IsExclusive run_id k r s h =
      let v : Scheduler = record s {
        scripts = keep (λ t. not (t.run_id == run_id)) s.scripts;
        results =
            keep (λ c. not (c.run_id == run_id)) s.results
            ++ record { run_id = run_id; routine_id = k; result = r } ∷ [];
      } in
      persist_results-IsExclusive v (record {
        slots = omega (arith, h.slots, length-keep-le (λ t. not (t.run_id == run_id)) s.scripts);
        single = λ j. omega (
          arith,
          h.single j,
          count-keep-le (runs_for j) (λ t. not (t.run_id == run_id)) s.scripts,
        );
      })

  finish_run-IsExclusive :
      (run_id : ℕ) (r : ScriptResult) (s : Scheduler)
      → IsExclusive s
      → IsExclusive (finish_run run_id r s)
  unfolding finish_run
  finish_run-IsExclusive run_id r s h = record { slots = h.slots; single = h.single }

  -- A routine that is not full leaves a slot, and has none itself.
  record HasRoom (k : String) (s : Scheduler) : Type 0 where
    slot : length s.scripts < script_concurrency
    idle : count (runs_for k) s.scripts ≡ 0

  is_full-HasRoom : (r : Routine) (s : Scheduler) → is_full o r s ≡ false → HasRoom r.id s
  unfolding is_full has_pending_script
  is_full-HasRoom r s h = record {
    slot = ground arith;
    idle = count-eq-zero (runs_for r.id) s.scripts (ground arith);
  }

  count-other :
      (j : String) (t : Tracked) (xs : List Tracked)
      → (t.routine_id == j) ≡ false
      → count (runs_for j) (xs ++ t ∷ []) ≡ count (runs_for j) xs
  count-other j t [] h = ground arith
  count-other j t (x ∷ xs) h = ground (arith, count-other j t xs)

  track-IsExclusive :
      (run_id : ℕ) (k : String) (s : Scheduler)
      → HasRoom k s
      → IsExclusive s
      → IsExclusive (track o run_id k s)
  unfolding track
  track-IsExclusive run_id k s room h =
      let new : Tracked = record { run_id = run_id; routine_id = k } in
      record {
        slots = omega (arith, room.slot, length-append s.scripts (new ∷ []));
        single = λ j. elim (Bool-cases (k == j)) [
          | inl same ↦
              let e : k ≡ j = (eq_iff k j).0 same in
              subst (λ q. count (runs_for q) (s.scripts ++ new ∷ []) ≤ 1) e
                (omega (
                  arith,
                  room.idle,
                  count-append (runs_for k) s.scripts (new ∷ []),
                  count-one k new,
                ))
          | inr other ↦ omega (arith, h.single j, count-other j new s.scripts other)
        ];
      }
    where
      count-one : (k : String) (t : Tracked) → count (runs_for k) (t ∷ []) ≤ 1
      count-one k t = ground arith

  finish_run-HasRoom :
      (run_id : ℕ) (r : ScriptResult) (k : String) (s : Scheduler)
      → HasRoom k s
      → HasRoom k (finish_run run_id r s)
  unfolding finish_run
  finish_run-HasRoom run_id r k s room = record { slot = room.slot; idle = room.idle }

  start_prepared-IsExclusive :
      (r : Routine) (run_id : ℕ) (w : Option String) (c : Result (Unit {0})) (s : Scheduler)
      → HasRoom r.id s
      → IsExclusive s
      → IsExclusive (start_prepared o r run_id w c s)
  unfolding start_prepared
  start_prepared-IsExclusive r run_id w (ok _) s room h =
      track-IsExclusive run_id r.id (finish_run run_id (started o w) s)
        (finish_run-HasRoom run_id (started o w) r.id s room)
        (finish_run-IsExclusive run_id (started o w) s h)
  start_prepared-IsExclusive r run_id w (err e) s room h =
      complete_script-IsExclusive run_id r.id (script_failure o e w)
        (finish_run run_id (started o w) s) (finish_run-IsExclusive run_id (started o w) s h)

  start_script-IsExclusive :
      (r : Routine) (run_id : ℕ) (c : Result (Option String)) (s : Scheduler)
      → HasRoom r.id s
      → IsExclusive s
      → IsExclusive (start_script o r run_id c s)
  unfolding start_script
  start_script-IsExclusive r run_id (err e) s room h =
      complete_script-IsExclusive run_id r.id (script_failure o e none) s h
  start_script-IsExclusive r run_id (ok w) s room h =
      start_prepared-IsExclusive r run_id w (o.launch r run_id) s room h

  admit_script-IsExclusive :
      (r : Routine) (now : ℕ) (by_hand full : Bool) (next : Option ℕ) (s : Scheduler)
      → IsExclusive s
      → IsExclusive (admit_script o r now by_hand full next s)
  unfolding admit_script update_routine insert_run
  admit_script-IsExclusive r now by_hand full next s h = record {
    slots = h.slots;
    single = h.single;
  }

  admit_script-HasRoom :
      (r : Routine) (now : ℕ) (by_hand full : Bool) (next : Option ℕ) (s : Scheduler)
      → HasRoom r.id s
      → HasRoom r.id (admit_script o r now by_hand full next s)
  unfolding admit_script update_routine insert_run
  admit_script-HasRoom r now by_hand full next s room = record {
    slot = room.slot;
    idle = room.idle;
  }

  run_script-IsExclusive :
      (r : Routine) (now : ℕ) (by_hand full : Bool) (next : Option ℕ) (s : Scheduler)
      → is_full o r s ≡ full
      → IsExclusive s
      → IsExclusive (run_script o r now by_hand full next s)
  unfolding run_script
  run_script-IsExclusive r now by_hand true next s e h =
      admit_script-IsExclusive r now by_hand true next s h
  run_script-IsExclusive r now by_hand false next s e h =
      let admitted : Scheduler = admit_script o r now by_hand false next s in
      start_script-IsExclusive r admitted.last_run_id (prepared o r admitted.last_run_id) admitted
        (admit_script-HasRoom r now by_hand false next s (is_full-HasRoom r s e))
        (admit_script-IsExclusive r now by_hand false next s h)

  fire_script-IsExclusive :
      (r : Routine) (now : ℕ) (by_hand : Bool) (s : Scheduler)
      → IsExclusive s
      → IsExclusive (fire_script o r now by_hand s).1
  unfolding fire_script
  fire_script-IsExclusive r now by_hand s h =
      checked-keeps {A = Unit {0}} {B = Option ℕ} IsExclusive
        (do script_checks o r by_hand s; planned o by_hand r now) s
        (λ next. (ok tt, run_script o r now by_hand (is_full o r s) next s)) h
        (λ next e. run_script-IsExclusive r now by_hand (is_full o r s) next s refl h)

  fire_agent-IsExclusive :
      (r : Routine) (now : ℕ) (by_hand : Bool) (s : Scheduler)
      → IsExclusive s
      → IsExclusive (fire_agent o r now by_hand s).1
  unfolding fire_agent update_routine insert_run
  fire_agent-IsExclusive r now by_hand s h =
      let logged : Scheduler =
        insert_run
          (plain_run o r.id now (if by_hand then manual_run else fired)
            (task_of o (o.create_task r)) (note_of o (o.create_task r)))
          s in
      checked-keeps {A = Unit {0}} {B = Option ℕ} IsExclusive (planned o by_hand r now) logged
        (λ next. (
          ok tt,
          update_routine (record r { last_run_at = some now; updated_at = now; next_run_at = next })
              logged,
        ))
        (record { slots = h.slots; single = h.single })
        (λ next e. record { slots = h.slots; single = h.single })

  pub fire-IsExclusive :
      (r : Routine) (now : ℕ) (by_hand : Bool) (s : Scheduler)
      → IsExclusive s
      → IsExclusive (fire o r now by_hand s).1
  unfolding fire
  fire-IsExclusive r now by_hand s h = elim (Bool-cases (is_script r.kind)) [
    | inl y ↦ rw y (fire_script-IsExclusive r now by_hand s h)
    | inr n ↦ rw n (fire_agent-IsExclusive r now by_hand s h)
  ]

  fire_next-IsExclusive :
      (b : Bool) (r : Routine) (now : ℕ) (s : Scheduler)
      → IsExclusive s
      → IsExclusive (fire_next o b r now s).1
  unfolding fire_next
  fire_next-IsExclusive true r now s h = h
  fire_next-IsExclusive false r now s h = fire-IsExclusive r now false s h

  fire_due-IsExclusive :
      (now : ℕ) (rs : List Routine) (s : Scheduler)
      → IsExclusive s
      → IsExclusive (fire_due o now rs s).1
  unfolding fire_due
  fire_due-IsExclusive now [] s h = h
  fire_due-IsExclusive now (r ∷ rs) s h =
      let t : Scheduler = (fire_next o (skips o now r) r now s).1 in
      checked-keeps {A = Unit {0}} {B = Unit {0}} IsExclusive
        (fire_next o (skips o now r) r now s).0 t (λ _. fire_due o now rs t)
        (fire_next-IsExclusive (skips o now r) r now s h)
        (λ _ e. fire_due-IsExclusive now rs t (fire_next-IsExclusive (skips o now r) r now s h))

  -- Whatever storage, tasks and processes answer, and whichever routines are due: a tick keeps at
  -- most four scripts running, and no two of one routine.
  pub tick-IsExclusive : (now : ℕ) (s : Scheduler) → IsExclusive s → IsExclusive (tick o now s).1
  unfolding tick
  tick-IsExclusive now s h =
      let t : Scheduler = persist_results o s in
      if-keeps {A = Result (Unit {0}) × Scheduler} (λ q. IsExclusive q.1) o.updating (ok tt, t)
        (fire_due o now t.routines t) (persist_results-IsExclusive s h)
        (fire_due-IsExclusive now t.routines t (persist_results-IsExclusive s h))
