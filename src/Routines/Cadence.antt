-- ===== src/Routines/Cadence.antt =====
-- After every change of a routine its next time fits its cadence: `update` of routine-service.ts.
use mathlib.Core.Path.{subst}
use palmagent.Common.{
  ℕ, String, ◌≡◌, refl, sym, ap, inl, inr, Bool, true, false, ◌&&◌, not, Option, none, some, List,
  ◌==◌, string_eq, option_eq, is_some, if◌then◌else◌, Failure, application, bad_request, Result, ok,
  err, ◌>>=◌, ◌>>◌, refuse_if, checked, Bool-cases,
}
use palmagent.Routines.Types.{Routine, is_manual, is_script}
use palmagent.Routines.Scheduler.{Scheduler, Outside, update_routine}
use palmagent.Routines.Requests.{
  UpdateRoutineRequest, rescheduled, recompiled, apply_patch, patched_script, finish_patch,
  agent_settings, move_cadence, patch_routine, edit_routine, get_routine,
}

-- Whether the scheduler may fire the routine by itself.
abbrev pub is_timed : Routine → Bool
is_timed r = r.enabled && not (is_manual r.preset) && not (r.schedule == "")

module _ (o : Outside) (spell : List ℕ → String) where
  -- The next time is that of the expression from `now` on, and none for a routine that is disabled or
  -- manual or has no expression.
  abbrev pub IsTimed : ℕ → Routine → Type 0
  IsTimed now r = (if is_timed r then o.next r.schedule now else ok none) ≡ ok r.next_run_at

  abbrev pub Timed : ℕ → Result Routine → Type 0
  Timed now (ok q) = IsTimed now q
  Timed now (err e) = Unit

  next-Timed :
      (now : ℕ) (r : Routine) (c : Result (Option ℕ))
      → is_timed r ≡ true
      → o.next r.schedule now ≡ c
      → Timed now (c >>= λ next. ok (record r { next_run_at = next; updated_at = now }))
  next-Timed now r (ok next) y e = rw y e
  next-Timed now r (err e) y h = tt

  rescheduled-Timed : (now : ℕ) (r : Routine) → Timed now (rescheduled o spell now r)
  unfolding rescheduled
  rescheduled-Timed now r = elim (Bool-cases (is_timed r)) [
    | inl y ↦ rw y (next-Timed now r (o.next r.schedule now) y refl)
    | inr n ↦ rw n (rw n refl)
  ]

  ok_err : {e : Failure} {q : Routine} → ◌≡◌ {A = Result Routine} (err e) (ok q) → ⊥
  ok_err h = cc

  bind-Timed :
      {A : Type 0} (now : ℕ) (m : Result A) (k : A → Result Routine)
      → ((a : A) → Timed now (k a))
      → Timed now (m >>= k)
  bind-Timed now (ok a) k step = step a
  bind-Timed now (err e) k step = tt

  refuse-Timed :
      (now : ℕ) (b : Bool) (e : Failure) (m : Result Routine)
      → Timed now m
      → Timed now (refuse_if b e >> m)
  refuse-Timed now true e m h = tt
  refuse-Timed now false e m h = h

  finish_patch-Timed :
      (now : ℕ) (req : UpdateRoutineRequest) (r : Routine)
      → Timed now (finish_patch o spell now req r)
  finish_patch-Timed now req r =
      refuse-Timed now (req.prompt == some "") (application bad_request "prompt cannot be empty")
        (rescheduled o spell now (apply_patch o spell req r))
        (rescheduled-Timed now (apply_patch o spell req r))

  move_cadence-Timed :
      (now : ℕ) (req : UpdateRoutineRequest) (r : Routine)
      → Timed now (move_cadence o spell now req r)
  move_cadence-Timed now req r =
      bind-Timed {A = Routine} now
        (recompiled o spell now req (record r { script = patched_script req.script r.script }))
        (λ moved. finish_patch o spell now req moved) (λ moved. finish_patch-Timed now req moved)

  patch_routine-Timed :
      (now : ℕ) (req : UpdateRoutineRequest) (r : Routine)
      → Timed now (patch_routine o spell now req r)
  unfolding patch_routine
  patch_routine-Timed now req r =
      refuse-Timed now (is_script r.kind && agent_settings o spell req)
        (application bad_request "Script routines do not accept agent settings")
        (refuse_if (is_some req.script && not (is_script r.kind))
            (application bad_request "Only script routines accept script settings")
          >> move_cadence o spell now req r)
        (refuse-Timed now (is_some req.script && not (is_script r.kind))
          (application bad_request "Only script routines accept script settings")
          (move_cadence o spell now req r) (move_cadence-Timed now req r))

  -- An update that succeeds stores the routine that it answers, whose next time is that of its
  -- expression from now on, or none where the routine is disabled, manual or without an expression.
  pub edit_routine-IsTimed :
      (id : String) (now : ℕ) (parsed : Result UpdateRoutineRequest) (s t : Scheduler) {r : Routine}
      → edit_routine o spell id now parsed s ≡ (ok r, t)
      → IsTimed now r × (t ≡ update_routine r s)
  unfolding edit_routine
  edit_routine-IsTimed id now parsed s t {r} h =
      go (do r ← get_routine id s; req ← parsed; patch_routine o spell now req r)
        (bind-Timed {A = Routine} now (get_routine id s)
          (λ r. do req ← parsed; patch_routine o spell now req r)
          (λ r.
            bind-Timed {A = UpdateRoutineRequest} now parsed
              (λ req. patch_routine o spell now req r) (λ req. patch_routine-Timed now req r)))
        h
    where
      go :
          (c : Result Routine)
          → Timed now c
          → checked c s (λ r. (ok r, update_routine r s)) ≡ (ok r, t)
          → IsTimed now r × (t ≡ update_routine r s)
      go (ok q) timed e =
          let same : q ≡ r = cc in
          subst (λ x. IsTimed now x × (t ≡ update_routine x s)) same
            (timed, sym (ap (λ (x : Result Routine × Scheduler). x.1) e))
      go (err x) timed e = absurd (ok_err (ap (λ (y : Result Routine × Scheduler). y.0) e))
