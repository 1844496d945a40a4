-- ===== src/Routines/Requests.antt =====
-- Creating, changing, running and removing routines: the requests of
-- apps/server/src/modules/routines/application/use-cases/routine-service.ts, over the rows of
-- apps/server/src/modules/routines/adapters/outbound/sqlite-routines.ts. A request comes with what its
-- schema made of it. `spell` makes a string of character codes.
use palmagent.Common.{
  codes, ℕ, zero, suc, String, Bool, true, false, ◌&&◌, ◌||◌, not, Option, none, some, List, [],
  ◌∷◌, ◌++◌, keep, find, is_some, or_else, or_option, leb, ◌==◌, string_eq, option_eq,
  if◌then◌else◌, application, bad_request, not_found, conflict, Result, ok, err, ◌>>=◌, ◌>>◌,
  refuse_if, checked,
}
use palmagent.Routines.Cron.{
  RoutinePreset, hourly, daily, weekly, weekdays, manual, custom, Number, integer, is_space, number,
  preset_to_cron, parse_cron, Parsed, good, bad, CronSpec,
}
use palmagent.Routines.Types.{
  AgentKind, claude, RoutineKind, agent, RoutineScript, Routine, default_timeout_seconds, is_script,
  is_manual, default_permission,
}
use palmagent.Routines.Service.{fire}
use palmagent.Routines.Scheduler.{Scheduler, Outside, update_routine, has_pending_script}

pub record CreateRoutineRequest : Type 0 where
  pub repo_id : String
  pub agent : Option AgentKind
  pub prompt : Option String
  pub kind : Option RoutineKind
  pub script : Option RoutineScript
  pub preset : Option RoutinePreset
  pub schedule : Option String
  pub hour : Option Number
  pub day_of_week : Option Number
  pub permission : Option String
  pub model : Option String
  pub effort : Option String
  pub title : Option String
  pub enabled : Option Bool

pub record UpdateRoutineRequest : Type 0 where
  pub script : Option RoutineScript
  pub prompt : Option String
  pub preset : Option RoutinePreset
  pub schedule : Option String
  pub hour : Option Number
  pub day_of_week : Option Number
  pub permission : Option String
  pub model : Option String
  pub effort : Option String
  pub title : Option String
  pub enabled : Option Bool

-- `value || undefined`
abbrev pub nonempty : String → Option String
nonempty text = if text == "" then none else some text

-- `if (value !== undefined) field = value || undefined`
abbrev pub patched : Option String → Option String → Option String
patched none old = old
patched (some text) old = nonempty text

-- The rows, in the order of their creation; of two of one time the older row is first.
unfoldable pub insert_by_age : Routine → List Routine → List Routine
insert_by_age r [] = r ∷ []
insert_by_age r (q ∷ qs) =
    let rest = insert_by_age r qs in if leb q.created_at r.created_at then q ∷ rest else r ∷ q ∷ qs

unfoldable pub insert_routine : Routine → Scheduler → Scheduler
unfolding insert_by_age
insert_routine r s = record s { routines = insert_by_age r s.routines }

unfoldable pub delete_routine : String → Scheduler → Scheduler
delete_routine id s = record s {
  runs = keep (λ q. not (q.routine_id == id)) s.runs;
  routines = keep (λ r. not (r.id == id)) s.routines;
}

abbrev pub existing : Option Routine → Result Routine
existing none = err (application not_found "no such routine")
existing (some r) = ok r

unfoldable pub get_routine : String → Scheduler → Result Routine
get_routine id s = existing (find (λ r. r.id == id) s.routines)

-- `text.split(/\s+/)`, which keeps an empty word before a leading and after a trailing separator.
-- The flag tells that a separator is being read.
unfoldable pub fields_from : Bool → List ℕ → List ℕ → List (List ℕ)
fields_from after word [] = word ∷ []
fields_from true word (c ∷ cs) = elim (is_space c) [
  | true ↦ fields_from true word cs
  | false ↦ fields_from false (word ++ c ∷ []) cs
]
fields_from false word (c ∷ cs) = elim (is_space c) [
  | true ↦ word ∷ fields_from true [] cs
  | false ↦ fields_from false (word ++ c ∷ []) cs
]

abbrev pub numeric : Option ℕ → Option Number
numeric none = none
numeric (some n) = some (integer n)

-- `fields[index]`, when it is a number.
abbrev pub existing_number : ℕ → List (List ℕ) → Option Number
existing_number n [] = none
existing_number zero (f ∷ fs) = numeric (number f)
existing_number (suc n) (f ∷ fs) = existing_number n fs

abbrev pub parsed_text : String → Parsed CronSpec → Result String
parsed_text text (good spec) = ok text
parsed_text text (bad e) = err (application bad_request "invalid cron")

unfoldable pub validate_cron : Option String → Result String
unfolding parse_cron
validate_cron none = err (application bad_request "schedule (cron) is required")
validate_cron (some text) =
    if text == ""
    then err (application bad_request "schedule (cron) is required")
    else parsed_text text (parse_cron (codes text))

-- A script with a time limit: its own, the one that stands, or the default one.
abbrev pub limited : Option ℕ → RoutineScript → RoutineScript
limited old c = record c {
  timeout_seconds = some (or_else (or_option c.timeout_seconds old) default_timeout_seconds);
}

abbrev pub limited_script : Option RoutineScript → Option RoutineScript
limited_script none = none
limited_script (some c) = some (limited none c)

abbrev pub timeout_of : Option RoutineScript → Option ℕ
timeout_of none = none
timeout_of (some c) = c.timeout_seconds

abbrev pub patched_script : Option RoutineScript → Option RoutineScript → Option RoutineScript
patched_script none old = old
patched_script (some c) old = some (limited (timeout_of old) c)

module _ (o : Outside) (spell : List ℕ → String) where
  abbrev pub timed : ℕ → String → Result (String × Option ℕ)
  timed now text = do next ← o.next text now; ok (text, next)

  abbrev pub compiled : ℕ → Option (List ℕ) → Result (String × Option ℕ)
  compiled now none = err (application bad_request "unknown preset")
  compiled now (some cron) = timed now (spell cron)

  -- A cadence as its stored expression, with the first time.
  unfoldable pub compile :
      RoutinePreset → Option String → Option Number → Option Number → ℕ → Result (String × Option ℕ)
  unfolding validate_cron preset_to_cron
  compile manual schedule hour day now = ok ("", none)
  compile custom schedule hour day now = do text ← validate_cron schedule; timed now text
  compile hourly schedule hour day now = compiled now (preset_to_cron hourly hour day)
  compile daily schedule hour day now = compiled now (preset_to_cron daily hour day)
  compile weekly schedule hour day now = compiled now (preset_to_cron weekly hour day)
  compile weekdays schedule hour day now = compiled now (preset_to_cron weekdays hour day)

  abbrev pub new_routine : String → ℕ → CreateRoutineRequest → String × Option ℕ → Routine
  new_routine id now req c = record {
    kind = or_else req.kind agent;
    script = limited_script req.script;
    id = id;
    repo_id = req.repo_id;
    agent = or_else req.agent claude;
    title = req.title;
    prompt = or_else req.prompt "";
    permission = or_else req.permission (default_permission (or_else req.agent claude));
    model = req.model;
    effort = req.effort;
    preset = or_else req.preset custom;
    schedule = c.0;
    enabled = or_else req.enabled true;
    last_run_at = none;
    next_run_at = if or_else req.enabled true then c.1 else none;
    created_at = now;
    updated_at = now;
  }

  unfoldable pub create_routine :
      String → ℕ → Result CreateRoutineRequest → Scheduler → Result Routine × Scheduler
  unfolding compile insert_routine
  create_routine id now parsed s =
      checked
        (do
          req ← parsed
          refuse_if (not (o.has_repo req.repo_id)) (application bad_request "no such repo")
          c ← compile (or_else req.preset custom) req.schedule req.hour req.day_of_week now
          ok (new_routine id now req c))
        s (λ r. (ok r, insert_routine r s))

  abbrev pub cadence_changed : UpdateRoutineRequest → Bool
  cadence_changed req =
      is_some req.preset || is_some req.schedule || is_some req.hour || is_some req.day_of_week

  -- The cadence of the patch, with the hour and the day of the stored expression where it has none.
  unfoldable pub recompiled : ℕ → UpdateRoutineRequest → Routine → Result Routine
  unfolding compile fields_from
  recompiled now req r =
      let fields = fields_from false [] (codes r.schedule) in
      let preset = or_else req.preset r.preset in
      if cadence_changed req
      then (do
        c ←
            compile preset (some (or_else req.schedule r.schedule))
              (or_option req.hour (existing_number 1 fields))
              (or_option req.day_of_week (existing_number 4 fields)) now
        ok (record r { preset = preset; schedule = c.0 }))
      else ok r

  abbrev pub apply_patch : UpdateRoutineRequest → Routine → Routine
  apply_patch req r = record r {
    prompt = or_else req.prompt r.prompt;
    title = patched req.title r.title;
    permission = or_else req.permission r.permission;
    model = patched req.model r.model;
    effort = patched req.effort r.effort;
    enabled = or_else req.enabled r.enabled;
  }

  -- A manual or disabled routine never fires.
  unfoldable pub rescheduled : ℕ → Routine → Result Routine
  rescheduled now r =
      if r.enabled && not (is_manual r.preset) && not (r.schedule == "")
      then (do next ← o.next r.schedule now; ok (record r { next_run_at = next; updated_at = now }))
      else ok (record r { next_run_at = none; updated_at = now })

  abbrev pub finish_patch : ℕ → UpdateRoutineRequest → Routine → Result Routine
  finish_patch now req moved = do
    refuse_if (req.prompt == some "") (application bad_request "prompt cannot be empty")
    rescheduled now (apply_patch req moved)

  abbrev pub agent_settings : UpdateRoutineRequest → Bool
  agent_settings req =
      is_some req.prompt || is_some req.permission || is_some req.model || is_some req.effort

  abbrev pub move_cadence : ℕ → UpdateRoutineRequest → Routine → Result Routine
  move_cadence now req r = do
    moved ← recompiled now req (record r { script = patched_script req.script r.script })
    finish_patch now req moved

  unfoldable pub patch_routine : ℕ → UpdateRoutineRequest → Routine → Result Routine
  unfolding recompiled rescheduled
  patch_routine now req r = do
    refuse_if (is_script r.kind && agent_settings req)
        (application bad_request "Script routines do not accept agent settings")
    refuse_if (is_some req.script && not (is_script r.kind))
        (application bad_request "Only script routines accept script settings")
    move_cadence now req r

  unfoldable pub edit_routine :
      String → ℕ → Result UpdateRoutineRequest → Scheduler → Result Routine × Scheduler
  unfolding get_routine patch_routine update_routine
  edit_routine id now parsed s =
      checked (do r ← get_routine id s; req ← parsed; patch_routine now req r) s
        (λ r. (ok r, update_routine r s))

  unfoldable pub remove_routine : String → Scheduler → Result Routine × Scheduler
  unfolding get_routine delete_routine has_pending_script
  remove_routine id s =
      checked
        (do
          refuse_if (has_pending_script id s)
              (application conflict "Wait for the running script before deleting this routine")
          get_routine id s)
        s (λ r. (ok r, delete_routine id s))

  abbrev pub reread : String → Result (Unit {0}) × Scheduler → Result Routine × Scheduler
  reread id (ok _, s) = (get_routine id s, s)
  reread id (err e, s) = (err e, s)

  unfoldable pub run_now : String → ℕ → Scheduler → Result Routine × Scheduler
  unfolding get_routine fire
  run_now id now s = checked (get_routine id s) s (λ r. reread id (fire o r now true s))
