-- ===== src/Tests/Routines.antt =====
-- A time zone, schedules and a scheduler of one script, and the theorems on schedule.ts and
-- routine-service.ts applied to them.
use palmagent.Common.{
  ℕ, ◌+◌, ◌-◌, ◌*◌, ◌/◌, ◌%◌, ltb, if◌then◌else◌, ◌≡◌, refl, true, false, none, some, [], ◌∷◌,
  arith, length, ok,
}
use palmagent.Routines.Cron.{integer, weekly, daily, CronSpec, preset_to_cron, hour_of, day_of}
use palmagent.Routines.Schedule.{Zone, horizon, next_run}
use palmagent.Routines.Schedule.Steady.{IsSteady, First, next_run-First}
use palmagent.Routines.Types.{Routine, claude, script}
use palmagent.Routines.Requests.{UpdateRoutineRequest, edit_routine}
use palmagent.Routines.Cadence.{IsTimed, edit_routine-IsTimed}
use palmagent.Routines.Service.{tick}
use palmagent.Routines.Scheduler.{update_routine, Outside, Scheduler}
use palmagent.Routines.Scripts.{IsExclusive, tick-IsExclusive}
use palmagent.Routines.Presets.{every_day, every_month, Compiles, preset_round_trip}

-- The Gregorian calendar, by the number of the day from the origin of wall times on: eras of 400
-- years, and years that begin in March.
abbrev day_of_era : ℕ → ℕ
day_of_era d = (d + 719461) % 146097

abbrev year_of_era : ℕ → ℕ
year_of_era d =
    (day_of_era d + day_of_era d / 36524 - day_of_era d / 1460 - day_of_era d / 146096) / 365

abbrev day_of_year : ℕ → ℕ
day_of_year d = day_of_era d + year_of_era d / 100 - 365 * year_of_era d - year_of_era d / 4

abbrev shifted_month : ℕ → ℕ
shifted_month d = (5 * day_of_year d + 2) / 153

abbrev month_of : ℕ → ℕ
month_of d = (shifted_month d + 2) % 12 + 1

abbrev date_of : ℕ → ℕ
date_of d = day_of_year d - (153 * shifted_month d + 2) / 5 + 1

-- 1 January 1970 and 29 February 2024.
dates : ((month_of 7 ≡ 1) × (date_of 7 ≡ 1)) × ((month_of 19789 ≡ 2) × (date_of 19789 ≡ 29))
dates = ((refl, refl), (refl, refl))

-- An hour east of Greenwich, all year; `week` is from the origin of wall times to the epoch.
abbrev week : ℕ
week = 604800000

abbrev zone : Zone
zone = record {
  local = λ t. t + (week + 3600000);
  utc = λ w. w - (week + 3600000);
  month_of = month_of;
  date_of = date_of;
}

zone-IsSteady : IsSteady zone 0 100000000000
zone-IsSteady = record { shown = λ t k p q. omega arith; read = λ t p q. omega arith }

-- The clock is set back from 2:00 to 1:00 in the night to 2 January 1970, at 1:00 of `t`: the hour
-- from 1:00 to 2:00 occurs twice.
abbrev set_back : ℕ
set_back = 86400000 + 3600000

abbrev back_zone : Zone
back_zone = record {
  local = λ t. if ltb t set_back then t + (week + 3600000) else t + week;
  utc = λ w. if ltb w (set_back + week + 3600000) then w - (week + 3600000) else w - week;
  month_of = month_of;
  date_of = date_of;
}

abbrev at_one_thirty_one : CronSpec
at_one_thirty_one = record {
  minute = 31 ∷ [];
  hour = 1 ∷ [];
  dom = every_day;
  month = every_month;
  dow = 0 ∷ 1 ∷ 2 ∷ 3 ∷ 4 ∷ 5 ∷ 6 ∷ [];
  dom_restricted = false;
  dow_restricted = false;
}

-- In the second of the two hours, at 1:30, the next 1:31 is the one an hour ago.
back_again :
    next_run back_zone at_one_thirty_one (set_back + 1800000) ≡ some (set_back - 3600000 + 1860000)
unfolding next_run
back_again = refl

abbrev hourly_spec : CronSpec
hourly_spec = record {
  minute = 30 ∷ [];
  hour = 9 ∷ 17 ∷ [];
  dom = 1 ∷ 15 ∷ [];
  month = 1 ∷ 2 ∷ [];
  dow = 0 ∷ [];
  dom_restricted = true;
  dow_restricted = true;
}

-- 9:30 on 1 January, for the clock of `zone`.
next_run-First_example :
    First zone 0 100000000000 zone-IsSteady hourly_spec
      (70000 + (60000 - zone.local 70000 % 60000))
      1000000000
      (70000 + horizon)
      (next_run zone hourly_spec 70000)
next_run-First_example =
    next_run-First zone 0 100000000000 zone-IsSteady hourly_spec 70000 1000000000 (omega arith)
      (omega arith) (omega arith) (omega arith)

next_half_past_nine : next_run zone hourly_spec 70000 ≡ some 30600000
unfolding next_run
next_half_past_nine = refl

-- 30 is no hour, and is brought to 23.
abbrev weekly_spec : CronSpec
weekly_spec = record {
  minute = 0 ∷ [];
  hour = 23 ∷ [];
  dom = every_day;
  month = every_month;
  dow = 2 ∷ [];
  dom_restricted = false;
  dow_restricted = true;
}

preset_round_trip_example :
    Compiles (preset_to_cron weekly (some (integer 30)) (some (integer 2))) weekly_spec
unfolding hour_of day_of
preset_round_trip_example =
    preset_round_trip weekly (some (integer 30)) (some (integer 2)) weekly_spec refl

abbrev outside : Outside
outside = record {
  updating = false;
  independent_scripts = false;
  next = λ text now. ok (some (now + 60000));
  create_task = λ r. ok "task";
  has_repo = λ id. true;
  prepare = λ r run. ok none;
  launch = λ r run. ok tt;
  persists = λ run. true;
  clock = 5;
}

abbrev nightly : Routine
nightly = record {
  kind = script;
  script = some (record { command = "make check"; timeout_seconds = none });
  id = "nightly";
  repo_id = "site";
  agent = claude;
  title = none;
  prompt = "";
  permission = "default";
  model = none;
  effort = none;
  preset = daily;
  schedule = "0 9 * * *";
  enabled = true;
  last_run_at = none;
  next_run_at = some 100;
  created_at = 1;
  updated_at = 1;
}

abbrev scheduler : Scheduler
scheduler = record {
  routines = nightly ∷ nightly ∷ [];
  runs = [];
  last_run_id = 0;
  scripts = [];
  results = [];
  stopping = false;
}

-- The same routine comes up twice, and runs once.
one_script : length (tick outside 200 scheduler).1.scripts ≡ 1
unfolding tick
one_script = refl

tick-IsExclusive_example : IsExclusive (tick outside 200 scheduler).1
tick-IsExclusive_example =
    tick-IsExclusive outside 200 scheduler
      (record { slots = omega arith; single = λ k. omega arith })

-- A change of the title, which keeps the expression that stands.
abbrev patch : UpdateRoutineRequest
patch = record {
  script = none;
  prompt = none;
  preset = none;
  schedule = none;
  hour = none;
  day_of_week = none;
  permission = none;
  model = none;
  effort = none;
  title = some "Nightly";
  enabled = some true;
}

abbrev edited : Routine
edited = record nightly { title = some "Nightly"; next_run_at = some 60300; updated_at = 300 }

edit_routine-IsTimed_example :
    IsTimed outside (λ cs. "") 300 edited
    × ((edit_routine outside (λ cs. "") "nightly" 300 (ok patch) scheduler).1
        ≡ update_routine edited scheduler)
unfolding edit_routine
edit_routine-IsTimed_example =
    edit_routine-IsTimed outside (λ cs. "") "nightly" 300 (ok patch) scheduler
      (edit_routine outside (λ cs. "") "nightly" 300 (ok patch) scheduler).1 {r = edited} refl
