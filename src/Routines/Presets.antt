-- ===== src/Routines/Presets.antt =====
-- Every cadence preset of routines/domain/schedule.ts compiles to an expression that parses.
use mathlib.Core.Path.{ap}
use mathlib.Core.Bool.{false≢true}
use palmagent.Common.{
  ℕ, zero, suc, ◌≤◌, ◌<◌, ◌≡◌, refl, Bool, true, false, ◌&&◌, Option, none, some, List, [], ◌∷◌,
  nat_eq, nat_beq, arith,
}
use palmagent.Routines.Cron.{
  Number, RoutinePreset, hourly, daily, weekly, weekdays, manual, custom, clamp_int, preset_to_cron,
  preset_text, hour_of, day_of, default_hour, default_day_of_week, parse_cron, Parsed, good, bad,
  CronSpec,
}

abbrev pub equal : List ℕ → List ℕ → Bool
equal [] [] = true
equal (a ∷ xs) (b ∷ ys) = nat_beq a b && equal xs ys
equal _ _ = false

equal_sound : (xs ys : List ℕ) → equal xs ys ≡ true → xs ≡ ys
equal_sound [] [] h = refl
equal_sound [] (y ∷ ys) h = cc
equal_sound (x ∷ xs) [] h = cc
equal_sound (x ∷ xs) (y ∷ ys) h = ground (arith, equal_sound xs ys)

abbrev same_flag : Bool → Bool → Bool
same_flag true b = b
same_flag false true = false
same_flag false false = true

same_flag_sound : (a b : Bool) → same_flag a b ≡ true → a ≡ b
same_flag_sound a b h = ground arith

abbrev agree : CronSpec → CronSpec → Bool
agree a b =
    equal a.minute b.minute
    && equal a.hour b.hour
    && equal a.dom b.dom
    && equal a.month b.month
    && equal a.dow b.dow
    && same_flag a.dom_restricted b.dom_restricted
    && same_flag a.dow_restricted b.dow_restricted

agree_sound : (a b : CronSpec) → agree a b ≡ true → a ≡ b
agree_sound a b h = ground (
  arith,
  equal_sound a.minute b.minute,
  equal_sound a.hour b.hour,
  equal_sound a.dom b.dom,
  equal_sound a.month b.month,
  equal_sound a.dow b.dow,
  same_flag_sound a.dom_restricted b.dom_restricted,
  same_flag_sound a.dow_restricted b.dow_restricted,
)

abbrev parsed_as : Parsed CronSpec → CronSpec → Bool
parsed_as (good s) spec = agree s spec
parsed_as (bad e) spec = false

parsed_as_sound : (r : Parsed CronSpec) (spec : CronSpec) → parsed_as r spec ≡ true → r ≡ good spec
parsed_as_sound (good s) spec h = ap good (agree_sound s spec h)
parsed_as_sound (bad e) spec h = cc

abbrev parses_to : Option (List ℕ) → CronSpec → Bool
parses_to none spec = false
parses_to (some text) spec = parsed_as (parse_cron text) spec

-- Every value below a bound, by evaluation.
table : ℕ → (ℕ → Bool) → Bool
table zero p = true
table (suc n) p = p n && table n p

table_sound : (n : ℕ) (p : ℕ → Bool) (x : ℕ) → table n p ≡ true → x < n → p x ≡ true
unfolding table
table_sound zero p x h lt = absurd (omega arith)
table_sound (suc n) p x h lt = ground (arith, table_sound n p x)

abbrev pub every_day : List ℕ
every_day =
    1 ∷ 2 ∷ 3 ∷ 4 ∷ 5 ∷ 6 ∷ 7 ∷ 8 ∷ 9 ∷ 10 ∷ 11 ∷ 12 ∷ 13 ∷ 14 ∷ 15 ∷ 16 ∷ 17 ∷ 18 ∷ 19 ∷ 20 ∷ 21
    ∷ 22 ∷ 23 ∷ 24 ∷ 25 ∷ 26 ∷ 27 ∷ 28 ∷ 29 ∷ 30 ∷ 31 ∷ []

abbrev pub every_month : List ℕ
every_month = 1 ∷ 2 ∷ 3 ∷ 4 ∷ 5 ∷ 6 ∷ 7 ∷ 8 ∷ 9 ∷ 10 ∷ 11 ∷ 12 ∷ []

abbrev every_hour : List ℕ
every_hour =
    0 ∷ 1 ∷ 2 ∷ 3 ∷ 4 ∷ 5 ∷ 6 ∷ 7 ∷ 8 ∷ 9 ∷ 10 ∷ 11 ∷ 12 ∷ 13 ∷ 14 ∷ 15 ∷ 16 ∷ 17 ∷ 18 ∷ 19 ∷ 20
    ∷ 21 ∷ 22 ∷ 23 ∷ []

-- A wildcard field names every day of the week twice over: 7 is Sunday too.
abbrev any_weekday : List ℕ
any_weekday = 0 ∷ 0 ∷ 1 ∷ 2 ∷ 3 ∷ 4 ∷ 5 ∷ 6 ∷ []

-- The cadence that a preset stands for.
abbrev pub cadence : RoutinePreset → ℕ → ℕ → Option CronSpec
cadence hourly h d = some (record {
  minute = 0 ∷ [];
  hour = every_hour;
  dom = every_day;
  month = every_month;
  dow = any_weekday;
  dom_restricted = false;
  dow_restricted = false;
})
cadence daily h d = some (record {
  minute = 0 ∷ [];
  hour = h ∷ [];
  dom = every_day;
  month = every_month;
  dow = any_weekday;
  dom_restricted = false;
  dow_restricted = false;
})
cadence weekly h d = some (record {
  minute = 0 ∷ [];
  hour = h ∷ [];
  dom = every_day;
  month = every_month;
  dow = d ∷ [];
  dom_restricted = false;
  dow_restricted = true;
})
cadence weekdays h d = some (record {
  minute = 0 ∷ [];
  hour = h ∷ [];
  dom = every_day;
  month = every_month;
  dow = 1 ∷ 2 ∷ 3 ∷ 4 ∷ 5 ∷ [];
  dom_restricted = false;
  dow_restricted = true;
})
cadence manual h d = none
cadence custom h d = none

-- The expression of a preset parses to the cadence `spec`.
pub record Compiles (o : Option (List ℕ)) (spec : CronSpec) : Type 0 where
  pub text : List ℕ
  pub compiled : o ≡ some text
  pub parsed : parse_cron text ≡ good spec

parses_to-Compiles :
    (o : Option (List ℕ)) (spec : CronSpec) → parses_to o spec ≡ true → Compiles o spec
parses_to-Compiles none spec h = absurd (false≢true h)
parses_to-Compiles (some text) spec h = record {
  text = text;
  compiled = refl;
  parsed = parsed_as_sound (parse_cron text) spec h;
}

abbrev fits : RoutinePreset → ℕ → ℕ → Bool
fits p h d = elim (cadence p h d) [ none ↦ true | some spec ↦ parses_to (preset_text p h d) spec ]

weekly_table : table 24 (λ h. table 7 (λ d. fits weekly h d)) ≡ true
unfolding table preset_text parse_cron
weekly_table = refl

daily_table : table 24 (λ h. fits daily h 0) ≡ true
unfolding table preset_text parse_cron
daily_table = refl

weekdays_table : table 24 (λ h. fits weekdays h 0) ≡ true
unfolding table preset_text parse_cron
weekdays_table = refl

hourly_fits : (h d : ℕ) → fits hourly h d ≡ true
unfolding preset_text parse_cron
hourly_fits h d = refl

preset_fits : (p : RoutinePreset) (h d : ℕ) → h < 24 → d < 7 → fits p h d ≡ true
unfolding preset_text
preset_fits hourly h d lh ld = hourly_fits h d
preset_fits daily h d lh ld = table_sound 24 (λ h. fits daily h 0) h daily_table lh
preset_fits weekly h d lh ld =
    table_sound 7 (λ d. fits weekly h d) d
      (table_sound 24 (λ h. table 7 (λ d. fits weekly h d)) h weekly_table lh) ld
preset_fits weekdays h d lh ld = table_sound 24 (λ h. fits weekdays h 0) h weekdays_table lh
preset_fits manual h d lh ld = refl
preset_fits custom h d lh ld = refl

fits-Compiles :
    (p : RoutinePreset) (h d : ℕ) (spec : CronSpec)
    → fits p h d ≡ true
    → cadence p h d ≡ some spec
    → Compiles (preset_text p h d) spec
fits-Compiles p h d spec f e = parses_to-Compiles (preset_text p h d) spec (rw (e, fits) at f)

clamp_bounds : (n : Option Number) (hi default : ℕ) → clamp_int n 0 hi default ≤ hi
unfolding clamp_int
clamp_bounds none hi default = omega arith
clamp_bounds (some (Number.integer n)) hi default = omega arith
clamp_bounds (some (Number.below n)) hi default = omega arith
clamp_bounds (some Number.fraction) hi default = omega arith

-- Every preset with a fixed cadence, whatever the given hour and day, compiles to an expression that
-- parses to that cadence at the hour and day brought into range.
pub preset_round_trip :
    (p : RoutinePreset) (hour day : Option Number) (spec : CronSpec)
    → cadence p (hour_of hour) (day_of day) ≡ some spec
    → Compiles (preset_to_cron p hour day) spec
unfolding preset_to_cron hour_of day_of
preset_round_trip p hour day spec e =
    fits-Compiles p (hour_of hour) (day_of day) spec
      (preset_fits p (hour_of hour) (day_of day) (omega (arith, clamp_bounds hour 23 default_hour))
        (omega (arith, clamp_bounds day 6 default_day_of_week)))
      e
