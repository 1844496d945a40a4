-- ===== src/Routines/Schedule.antt =====
-- The next time of a routine: `dayMatches` and `nextRun` of
-- apps/server/src/modules/routines/domain/schedule.ts. Times are milliseconds.
pub mod Steady
use palmagent.Common.{
  ℕ, zero, suc, ◌+◌, ◌-◌, ◌*◌, ◌/◌, ◌%◌, Bool, false, ◌&&◌, ◌||◌, not, Option, none, some, includes,
  ltb, nat_eq, if◌then◌else◌,
}
use palmagent.Routines.Cron.{CronSpec}

-- The time zone of JavaScript's `Date`. Wall time counts the milliseconds that the clock shows from
-- the beginning of Thursday, 25 December 1969, so that it is a number west of Greenwich too. `utc`
-- reads a wall time: of one that occurs twice, when the clock is set back, it is the earlier
-- occurrence. The month (1 to 12) and the day of a month are functions of the day that is shown.
pub record Zone : Type 0 where
  pub local : ℕ → ℕ
  pub utc : ℕ → ℕ
  pub month_of : ℕ → ℕ
  pub date_of : ℕ → ℕ

abbrev pub minute_ms : ℕ
minute_ms = 60000

abbrev pub hour_ms : ℕ
hour_ms = 3600000

abbrev pub day_ms : ℕ
day_ms = 86400000

abbrev pub horizon : ℕ
horizon = 400 * 24 * 60 * 60 * 1000

module _ (z : Zone) where
  abbrev pub month : ℕ → ℕ
  month t = z.month_of (z.local t / day_ms)

  abbrev pub day_of_month : ℕ → ℕ
  day_of_month t = z.date_of (z.local t / day_ms)

  -- 0 is Sunday.
  abbrev pub day_of_week : ℕ → ℕ
  day_of_week t = (z.local t / day_ms + 4) % 7

  abbrev pub hour : ℕ → ℕ
  hour t = z.local t / hour_ms % 24

  abbrev pub minute : ℕ → ℕ
  minute t = z.local t / minute_ms % 60

  -- `setSeconds(0, 0)`
  abbrev pub whole_minute : ℕ → ℕ
  whole_minute t = z.utc (z.local t - z.local t % minute_ms)

  -- `setMinutes(getMinutes() + 1)`
  abbrev pub add_minute : ℕ → ℕ
  add_minute t = z.utc (z.local t + minute_ms)

  -- `setMinutes(getMinutes() + 1, 0, 0)`
  abbrev pub next_minute : ℕ → ℕ
  next_minute t = z.utc (z.local t - z.local t % minute_ms + minute_ms)

  -- `setHours(getHours() + 1, 0, 0, 0)`
  abbrev pub next_hour : ℕ → ℕ
  next_hour t = z.utc (z.local t - z.local t % hour_ms + hour_ms)

  -- `setDate(getDate() + 1)`
  abbrev pub add_day : ℕ → ℕ
  add_day t = z.utc (z.local t + day_ms)

  -- `setHours(0, 0, 0, 0)`
  abbrev pub midnight : ℕ → ℕ
  midnight t = z.utc (z.local t - z.local t % day_ms)

  unfoldable pub day_matches : CronSpec → ℕ → Bool
  day_matches spec t =
      if not (includes spec.month (month t))
      then false
      else (let dom_ok = includes spec.dom (day_of_month t) in
          let dow_ok = includes spec.dow (day_of_week t) in
          if spec.dom_restricted && spec.dow_restricted then dom_ok || dow_ok else dom_ok && dow_ok)

  -- The loop, with fuel for its rounds.
  unfoldable pub scan : ℕ → CronSpec → ℕ → ℕ → Option ℕ
  unfolding day_matches
  scan zero spec limit t = none
  scan (suc fuel) spec limit t =
      let day = scan fuel spec limit (midnight (add_day t)) in
      let hours = scan fuel spec limit (next_hour t) in
      let minutes = scan fuel spec limit (next_minute t) in
      if not (ltb t limit)
      then none
      else if not (day_matches spec t)
      then day
      else if not (includes spec.hour (hour t))
      then hours
      else if not (includes spec.minute (minute t))
      then minutes
      else some t

  unfoldable pub next_run : CronSpec → ℕ → Option ℕ
  unfolding scan
  next_run spec from = scan (suc horizon) spec (from + horizon) (add_minute (whole_minute from))

  -- Whether a routine with this schedule fires in the minute of `t`.
  unfoldable pub fires_at : CronSpec → ℕ → Bool
  unfolding day_matches
  fires_at spec t =
      day_matches spec t && includes spec.hour (hour t) && includes spec.minute (minute t)
