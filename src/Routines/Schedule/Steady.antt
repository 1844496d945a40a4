-- ===== src/Routines/Schedule/Steady.antt =====
-- `nextRun` of apps/server/src/modules/routines/domain/schedule.ts over a stretch of time in which the
-- clock is not changed.
use palmagent.Common.{
  ℕ, zero, suc, ◌+◌, ◌-◌, ◌/◌, ◌%◌, ◌≤◌, ◌<◌, ◌≡◌, refl, sym, ◌∙◌, ap, inl, inr, ◌⊎◌, true, false,
  Option, none, some, includes, ltb, nat_eq, Bool-cases, arith,
}
use palmagent.Routines.Cron.{CronSpec}
use palmagent.Routines.Schedule.{
  Zone, horizon, day_ms, hour_ms, minute_ms, hour, minute, whole_minute, add_minute, next_minute,
  next_hour, add_day, midnight, day_matches, scan, next_run, fires_at,
}

-- From `a` on, up to `b`, the clock is not changed, and a wall time that it shows is read as the
-- time at which it is shown: none of them was shown before.
pub record IsSteady (z : Zone) (a b : ℕ) : Type 0 where
  pub shown : (t k : ℕ) → a ≤ t → t + k ≤ b → z.local (t + k) ≡ z.local t + k
  pub read : (t : ℕ) → a ≤ t → t ≤ b → z.utc (z.local t) ≡ t

module _ (z : Zone) (a b : ℕ) (steady : IsSteady z a b) where
  utc-later : (t k : ℕ) → a ≤ t → t + k ≤ b → z.utc (z.local t + k) ≡ t + k
  utc-later t k p q = ap z.utc (sym (steady.shown t k p q)) ∙ steady.read (t + k) (omega arith) q

  next_hour-lem :
      (t : ℕ) → a ≤ t → t + hour_ms ≤ b → next_hour z t ≡ t + (hour_ms - z.local t % hour_ms)
  next_hour-lem t p q =
      ap z.utc {x = z.local t - z.local t % hour_ms + hour_ms}
        {y = z.local t + (hour_ms - z.local t % hour_ms)} (omega arith)
      ∙ utc-later t (hour_ms - z.local t % hour_ms) p (omega arith)

  next_minute-lem :
      (t : ℕ)
      → a ≤ t
      → t + minute_ms ≤ b
      → next_minute z t ≡ t + (minute_ms - z.local t % minute_ms)
  next_minute-lem t p q =
      ap z.utc {x = z.local t - z.local t % minute_ms + minute_ms}
        {y = z.local t + (minute_ms - z.local t % minute_ms)} (omega arith)
      ∙ utc-later t (minute_ms - z.local t % minute_ms) p (omega arith)

  same_hour :
      (t k : ℕ) → a ≤ t → t + k ≤ b → k < hour_ms - z.local t % hour_ms → hour z (t + k) ≡ hour z t
  same_hour t k p q r = rw (steady.shown t k p q) (ap (λ n. n % 24) (omega arith))

  same_minute :
      (t k : ℕ)
      → a ≤ t
      → t + k ≤ b
      → k < minute_ms - z.local t % minute_ms
      → minute z (t + k) ≡ minute z t
  same_minute t k p q r = rw (steady.shown t k p q) (ap (λ n. n % 60) (omega arith))

  next_day-lem :
      (t : ℕ)
      → a ≤ t
      → t + day_ms ≤ b
      → midnight z (add_day z t) ≡ t + (day_ms - z.local t % day_ms)
  next_day-lem t p q =
      ap (midnight z) (utc-later t day_ms p q)
      ∙ ap (λ w. z.utc (w - w % day_ms)) (steady.shown t day_ms p q)
      ∙ ap z.utc {x = z.local t + day_ms - (z.local t + day_ms) % day_ms}
          {y = z.local t + (day_ms - z.local t % day_ms)} (omega arith)
      ∙ utc-later t (day_ms - z.local t % day_ms) p (omega arith)

  same_day :
      (t k : ℕ)
      → a ≤ t
      → t + k ≤ b
      → k < day_ms - z.local t % day_ms
      → z.local (t + k) / day_ms ≡ z.local t / day_ms
  same_day t k p q r = rw (steady.shown t k p q) (omega arith)

  module _ (spec : CronSpec) where
    -- No time from `t` on, before `u`, fires.
    abbrev pub Silent : ℕ → ℕ → Type 0
    Silent t u = (v : ℕ) → t ≤ v → v < u → fires_at z spec v ≡ false

    day_matches-same :
        (t u : ℕ)
        → z.local u / day_ms ≡ z.local t / day_ms
        → day_matches z spec u ≡ day_matches z spec t
    unfolding day_matches
    day_matches-same t u h =
        ground (arith, ap z.month_of h, ap z.date_of h, ap {A = ℕ} {B = ℕ} (λ d. (d + 4) % 7) h)

    Silent-day :
        (t : ℕ)
        → a ≤ t
        → t + day_ms ≤ b
        → day_matches z spec t ≡ false
        → Silent t (midnight z (add_day z t))
    unfolding fires_at
    Silent-day t p q h v l m =
        let n : v < t + (day_ms - z.local t % day_ms) = rw (sym (next_day-lem t p q)) m in
        let e : t + (v - t) ≡ v = omega arith in
        let same : z.local v / day_ms ≡ z.local t / day_ms =
          rw (sym e) (same_day t (v - t) p (omega arith) (omega arith)) in
        rw (day_matches-same t v same, h) refl

    Silent-hour :
        (t : ℕ)
        → a ≤ t
        → t + hour_ms ≤ b
        → includes spec.hour (hour z t) ≡ false
        → Silent t (next_hour z t)
    unfolding fires_at
    Silent-hour t p q h v l m =
        let n : v < t + (hour_ms - z.local t % hour_ms) = rw (sym (next_hour-lem t p q)) m in
        let e : t + (v - t) ≡ v = omega arith in
        let same : hour z v ≡ hour z t =
          rw (sym e) (same_hour t (v - t) p (omega arith) (omega arith)) in
        ground (arith, same)

    Silent-minute :
        (t : ℕ)
        → a ≤ t
        → t + minute_ms ≤ b
        → includes spec.minute (minute z t) ≡ false
        → Silent t (next_minute z t)
    unfolding fires_at
    Silent-minute t p q h v l m =
        let n : v < t + (minute_ms - z.local t % minute_ms) = rw (sym (next_minute-lem t p q)) m in
        let e : t + (v - t) ≡ v = omega arith in
        let same : minute z v ≡ minute z t =
          rw (sym e) (same_minute t (v - t) p (omega arith) (omega arith)) in
        ground (arith, same)

    -- What a scan from `t` finds before `stop`: the first time that fires; or none fires, and the
    -- scan goes on behind `stop` or has come to its limit and gives none.
    abbrev pub First : ℕ → ℕ → ℕ → Option ℕ → Type 0
    First t stop limit o =
        ((u : ℕ) × (o ≡ some u) × (t ≤ u) × (u < stop) × (fires_at z spec u ≡ true) × Silent t u)
        ⊎ (Silent t stop × ((stop < limit) ⊎ (o ≡ none)))

    join : (t u v : ℕ) → Silent t u → Silent u v → Silent t v
    join t u v h k w l m = elim (Bool-cases (ltb w u)) [
      | inl y ↦ h w l (ground arith)
      | inr n ↦ k w (ground arith) m
    ]

    First-later :
        (t u stop limit : ℕ) (o : Option ℕ)
        → t < u
        → Silent t u
        → First u stop limit o
        → First t stop limit o
    First-later t u stop limit o l s (inl (v, e, c, d, f, k)) =
        inl (v, e, omega arith, d, f, join t u v s k)
    First-later t u stop limit o l s (inr (k, r)) = inr (join t u stop s k, r)

    fires :
        (t : ℕ)
        → day_matches z spec t ≡ true
        → includes spec.hour (hour z t) ≡ true
        → includes spec.minute (minute z t) ≡ true
        → fires_at z spec t ≡ true
    unfolding fires_at
    fires t d h m = rw (d, h, m) refl

    ended : (fuel t limit : ℕ) → ltb t limit ≡ false → scan z fuel spec limit t ≡ none
    unfolding scan
    ended zero t limit h = refl
    ended (suc fuel) t limit h = rw h refl

    -- Behind `stop` a scan is free, but for its limit.
    First-past :
        (fuel t stop limit : ℕ)
        → stop ≤ t
        → stop ≤ limit
        → First t stop limit (scan z fuel spec limit t)
    First-past fuel t stop limit p q = elim (Bool-cases (ltb stop limit)) [
      | inl y ↦ inr (λ v l m. absurd (omega arith), inl (ground arith))
      | inr n ↦ inr (λ v l m. absurd (omega arith), inr (ended fuel t limit (ground arith)))
    ]

    module _ (stop limit : ℕ) (inside : stop + day_ms ≤ b) (bound : stop ≤ limit) where
      scan-First :
          (fuel t : ℕ) → a ≤ t → stop < t + fuel → First t stop limit (scan z fuel spec limit t)
      unfolding scan
      scan-First zero t p enough = First-past zero t stop limit (omega arith) bound
      scan-First (suc fuel) t p enough = elim (Bool-cases (ltb t stop)) [
        | inr past ↦ First-past (suc fuel) t stop limit (ground arith) bound
        | inl before ↦
            let k : t < stop = ground arith in
            let c : ltb t limit ≡ true = ground arith in
            rw c (elim (Bool-cases (day_matches z spec t)) [
              | inr d ↦
                  let l : t < midnight z (add_day z t) =
                    rw (next_day-lem t p (omega arith)) (omega arith) in
                  rw d (
                    First-later t _ stop limit _ l (Silent-day t p (omega arith) d)
                      (scan-First fuel _ (omega arith) (omega arith)))
              | inl d ↦ rw d (elim (Bool-cases (includes spec.hour (hour z t))) [
                | inr h ↦
                    let l : t < next_hour z t =
                      rw (next_hour-lem t p (omega arith)) (omega arith) in
                    rw h (
                      First-later t _ stop limit _ l (Silent-hour t p (omega arith) h)
                        (scan-First fuel _ (omega arith) (omega arith)))
                | inl h ↦ rw h (elim (Bool-cases (includes spec.minute (minute z t))) [
                  | inr m ↦
                      let l : t < next_minute z t =
                        rw (next_minute-lem t p (omega arith)) (omega arith) in
                      rw m (
                        First-later t _ stop limit _ l (Silent-minute t p (omega arith) m)
                          (scan-First fuel _ (omega arith) (omega arith)))
                  | inl m ↦
                      rw m (
                        inl (t, refl, omega arith, k, fires t d h m, λ v l n. absurd (omega arith)))
                ])
              ])
            ])
      ]

    start-lem :
        (from : ℕ)
        → a + z.local from % minute_ms ≤ from
        → from + day_ms ≤ b
        → add_minute z (whole_minute z from) ≡ from + (minute_ms - z.local from % minute_ms)
    start-lem from p q =
        let v : ℕ = from - z.local from % minute_ms in
        let e : z.local from ≡ z.local v + z.local from % minute_ms =
          ap z.local {x = from} {y = v + z.local from % minute_ms} (omega arith)
          ∙ steady.shown v (z.local from % minute_ms) (omega arith) (omega arith) in
        let whole : whole_minute z from ≡ v =
          ap z.utc {x = z.local from - z.local from % minute_ms} {y = z.local v} (omega arith)
          ∙ steady.read v (omega arith) (omega arith) in
        ap (add_minute z) whole ∙ utc-later v minute_ms (omega arith) (omega arith) ∙ omega arith

    moved :
        (fuel : ℕ) {t : ℕ} (u stop limit : ℕ)
        → t ≡ u
        → First u stop limit (scan z fuel spec limit u)
        → First u stop limit (scan z fuel spec limit t)
    moved fuel u stop limit e h = rw e h

    -- Where the clock is not changed from the minute of `from` to a day after `stop`, which is at
    -- most the limit of 400 days, the next run is the first time from the end of that minute on at
    -- which month, day, hour and minute match, if one before `stop` does. Else the answer is none if
    -- `stop` is the limit.
    pub next_run-First :
        (from stop : ℕ)
        → a + z.local from % minute_ms ≤ from
        → from ≤ stop
        → stop ≤ from + horizon
        → stop + day_ms ≤ b
        → First
            (from + (minute_ms - z.local from % minute_ms))
            stop
            (from + horizon)
            (next_run z spec from)
    unfolding next_run
    next_run-First from stop p q r inside =
        let start : ℕ = from + (minute_ms - z.local from % minute_ms) in
        moved (suc horizon) start stop (from + horizon) (start-lem from p (omega arith)) (
          scan-First stop (from + horizon) inside r (suc horizon) start (omega arith) (omega arith))
