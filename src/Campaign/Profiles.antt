-- ===== src/Campaign/Profiles.antt =====
-- A profile that the campaign made is one that it restores: `validProfile` of campaign.ts.
use mathlib.Core.Path.{subst}
use mathlib.Core.Bool.{false≢true}
use palmagent.Common.{
  ℕ, ◌+◌, ◌≤◌, ◌≡◌, refl, Bool, true, false, ◌&&◌, ◌||◌, not, List, arith, inl, inr, Bool-cases,
  ltb, nat_eq, if-keeps, none, sym, [], ◌∷◌, is_none,
}
use palmagent.Campaign.Rules.{
  Campaign, limit, is_starter, put, robot_unlocked, paid, capped, reward_mastery, settle_expedition,
  launch_expedition, rig_of, Move, picks_robot, picks_sector, picks_starter, buys, runs, settles,
  enters_hangar, launches, play, play_all, fresh_profile, valid_profile,
}
use palmagent.Campaign.Catalog.{
  Profile, Robot, scout, bulwark, engineer, Weapon, Rig, Run, first_weapon, same_robot, is_sector,
}
use palmagent.Campaign.Choices.{
  IsValid, IsValid-valid_profile, select_robot-IsValid, select_sector-IsValid,
  select_starter-IsValid, buy_upgrade-IsValid, starter_monotone,
}

module _ (scaled : ℕ → Bool → ℕ → ℕ → ℕ) (fresh_run : Rig → Weapon → Run) where
  mastery_paid :
      (r : Run) (p : Profile) (k : Robot)
      → p.mastery k ≤ limit
      → (p.mastery k ≤ (paid scaled fresh_run r p).mastery k)
        × ((paid scaled fresh_run r p).mastery k ≤ limit)
  mastery_paid r p k h = go r.rig.robot k h
    where
      go :
          (j k : Robot)
          → p.mastery k ≤ limit
          → (p.mastery k
              ≤ put same_robot j
                  (capped (p.mastery j + reward_mastery scaled fresh_run r))
                  p.mastery
                  k)
            × (put same_robot j
                  (capped (p.mastery j + reward_mastery scaled fresh_run r))
                  p.mastery
                  k
                ≤ limit)
      go scout scout h = (omega (arith, h), omega arith)
      go scout bulwark h = (omega arith, h)
      go scout engineer h = (omega arith, h)
      go bulwark scout h = (omega arith, h)
      go bulwark bulwark h = (omega (arith, h), omega arith)
      go bulwark engineer h = (omega arith, h)
      go engineer scout h = (omega arith, h)
      go engineer bulwark h = (omega arith, h)
      go engineer engineer h = (omega (arith, h), omega arith)

  sectors_paid :
      (r : Run) (p : Profile)
      → IsValid p
      → (1 ≤ (paid scaled fresh_run r p).sector)
        × ((paid scaled fresh_run r p).sector ≤ (paid scaled fresh_run r p).unlocked_sector)
        × ((paid scaled fresh_run r p).unlocked_sector ≤ 3)
  sectors_paid r p h =
      (ground (arith, h.first), ground (arith, h.reachable), ground (arith, h.last))

  paid-IsValid : (r : Run) (p : Profile) → IsValid p → IsValid (paid scaled fresh_run r p)
  paid-IsValid r p h = record {
    parts = omega (arith, h.parts);
    earned = omega arith;
    clears = elim (Bool-cases r.won) [ inl y ↦ rw y (omega arith) | inr n ↦ rw n h.clears ];
    first = (sectors_paid r p h).0;
    reachable = (sectors_paid r p h).1;
    last = (sectors_paid r p h).2;
    robot = omega (arith, h.robot, h.earned);
    mastery = λ k. (mastery_paid r p k (h.mastery k)).1;
    workshop = h.workshop;
    starters = λ k.
        starter_monotone p (paid scaled fresh_run r p) k (p.starters k)
          (mastery_paid r p k (h.mastery k)).0 (h.starters k);
  }

  settle-IsValid :
      (gave_up : Bool) (c : Campaign)
      → IsValid c.profile
      → IsValid (settle_expedition scaled fresh_run gave_up c).1.profile
  unfolding settle_expedition
  settle-IsValid gave_up c h =
      elim (Bool-cases (c.settled || (not gave_up && not (c.run).won && ltb 0 (c.run).hull))) [
        | inl y ↦ rw y h
        | inr n ↦ rw n (paid-IsValid c.run c.profile h)
      ]

  launch_expedition-IsValid :
      (c : Campaign) → IsValid c.profile → IsValid (launch_expedition scaled fresh_run c).1.profile
  unfolding launch_expedition
  launch_expedition-IsValid c h =
      let q = c.profile in
      if-keeps {A = Bool × Campaign} (λ r. IsValid r.1.profile)
        (not c.hangar
          || not c.settled
          || not (is_sector q.sector)
          || not (robot_unlocked q q.robot)
          || ltb q.unlocked_sector q.sector
          || not (is_starter q q.robot (q.starters q.robot)))
        (false, c)
        (
          true,
          record c {
            run = fresh_run (rig_of scaled fresh_run q) (q.starters q.robot);
            settled = false;
            report = none;
            hangar = false;
          },
        )
        h h

  play-IsValid :
      (m : Move) (c : Campaign) → IsValid c.profile → IsValid (play scaled fresh_run m c).profile
  unfolding play
  play-IsValid (picks_robot k) c h = select_robot-IsValid k c.profile h
  play-IsValid (picks_sector n) c h = select_sector-IsValid n c.profile h
  play-IsValid (picks_starter w) c h = select_starter-IsValid w c.profile h
  play-IsValid (buys k) c h = buy_upgrade-IsValid k c.profile h
  play-IsValid (runs r) c h = h
  play-IsValid (settles gave_up) c h = settle-IsValid gave_up c h
  play-IsValid enters_hangar c h = h
  play-IsValid launches c h = launch_expedition-IsValid c h

  play_all-IsValid :
      (ms : List Move) (c : Campaign)
      → IsValid c.profile
      → IsValid (play_all scaled fresh_run ms c).profile
  unfolding play_all
  play_all-IsValid [] c h = h
  play_all-IsValid (m ∷ ms) c h =
      play_all-IsValid ms (play scaled fresh_run m c) (play-IsValid m c h)

  fresh_profile-IsValid : IsValid fresh_profile
  fresh_profile-IsValid = record {
    parts = omega arith;
    earned = omega arith;
    clears = omega arith;
    first = omega arith;
    reachable = omega arith;
    last = omega arith;
    robot = omega arith;
    mastery = λ k. omega arith;
    workshop = λ k. omega arith;
    starters = λ k. fresh_starter k;
  }
    where
      fresh_starter : (k : Robot) → is_starter fresh_profile k (first_weapon k) ≡ true
      fresh_starter scout = refl
      fresh_starter bulwark = refl
      fresh_starter engineer = refl

  -- However a campaign that began with a fresh profile is played, and whatever the runs come to, its
  -- profile passes the check that a saved campaign must pass to be restored.
  pub play_all-valid_profile :
      (ms : List Move) (c : Campaign)
      → c.profile ≡ fresh_profile
      → valid_profile (play_all scaled fresh_run ms c).profile ≡ true
  play_all-valid_profile ms c e =
      IsValid-valid_profile (play_all scaled fresh_run ms c).profile
        (play_all-IsValid ms c (subst IsValid (sym e) fresh_profile-IsValid))

  -- An expedition that was settled is not settled again: a second attempt awards nothing and changes
  -- nothing, and the first one left a report.
  pub settle_once :
      (gave_up again : Bool) (c : Campaign)
      → (settle_expedition scaled fresh_run gave_up c).0 ≡ true
      → (settle_expedition scaled fresh_run again (settle_expedition scaled fresh_run gave_up c).1
          ≡ (false, (settle_expedition scaled fresh_run gave_up c).1))
        × (is_none (settle_expedition scaled fresh_run gave_up c).1.report ≡ false)
  unfolding settle_expedition
  settle_once gave_up again c h =
      elim (Bool-cases (c.settled || (not gave_up && not (c.run).won && ltb 0 (c.run).hull))) [
        | inl y ↦ absurd (false≢true (rw y at h))
        | inr n ↦ rw n (refl, refl)
      ]
