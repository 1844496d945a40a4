-- ===== src/Campaign/Rules.antt =====
-- apps/web/src/games/scrap-survivor/rules/campaign.ts and campaign-catalog.ts. A run is what the
-- campaign reads of it; of a relay, whether its charge is complete. `scaled` is the product of
-- floating point numbers, rounded down, in the parts of a reward, and `fresh_run` the simulation's new
-- run for a rig.
use Prim.Native.Nat.{min}
use palmagent.Common.{
  ℕ, suc, ◌+◌, ◌-◌, ◌*◌, ◌/◌, Bool, true, false, ◌&&◌, ◌||◌, not, Option, none, some, List, [], ◌∷◌,
  ◌++◌, count, every, ltb, leb, ◌==◌, nat_eq, if◌then◌else◌,
}
use palmagent.Campaign.Catalog.{
  Robot, scout, Weapon, Workshop, salvage, same_robot, same_weapon, same_workshop, robot_keys,
  workshop_keys, is_sector, unlock_cost, first_weapon, alternate_weapon, workshop_cap,
  workshop_cost, mastery_rank, Rig, Run, Profile,
}

pub data Outcome : Type 0 where
  victory defeat retreat : Outcome

pub data Unlock : Type 0 where
  sector_unlocked : ℕ → Unlock
  robot_unlock alternate_unlock mastery_unlock : Robot → Unlock

pub record Debrief : Type 0 where
  pub outcome : Outcome
  pub parts : ℕ
  pub mastery : ℕ
  pub unlocks : List Unlock

pub record Campaign : Type 0 where
  pub run : Run
  pub profile : Profile
  pub settled : Bool
  pub hangar : Bool
  pub report : Option Debrief

abbrev pub limit : ℕ
limit = 1000000

abbrev pub capped : ℕ → ℕ
capped value = min limit value

abbrev pub fresh_profile : Profile
fresh_profile = record {
  parts = 0;
  earned = 0;
  unlocked_sector = 1;
  clears = 0;
  mastery = λ r. 0;
  workshop = λ w. 0;
  robot = scout;
  sector = 1;
  starters = first_weapon;
}

abbrev pub robot_unlocked : Profile → Robot → Bool
robot_unlocked p robot = leb (unlock_cost robot) p.earned

-- Whether the weapon is among the robot's options.
abbrev pub is_starter : Profile → Robot → Weapon → Bool
is_starter p robot weapon =
    same_weapon weapon (first_weapon robot)
    || (leb 1 (mastery_rank (p.mastery robot)) && same_weapon weapon (alternate_weapon robot))

unfoldable pub select_robot : Robot → Profile → Bool × Profile
select_robot robot p =
    if robot_unlocked p robot then (true, record p { robot = robot }) else (false, p)

unfoldable pub select_sector : ℕ → Profile → Bool × Profile
select_sector sector p =
    if not (is_sector sector) || ltb p.unlocked_sector sector
    then (false, p)
    else (true, record p { sector = sector })

abbrev pub put {ℓ} : {A : Type ℓ} → (Robot → Robot → Bool) → Robot → A → (Robot → A) → Robot → A
put same key value f k = if same k key then value else f k

unfoldable pub select_starter : Weapon → Profile → Bool × Profile
select_starter weapon p =
    if is_starter p p.robot weapon
    then (true, record p { starters = put same_robot p.robot weapon p.starters })
    else (false, p)

unfoldable pub buy_upgrade : Workshop → Profile → Bool × Profile
buy_upgrade key p =
    if leb workshop_cap (p.workshop key) || ltb p.parts (workshop_cost (p.workshop key))
    then (false, p)
    else (
      true,
      record p {
        parts = p.parts - workshop_cost (p.workshop key);
        workshop = λ w. if same_workshop w key then suc (p.workshop w) else p.workshop w;
      },
    )

abbrev pub relays_restored : Run → ℕ
relays_restored r = count (λ charged. charged) r.relays

module _ (scaled : ℕ → Bool → ℕ → ℕ → ℕ) (fresh_run : Rig → Weapon → Run) where
  abbrev pub reward_parts : Run → ℕ
  reward_parts r = capped (
      scaled (r.kills / 5 + r.elites_cleared * 6 + relays_restored r * 10) r.won r.rig.sector
        (r.rig.workshop salvage))

  abbrev pub reward_mastery : Run → ℕ
  reward_mastery r =
      capped
        (r.kills / 10 + r.elites_cleared * 4 + relays_restored r * 6 + (if r.won then 20 else 0))

  -- The first clear of the last open sector opens the next one.
  abbrev pub opens_sector : Run → Profile → Bool
  opens_sector r p = r.won && ltb r.rig.sector 3 && leb p.unlocked_sector r.rig.sector

  abbrev pub paid : Run → Profile → Profile
  paid r p = record p {
    parts = capped (p.parts + reward_parts r);
    earned = capped (p.earned + reward_parts r);
    mastery =
        put same_robot r.rig.robot (capped (p.mastery r.rig.robot + reward_mastery r)) p.mastery;
    clears = if r.won then capped (p.clears + 1) else p.clears;
    unlocked_sector = if opens_sector r p then r.rig.sector + 1 else p.unlocked_sector;
    sector = if opens_sector r p && p.sector == r.rig.sector then r.rig.sector + 1 else p.sector;
  }

  abbrev pub unlocks_of : Run → Profile → Profile → List Unlock
  unlocks_of r before after =
      (if opens_sector r before then sector_unlocked (r.rig.sector + 1) ∷ [] else [])
      ++ robots_of before after robot_keys
      ++ (if ltb (mastery_rank (before.mastery r.rig.robot)) 1
            && leb 1 (mastery_rank (after.mastery r.rig.robot))
          then alternate_unlock r.rig.robot ∷ []
          else [])
      ++ (if ltb (mastery_rank (before.mastery r.rig.robot)) 2
            && leb 2 (mastery_rank (after.mastery r.rig.robot))
          then mastery_unlock r.rig.robot ∷ []
          else [])
    where
      robots_of : Profile → Profile → List Robot → List Unlock
      robots_of before after [] = []
      robots_of before after (k ∷ ks) =
          let rest = robots_of before after ks in
          if not (robot_unlocked before k) && robot_unlocked after k
          then robot_unlock k ∷ rest
          else rest

  abbrev pub outcome_of : Run → Bool → Outcome
  outcome_of r gave_up = if r.won then victory else if gave_up then retreat else defeat

  unfoldable pub settle_expedition : Bool → Campaign → Bool × Campaign
  settle_expedition gave_up c =
      if c.settled || (not gave_up && not (c.run).won && ltb 0 (c.run).hull) then (false, c) else (
        true,
        record c {
          profile = paid c.run c.profile;
          report = some (record {
            outcome = outcome_of c.run gave_up;
            parts = reward_parts c.run;
            mastery = reward_mastery c.run;
            unlocks = unlocks_of c.run c.profile (paid c.run c.profile);
          });
          run = if gave_up && not (c.run).won then record (c.run) { hull = 0 } else c.run;
          settled = true;
        },
      )

  abbrev pub rig_of : Profile → Rig
  rig_of p = record {
    robot = p.robot;
    sector = p.sector;
    mastery = mastery_rank (p.mastery p.robot);
    workshop = p.workshop;
  }

  unfoldable pub launch_expedition : Campaign → Bool × Campaign
  launch_expedition c =
      if not c.hangar
        || not c.settled
        || not (is_sector (c.profile).sector)
        || not (robot_unlocked c.profile (c.profile).robot)
        || ltb (c.profile).unlocked_sector (c.profile).sector
        || not (is_starter c.profile (c.profile).robot ((c.profile).starters (c.profile).robot))
      then (false, c)
      else (
        true,
        record c {
          run = fresh_run (rig_of c.profile) ((c.profile).starters (c.profile).robot);
          settled = false;
          report = none;
          hangar = false;
        },
      )

-- What a player does, and what the simulation makes of the run.
pub data Move : Type 0 where
  picks_robot : Robot → Move
  picks_sector : ℕ → Move
  picks_starter : Weapon → Move
  buys : Workshop → Move
  runs : Run → Move
  settles : (gave_up : Bool) → Move
  enters_hangar launches : Move

module _ (scaled : ℕ → Bool → ℕ → ℕ → ℕ) (fresh_run : Rig → Weapon → Run) where
  unfoldable pub play : Move → Campaign → Campaign
  unfolding select_robot select_sector select_starter buy_upgrade settle_expedition
      launch_expedition
  play (picks_robot k) c = record c { profile = (select_robot k c.profile).1 }
  play (picks_sector n) c = record c { profile = (select_sector n c.profile).1 }
  play (picks_starter w) c = record c { profile = (select_starter w c.profile).1 }
  play (buys k) c = record c { profile = (buy_upgrade k c.profile).1 }
  play (runs r) c = record c { run = r }
  play (settles gave_up) c = (settle_expedition scaled fresh_run gave_up c).1
  play enters_hangar c = record c { hangar = true }
  play launches c = (launch_expedition scaled fresh_run c).1

  unfoldable pub play_all : List Move → Campaign → Campaign
  unfolding play
  play_all [] c = c
  play_all (m ∷ ms) c = play_all ms (play m c)

unfoldable pub valid_profile : Profile → Bool
valid_profile p =
    leb p.parts limit
    && leb p.earned limit
    && leb p.parts p.earned
    && leb p.clears limit
    && is_sector p.unlocked_sector
    && is_sector p.sector
    && leb p.sector p.unlocked_sector
    && robot_unlocked p p.robot
    && every (λ k. leb (p.mastery k) limit) robot_keys
    && every (λ k. leb (p.workshop k) workshop_cap) workshop_keys
    && every (λ k. is_starter p k (p.starters k)) robot_keys
