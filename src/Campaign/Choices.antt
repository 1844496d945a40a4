-- ===== src/Campaign/Choices.antt =====
-- Selections and purchases keep a profile valid: apps/web/src/games/scrap-survivor/rules/campaign.ts.
use palmagent.Common.{
  ℕ, suc, ◌+◌, ◌*◌, ◌≤◌, ◌≡◌, refl, true, ◌||◌, not, arith, inl, inr, Bool-cases, leb, ltb, nat_eq,
  if◌then◌else◌,
}
use palmagent.Campaign.Rules.{
  limit, is_starter, put, robot_unlocked, select_robot, select_sector, select_starter, buy_upgrade,
  valid_profile,
}
use palmagent.Campaign.Catalog.{
  Profile, Robot, scout, bulwark, engineer, Weapon, Workshop, hull, power, salvage, workshop_cap,
  unlock_cost, same_robot, same_workshop, is_sector,
}

pub record IsValid (p : Profile) : Type 0 where
  pub parts : p.parts ≤ p.earned
  pub earned : p.earned ≤ limit
  pub clears : p.clears ≤ limit
  pub first : 1 ≤ p.sector
  pub reachable : p.sector ≤ p.unlocked_sector
  pub last : p.unlocked_sector ≤ 3
  pub robot : unlock_cost p.robot ≤ p.earned
  pub mastery : (k : Robot) → p.mastery k ≤ limit
  pub workshop : (k : Workshop) → p.workshop k ≤ workshop_cap
  pub starters : (k : Robot) → is_starter p k (p.starters k) ≡ true

pub leb_of_le : (a b : ℕ) → a ≤ b → leb a b ≡ true
leb_of_le a b h = ground arith

-- The check that a restored profile passes.
pub IsValid-valid_profile : (p : Profile) → IsValid p → valid_profile p ≡ true
unfolding valid_profile
IsValid-valid_profile p h =
    rw
      (
        leb_of_le p.parts limit (omega (arith, h.parts, h.earned)),
        leb_of_le p.earned limit h.earned,
        leb_of_le p.parts p.earned h.parts,
        leb_of_le p.clears limit h.clears,
        leb_of_le 1 p.unlocked_sector (omega (arith, h.first, h.reachable)),
        leb_of_le p.unlocked_sector 3 h.last,
        leb_of_le 1 p.sector h.first,
        leb_of_le p.sector 3 (omega (arith, h.reachable, h.last)),
        leb_of_le p.sector p.unlocked_sector h.reachable,
        leb_of_le (unlock_cost p.robot) p.earned h.robot,
        leb_of_le (p.mastery scout) limit (h.mastery scout),
        leb_of_le (p.mastery bulwark) limit (h.mastery bulwark),
        leb_of_le (p.mastery engineer) limit (h.mastery engineer),
        leb_of_le (p.workshop hull) workshop_cap (h.workshop hull),
        leb_of_le (p.workshop power) workshop_cap (h.workshop power),
        leb_of_le (p.workshop salvage) workshop_cap (h.workshop salvage),
        h.starters scout,
        h.starters bulwark,
        h.starters engineer,
      )
      refl

pub select_robot-IsValid : (k : Robot) (p : Profile) → IsValid p → IsValid (select_robot k p).1
unfolding select_robot
select_robot-IsValid k p h = elim (Bool-cases (robot_unlocked p k)) [
  | inl y ↦ rw y (record {
    parts = h.parts;
    earned = h.earned;
    clears = h.clears;
    first = h.first;
    reachable = h.reachable;
    last = h.last;
    robot = ground arith;
    mastery = h.mastery;
    workshop = h.workshop;
    starters = h.starters;
  })
  | inr n ↦ rw n h
]

pub select_sector-IsValid : (n : ℕ) (p : Profile) → IsValid p → IsValid (select_sector n p).1
unfolding select_sector
select_sector-IsValid n p h = elim (Bool-cases (not (is_sector n) || ltb p.unlocked_sector n)) [
  | inl y ↦ rw y h
  | inr m ↦ rw m (record {
    parts = h.parts;
    earned = h.earned;
    clears = h.clears;
    first = ground arith;
    reachable = ground arith;
    last = h.last;
    robot = h.robot;
    mastery = h.mastery;
    workshop = h.workshop;
    starters = h.starters;
  })
]

pub starter_put :
    (p : Profile) (w : Weapon) (r k : Robot)
    → is_starter p r w ≡ true
    → is_starter p k (p.starters k) ≡ true
    → is_starter p k (put same_robot r w p.starters k) ≡ true
starter_put p w scout scout a b = a
starter_put p w scout bulwark a b = b
starter_put p w scout engineer a b = b
starter_put p w bulwark scout a b = b
starter_put p w bulwark bulwark a b = a
starter_put p w bulwark engineer a b = b
starter_put p w engineer scout a b = b
starter_put p w engineer bulwark a b = b
starter_put p w engineer engineer a b = a

pub select_starter-IsValid : (w : Weapon) (p : Profile) → IsValid p → IsValid (select_starter w p).1
unfolding select_starter
select_starter-IsValid w p h = elim (Bool-cases (is_starter p p.robot w)) [
  | inr n ↦ rw n h
  | inl y ↦ rw y (record {
    parts = h.parts;
    earned = h.earned;
    clears = h.clears;
    first = h.first;
    reachable = h.reachable;
    last = h.last;
    robot = h.robot;
    mastery = h.mastery;
    workshop = h.workshop;
    starters = λ k. starter_put p w p.robot k y (h.starters k);
  })
]

pub buy_upgrade-IsValid : (k : Workshop) (p : Profile) → IsValid p → IsValid (buy_upgrade k p).1
unfolding buy_upgrade
buy_upgrade-IsValid k p h =
    elim (Bool-cases (leb workshop_cap (p.workshop k) || ltb p.parts (20 * (p.workshop k + 1)))) [
      | inl y ↦ rw y h
      | inr n ↦ rw n (record {
        parts = omega (arith, h.parts);
        earned = h.earned;
        clears = h.clears;
        first = h.first;
        reachable = h.reachable;
        last = h.last;
        robot = h.robot;
        mastery = h.mastery;
        workshop = λ j. levels j k (p.workshop) (h.workshop j) (ground arith);
        starters = h.starters;
      })
    ]
  where
    levels :
        (j k : Workshop) (f : Workshop → ℕ)
        → f j ≤ workshop_cap
        → f k + 1 ≤ workshop_cap
        → (if same_workshop j k then suc (f j) else f j) ≤ workshop_cap
    levels hull hull f a b = omega (arith, b)
    levels hull power f a b = a
    levels hull salvage f a b = a
    levels power hull f a b = a
    levels power power f a b = omega (arith, b)
    levels power salvage f a b = a
    levels salvage hull f a b = a
    levels salvage power f a b = a
    levels salvage salvage f a b = omega (arith, b)

pub starter_monotone :
    (p q : Profile) (k : Robot) (w : Weapon)
    → p.mastery k ≤ q.mastery k
    → is_starter p k w ≡ true
    → is_starter q k w ≡ true
starter_monotone p q k w m h = ground arith
