-- ===== src/Campaign/Catalog.antt =====
-- The robots, weapons, sectors and profiles of the game, and what they cost:
-- apps/web/src/games/scrap-survivor/rules/campaign-catalog.ts and campaign.ts.
use palmagent.Common.{
  ℕ, ◌+◌, ◌*◌, Bool, true, false, ◌&&◌, List, [], ◌∷◌, leb, nat_eq, if◌then◌else◌,
}

pub data Robot : Type 0 where
  scout bulwark engineer : Robot

pub data Weapon : Type 0 where
  bolt blade arc mine drone : Weapon

pub data Workshop : Type 0 where
  hull power salvage : Workshop

abbrev pub same_robot : Robot → Robot → Bool
same_robot scout scout = true
same_robot bulwark bulwark = true
same_robot engineer engineer = true
same_robot _ _ = false

abbrev pub same_weapon : Weapon → Weapon → Bool
same_weapon bolt bolt = true
same_weapon blade blade = true
same_weapon arc arc = true
same_weapon mine mine = true
same_weapon drone drone = true
same_weapon _ _ = false

abbrev pub same_workshop : Workshop → Workshop → Bool
same_workshop hull hull = true
same_workshop power power = true
same_workshop salvage salvage = true
same_workshop _ _ = false

abbrev pub robot_keys : List Robot
robot_keys = scout ∷ bulwark ∷ engineer ∷ []

abbrev pub workshop_keys : List Workshop
workshop_keys = hull ∷ power ∷ salvage ∷ []

-- The sectors are 1, 2 and 3.
abbrev pub is_sector : ℕ → Bool
is_sector n = leb 1 n && leb n 3

abbrev pub unlock_cost : Robot → ℕ
unlock_cost scout = 0
unlock_cost bulwark = 40
unlock_cost engineer = 100

abbrev pub first_weapon : Robot → Weapon
first_weapon scout = bolt
first_weapon bulwark = blade
first_weapon engineer = drone

abbrev pub alternate_weapon : Robot → Weapon
alternate_weapon scout = arc
alternate_weapon bulwark = bolt
alternate_weapon engineer = mine

abbrev pub workshop_cap : ℕ
workshop_cap = 3

abbrev pub workshop_cost : ℕ → ℕ
workshop_cost level = 20 * (level + 1)

abbrev pub mastery_rank : ℕ → ℕ
mastery_rank points = if leb 90 points then 2 else if leb 30 points then 1 else 0

pub record Rig : Type 0 where
  pub robot : Robot
  pub sector : ℕ
  pub mastery : ℕ
  pub workshop : Workshop → ℕ

pub record Run : Type 0 where
  pub rig : Rig
  pub relays : List Bool
  pub kills : ℕ
  pub elites_cleared : ℕ
  pub hull : ℕ
  pub won : Bool

pub record Profile : Type 0 where
  pub parts : ℕ
  pub earned : ℕ
  pub unlocked_sector : ℕ
  pub clears : ℕ
  pub mastery : Robot → ℕ
  pub workshop : Workshop → ℕ
  pub robot : Robot
  pub sector : ℕ
  pub starters : Robot → Weapon
