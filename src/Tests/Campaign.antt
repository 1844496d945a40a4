-- ===== src/Tests/Campaign.antt =====
-- A campaign of one expedition, and the theorems on campaign.ts applied to it.
use palmagent.Common.{ℕ, ◌+◌, ◌≡◌, refl, Bool, true, false, none, [], ◌∷◌, List, is_none}
use palmagent.Campaign.Rules.{
  Campaign, fresh_profile, Move, picks_robot, buys, settles, enters_hangar, launches, play_all,
  settle_expedition, valid_profile,
}
use palmagent.Campaign.Catalog.{bulwark, power, Rig, Run, Weapon, scout}
use palmagent.Campaign.Profiles.{play_all-valid_profile, settle_once}

abbrev rig : Rig
rig = record { robot = scout; sector = 1; mastery = 0; workshop = λ w. 0 }

abbrev won_run : Run
won_run = record {
  rig = rig;
  relays = true ∷ [];
  kills = 100;
  elites_cleared = 2;
  hull = 3;
  won = true;
}

abbrev scaled : ℕ → Bool → ℕ → ℕ → ℕ
scaled salvage victory sector level = salvage + sector

abbrev fresh_run : Rig → Weapon → Run
fresh_run r w = record {
  rig = r;
  relays = [];
  kills = 0;
  elites_cleared = 0;
  hull = 8;
  won = false;
}

abbrev campaign : Campaign
campaign = record {
  run = won_run;
  profile = fresh_profile;
  settled = false;
  hangar = false;
  report = none;
}

abbrev moves : List Move
moves =
    settles false ∷ buys power ∷ picks_robot bulwark ∷ enters_hangar ∷ launches ∷ settles true ∷ []

-- The won expedition pays 43 parts, the upgrade costs 20 and the abandoned one pays 2.
paid_parts : (play_all scaled fresh_run moves campaign).profile.parts ≡ 25
unfolding play_all
paid_parts = refl

play_all-valid_profile_example :
    valid_profile (play_all scaled fresh_run moves campaign).profile ≡ true
play_all-valid_profile_example = play_all-valid_profile scaled fresh_run moves campaign refl

settle_once_example :
    (settle_expedition scaled fresh_run true (settle_expedition scaled fresh_run false campaign).1
      ≡ (false, (settle_expedition scaled fresh_run false campaign).1))
    × (is_none (settle_expedition scaled fresh_run false campaign).1.report ≡ false)
unfolding settle_expedition
settle_once_example = settle_once scaled fresh_run false true campaign refl
