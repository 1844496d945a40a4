-- ===== src/Campaign.antt =====
-- The campaign of the game in the web application: apps/web/src/games/scrap-survivor/rules.
pub mod Catalog
pub mod Choices
pub mod Rules
pub mod Profiles
