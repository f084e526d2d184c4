-- ===== src/WorldConfig.antt =====
-- The configuration of the keyserver: platform/keysystem/worldconfig.
pub mod Spire
pub mod Validation
pub mod Grants
pub mod Generate
pub mod Confinement
pub mod Accounts
pub mod Success
