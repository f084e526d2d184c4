-- ===== src/Keyclient.antt =====
-- The key client: platform/keysystem/keyclient and the packages of platform/keysystem/api that it
-- sends its requests with.
pub mod Effects
pub mod Target
pub mod State
pub mod Download
pub mod Renewal
pub mod Hostname
pub mod Converge
pub mod Formats
pub mod Loop
pub mod Readiness
pub mod Retry
pub mod Completion
pub mod Schedule
pub mod Keeping
pub mod Admission
