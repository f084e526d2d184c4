-- ===== src/Util.antt =====
-- The helper packages of platform/util that the key system uses.
pub mod RemoteAddress
pub mod Csr
pub mod Substitution
pub mod Templates
pub mod Expiration
pub mod Environment
