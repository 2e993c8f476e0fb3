-- ===== src/Auth.antt =====
-- apps/auth/src: the service that owns users and sessions. `Server` answers requests and guards
-- sign-up, `Runs` is what can happen while requests overlap, `Issuer` fills the issuer of old accounts
-- in at boot.
pub mod Server
pub mod Guard
pub mod Runs
pub mod Issuer
mod Tests
