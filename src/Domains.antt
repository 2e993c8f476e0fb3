-- ===== src/Domains.antt =====
-- apps/web/src/components/domains-panel.tsx: the domains of a service and their certificates. `Panel` is
-- the state of `DomainsPanel` with its two dialogs, `Certificates` what is said of a certificate; `Kept`
-- and `Keys` are about the private keys that are typed into the dialogs.
pub mod Panel
pub mod Certificates
pub mod Kept
pub mod Keys
mod Tests
