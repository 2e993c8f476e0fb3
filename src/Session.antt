-- ===== src/Session.antt =====
-- Who may see a page of the dashboard, and where signing in leads: AuthGate, the login page, and
-- the router's first query.
pub mod Gate
mod Settle
pub mod Return
mod Expired
mod Tests
