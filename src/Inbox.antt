-- ===== src/Inbox.antt =====
-- apps/web/src/components/deployment-inbox.tsx: the latest deployments with what this browser has read
-- and dismissed. `Store` is `readIds` and `useStoredIds`, `Items` the notifications, `Marked` a loop of
-- writes, over `Sets`.
pub mod Store
pub mod Items
pub mod Sets
pub mod Marked
mod Tests
