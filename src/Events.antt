-- ===== src/Events.antt =====
-- apps/web/src/lib/sse.ts: the event stream of the panel. `Stream` is `useEventSource`, `Refresh` the
-- debounced refetch of `useSystemEvents`.
pub mod Stream
pub mod Refresh
mod Tests
