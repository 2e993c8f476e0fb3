-- ===== src/Events/Tests.antt =====
-- apps/web/src/lib/sse.ts on concrete bursts and streams.
use vexdock.Base.{◌≡◌, refl, true, some, arith}
use vexdock.Text.{codes}
use vexdock.Events.Refresh.{Debounce, idle, refresh, refetch, Bounded, Run-Bounded}
use vexdock.Events.Refresh
use vexdock.Events.Stream.{
  Stream, lost, stream_state, mount, on_error, on_retry, on_open, IsKept, Run-IsKept,
}
use vexdock.Events.Stream

abbrev burst : Debounce
burst = refresh 1200 (refresh 1000 idle)

burst_waits : burst ≡ record { timer = some 1450; pending_since = 1000; refetches = 0 }
unfolding refresh
burst_waits = refl

burst-Run : Refresh.Run burst
unfolding refresh
burst-Run =
    Refresh.event (refresh 1000 idle) 1200
      (Refresh.event idle 1000 Refresh.start (omega arith) (omega arith) tt) (omega arith)
      (omega arith) (omega arith)

Run-Bounded_example : Bounded burst.pending_since burst.timer
Run-Bounded_example = Run-Bounded burst burst-Run

abbrev system : Stream
system = mount (some (codes "/api/system/events")) true

abbrev retrying : Stream
retrying = on_retry (on_error true system)

keeps_lost : stream_state retrying ≡ lost
unfolding mount on_retry on_error stream_state
keeps_lost = refl

retrying-Run : Stream.Run retrying
unfolding mount on_error
retrying-Run =
    Stream.retried (on_error true system)
      (Stream.failed system true (Stream.first (some (codes "/api/system/events")) true) refl) refl

Run-IsKept_example : IsKept retrying
Run-IsKept_example = Run-IsKept retrying retrying-Run
