-- ===== src/Events/Refresh.antt =====
-- `refresh` of `useSystemEvents` in apps/web/src/lib/sse.ts: a burst of events leads to one round of
-- refetches. Times are milliseconds of `Date.now()`. The runtime runs a timer when it is due: no
-- event is handled behind the time of a timer that is set.
use vexdock.Base.{
  ℕ, ◌+◌, ◌-◌, ◌≤◌, ◌≡◌, ◌≢◌, refl, Option, none, some, leb, ◌==◌, if◌then◌else◌, arith,
}

-- The two refs, the timer's as the time at which it is due, and the number of refetches.
pub record Debounce : Type 0 where
  pub timer : Option ℕ
  pub pending_since : ℕ
  pub refetches : ℕ

abbrev pub idle : Debounce
idle = record { timer = none; pending_since = 0; refetches = 0 }

abbrev pub since_when : ℕ → ℕ → ℕ
since_when now pending = if pending == 0 then now else pending

-- `now - pendingSince.current >= 2000 ? 0 : 250`
abbrev pub delay : ℕ → ℕ → ℕ
delay now pending = if leb 2000 (now - pending) then 0 else 250

unfoldable pub refresh : ℕ → Debounce → Debounce
refresh now d =
    let pending = since_when now d.pending_since in
    record {
      timer = some (now + delay now pending);
      pending_since = pending;
      refetches = d.refetches;
    }

-- The timer's callback.
unfoldable pub refetch : Debounce → Debounce
refetch d = record { timer = none; pending_since = 0; refetches = d.refetches + 1 }

-- An event at `now` finds no timer that is overdue.
abbrev pub InTime : ℕ → Option ℕ → Type 0
InTime now none = Unit {0}
InTime now (some due) = now ≤ due

pub data Run : Debounce → Type 0 where
  start : Run idle
  event :
      (d : Debounce) (now : ℕ)
      → Run d
      → now ≢ 0
      → d.pending_since ≤ now
      → InTime now d.timer
      → Run (refresh now d)
  fire : (d : Debounce) (due : ℕ) → Run d → d.timer ≡ some due → Run (refetch d)

-- Where a timer is set, it is due at most 2250 ms behind the first event of the burst; where none is
-- set, no event waits.
abbrev pub Bounded : ℕ → Option ℕ → Type 0
Bounded pending none = pending ≡ 0
Bounded pending (some due) = (pending ≢ 0) × (due ≤ pending + 2250)

delay-bound :
    (now pending : ℕ)
    → pending ≤ now
    → now ≤ pending + 2250
    → now + delay now pending ≤ pending + 2250
delay-bound now pending l u = ground arith

refresh-Bounded :
    (now pending : ℕ) (timer : Option ℕ)
    → now ≢ 0
    → pending ≤ now
    → InTime now timer
    → Bounded pending timer
    → Bounded (since_when now pending) (some (now + delay now (since_when now pending)))
refresh-Bounded now pending none ne l t b = ground arith
refresh-Bounded now pending (some due) ne l t (some_pending, bound) =
    ground (arith, delay-bound now pending)

-- No event waits longer than 2250 ms for its refetch, however fast others follow, and none is
-- forgotten: while one waits, a timer is set.
pub Run-Bounded : (d : Debounce) → Run d → Bounded d.pending_since d.timer
unfolding refresh refetch
Run-Bounded d start = refl
Run-Bounded d (event before now run ne l t) =
    refresh-Bounded now before.pending_since before.timer ne l t (Run-Bounded before run)
Run-Bounded d (fire before due run e) = refl
