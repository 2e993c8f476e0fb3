-- ===== src/LogView/Bounds.antt =====
-- What holds of LogViewer's buffer at every moment.
use vexdock.Base.{
  ℕ, ◌*◌, ◌≤◌, ◌≡◌, ◌⊎◌, refl, inl, inr, Bool, true, false, not, ◌||◌, List, [], length, ltb, arith,
  Bool-cases,
}
use vexdock.LogView.Last.{length-last}
use vexdock.LogView.Buffer.{
  Line, Buffer, Run, bounded, flush, on_open, on_log, on_pause, on_clear, starts, opens, logs,
  flushes, pauses, clears,
}

module _ (cap : ℕ) where
  -- The screen and the waiting lines are bounded, and lines that wait while nothing is paused have
  -- a timer.
  abbrev pub IsBounded : Buffer → Type 0
  IsBounded b =
      (length b.streamed ≤ cap)
      × (length b.pending ≤ 2 * cap)
      × ((b.pending ≡ []) ⊎ ((b.paused || b.timer) ≡ true))

  length-bounded : (xs : List Line) → length (bounded cap xs) ≤ 2 * cap
  length-bounded xs = elim (Bool-cases (ltb (2 * cap) (length xs))) [
    | inl long ↦ rw long (omega (arith, length-last cap xs))
    | inr short ↦ rw short (ground arith)
  ]

  flush-IsBounded : (b : Buffer) → IsBounded (flush cap b)
  unfolding flush
  flush-IsBounded b = (length-last cap _, omega arith, inl refl)

  on_pause-IsBounded : (b : Buffer) → IsBounded b → IsBounded (on_pause cap b)
  unfolding on_pause flush
  on_pause-IsBounded b (screen, waiting, due) = elim (Bool-cases b.paused) [
    | inl at ↦ rw at (length-last cap _, omega arith, inl refl)
    | inr off ↦ rw off (screen, waiting, inr refl)
  ]

  timer_set : (paused timer : Bool) → (paused || (timer || not paused)) ≡ true
  timer_set true timer = refl
  timer_set false true = refl
  timer_set false false = refl

  -- At every moment at most `cap` lines are on the screen and at most twice as many wait, and no
  -- line is stuck: while lines wait and the viewer is not paused, a flush is due.
  pub Run-IsBounded : (b : Buffer) → Run cap b → IsBounded b
  unfolding on_open on_log on_clear
  Run-IsBounded _ starts = (omega arith, omega arith, inl refl)
  Run-IsBounded _ (opens b r) = Run-IsBounded b r
  Run-IsBounded _ (logs b l r) =
      ((Run-IsBounded b r).0, length-bounded _, inr (timer_set b.paused b.timer))
  Run-IsBounded _ (flushes b _ r) = flush-IsBounded b
  Run-IsBounded _ (pauses b r) = on_pause-IsBounded b (Run-IsBounded b r)
  Run-IsBounded _ (clears b r) =
      let (screen, waiting, due) = Run-IsBounded b r in (omega arith, waiting, due)
