-- ===== src/Metrics.antt =====
-- The series behind the charts of apps/web/src/components/metric-chart.tsx. Times are milliseconds,
-- and counters are natural numbers.
mod Window
mod Tests
use vexdock.Base.{
  filter, ℕ, ◌+◌, ◌-◌, ◌*◌, Bool, true, false, ◌&&◌, Option, none, some, List, [], ◌∷◌, ◌++◌, ltb,
  leb, map, if◌then◌else◌,
}
use vexdock.LogView.Last.{last}

-- A sample has its own clock.
pub record Sample (A : Type 0) : Type 0 where
  pub at : ℕ
  pub reading : A

-- A number of units in a number of milliseconds, by the second: `units * 1000 / millis`.
pub record Rate : Type 0 where
  pub at : ℕ
  pub units : ℕ
  pub millis : ℕ

abbrev pub live_limit : ℕ
live_limit = 1200

abbrev pub default_window : ℕ
default_window = 30 * 60 * 1000

abbrev max : ℕ → ℕ → ℕ
max a b = if leb a b then b else a

-- One step of `totalOf`: a counter that drops has restarted.
abbrev pub moved : ℕ → ℕ → ℕ
moved previous reading = if leb previous reading then reading - previous else reading

module _ {A : Type 0} where
  -- `[...live, sample].slice(-LIVE_LIMIT)`
  unfoldable pub add_sample : List (Sample A) → Sample A → List (Sample A)
  add_sample live sample = last live_limit (live ++ sample ∷ [])

  abbrev pub latest : List (Sample A) → ℕ
  latest [] = 0
  latest (s ∷ []) = s.at
  latest (s ∷ t ∷ ts) = latest (t ∷ ts)

  -- A time before the epoch is 0: no sample is older.
  abbrev pub cutoff : ℕ → ℕ → List (Sample A) → ℕ
  cutoff now window live = max now (latest live) - window

  -- `point.at < liveStart`, which is infinite where nothing is live.
  abbrev pub is_before : List (Sample A) → Sample A → Bool
  is_before [] p = true
  is_before (s ∷ ss) p = ltb p.at s.at

  unfoldable pub history : ℕ → ℕ → List (Sample A) → List (Sample A) → List (Sample A)
  history now window seed live =
      filter (λ p. leb (cutoff now window live) p.at && is_before live p) seed
      ++ filter (λ p. leb (cutoff now window live) p.at) live

  -- One step of `ratesOf`: a reset counter and a clock that stands are 0.
  abbrev pub rate : (A → ℕ) → Sample A → Sample A → Rate
  rate total previous sample =
      if ltb previous.at sample.at
      then record {
        at = sample.at;
        units = total sample.reading - total previous.reading;
        millis = sample.at - previous.at;
      }
      else record { at = sample.at; units = 0; millis = 1 }

  rates_behind : (A → ℕ) → Sample A → List (Sample A) → List Rate
  rates_behind total previous [] = []
  rates_behind total previous (s ∷ ss) = rate total previous s ∷ rates_behind total s ss

  unfoldable pub rates_of : (A → ℕ) → List (Sample A) → List Rate
  unfolding rates_behind
  rates_of total [] = []
  rates_of total (s ∷ ss) = rates_behind total s ss

  unfoldable pub total_behind : (A → ℕ) → Sample A → List (Sample A) → ℕ
  total_behind total previous [] = 0
  total_behind total previous (s ∷ ss) =
      moved (total previous.reading) (total s.reading) + total_behind total s ss

  unfoldable pub total_of : (A → ℕ) → List (Sample A) → ℕ
  total_of total [] = 0
  total_of total (s ∷ ss) = total_behind total s ss

  unfoldable pub series_of : (A → ℕ) → List (Sample A) → List (ℕ × ℕ)
  series_of value history = map (λ s. (s.at, value s.reading)) history
