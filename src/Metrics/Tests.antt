-- ===== src/Metrics/Tests.antt =====
-- Counters and windows of apps/web/src/components/metric-chart.tsx.
use vexdock.Base.{ℕ, ◌≡◌, refl, List, [], ◌∷◌, map, length}
use vexdock.LogView.Last.{last}
use vexdock.Metrics.{
  Sample, add_sample, default_window, history, rates_of, series_of, total_behind, total_of,
}

abbrev at_time : ℕ → ℕ → Sample ℕ
at_time time total = record { at = time; reading = total }

-- The counter restarts with its container.
abbrev readings : List (Sample ℕ)
readings = at_time 1000 10 ∷ at_time 2000 30 ∷ at_time 3000 5 ∷ []

abbrev itself : ℕ → ℕ
itself n = n

total_test : total_of itself readings ≡ 25
unfolding total_of total_behind
total_test = refl

rates_test :
    (map (λ r. r.units) (rates_of itself readings) ≡ 20 ∷ 0 ∷ [])
    × (map (λ r. r.millis) (rates_of itself readings) ≡ 1000 ∷ 1000 ∷ [])
unfolding rates_of
rates_test = (refl, refl)

-- The recorded sample that the live stream covers is left out, and the one that is too old.
history_test :
    map
      (λ s. s.at)
      (history 5000 3000
        (at_time 1000 0 ∷ at_time 2500 0 ∷ at_time 4500 0 ∷ [])
        (at_time 4000 0 ∷ []))
    ≡ 2500 ∷ 4000 ∷ []
unfolding history
history_test = refl

sample_test : length (add_sample (at_time 1 1 ∷ []) (at_time 2 2)) ≡ 2
unfolding add_sample last
sample_test = refl

series_test : series_of itself (at_time 1 7 ∷ []) ≡ (1, 7) ∷ []
unfolding series_of
series_test = refl

window_test : default_window ≡ 1800000
window_test = refl
