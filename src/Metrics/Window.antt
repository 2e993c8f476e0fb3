-- ===== src/Metrics/Window.antt =====
-- What the charts of apps/web/src/components/metric-chart.tsx draw and sum up.
use vexdock.Base.{
  filter, ℕ, ◌+◌, ◌-◌, ◌≤◌, ◌≡◌, inl, inr, Bool, true, List, [], ◌∷◌, ◌++◌, All, Bool-cases, arith,
}
use vexdock.Metrics.{Sample, cutoff, history, moved, total_behind, total_of}

climb : (a b rest end : ℕ) → a ≤ b → b ≤ end → rest ≡ end - b → moved a b + rest ≡ end - a
climb a b rest end l u e = ground arith

module _ {A : Type 0} (total : A → ℕ) where
  -- A counter that only climbs from `previous` on, up to `end`.
  abbrev pub Climbs : Sample A → List (Sample A) → ℕ → Type 0
  Climbs previous [] end = total previous.reading ≡ end
  Climbs previous (s ∷ ss) end = (total previous.reading ≤ total s.reading) × Climbs s ss end

  Climbs-end :
      (previous : Sample A) (ss : List (Sample A)) (end : ℕ)
      → Climbs previous ss end
      → total previous.reading ≤ end
  Climbs-end previous [] end e = omega (arith, e)
  Climbs-end previous (s ∷ ss) end (step, h) = omega (arith, step, Climbs-end s ss end h)

  -- The steps of a counter that only climbs add up to the difference of its ends.
  pub total_of-Climbs :
      (first : Sample A) (ss : List (Sample A)) (end : ℕ)
      → Climbs first ss end
      → total_of total (first ∷ ss) ≡ end - total first.reading
  unfolding total_of total_behind
  total_of-Climbs first [] end e = omega (arith, e)
  total_of-Climbs first (s ∷ ss) end (step, h) =
      climb (total first.reading) (total s.reading) _ end step (Climbs-end s ss end h)
        (total_of-Climbs s ss end h)

module _ {A : Type 0} where
  filter-All :
      (P : Sample A → Type 0) (p : Sample A → Bool) (xs : List (Sample A))
      → ((x : Sample A) → p x ≡ true → P x)
      → All P (filter p xs)
  filter-All P p [] h = tt
  filter-All P p (x ∷ xs) h = elim (Bool-cases (p x)) [
    | inl e ↦ rw e (h x e, filter-All P p xs h)
    | inr e ↦ rw e (filter-All P p xs h)
  ]

  All-append :
      (P : Sample A → Type 0) (xs ys : List (Sample A)) → All P xs → All P ys → All P (xs ++ ys)
  All-append P [] ys h k = k
  All-append P (x ∷ xs) ys (p, h) k = (p, All-append P xs ys h k)

  -- Nothing older than the window is drawn.
  pub history-InWindow :
      (now window : ℕ) (seed live : List (Sample A))
      → All (λ s. cutoff now window live ≤ s.at) (history now window seed live)
  unfolding history
  history-InWindow now window seed live =
      All-append _ (filter _ seed) (filter _ live) (filter-All _ _ seed (λ x e. ground (arith, e)))
        (filter-All _ _ live (λ x e. ground (arith, e)))
