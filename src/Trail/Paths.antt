-- ===== src/Trail/Paths.antt =====
-- The paths that the trail of apps/web/src/lib/breadcrumb.ts links to.
use vexdock.Base.{
  ℕ, zero, suc, ◌+◌, length, ◌≡◌, ◌≢◌, refl, ap, ◌∙◌, false, List, [], ◌∷◌, arith, ◌==◌, take, All,
  Bool-cases, inl, inr,
}
use vexdock.Text.{Text, text_eq, split, split_before, join}
use vexdock.Text.Laws.{Lacks, split-join}
use vexdock.Trail.{
  filled, segments_of, to_at, TrailSegment, trail_segment, trail_from, trail_of, trail_of_segments,
}

-- A segment of a path.
abbrev pub IsSegment : Text → Type 0
IsSegment s = (text_eq s [] ≡ false) × Lacks b'/' s

split_before-Lacks :
    (x : ℕ) (ls : List Text)
    → (x == b'/') ≡ false
    → All (Lacks b'/') ls
    → All (Lacks b'/') (split_before x ls)
split_before-Lacks x [] h a = (ground arith, tt)
split_before-Lacks x (l ∷ ls) h a = (ground arith, a.1)

split-Lacks_each : (s : Text) → All (Lacks b'/') (split b'/' s)
unfolding split
split-Lacks_each [] = (refl, tt)
split-Lacks_each (x ∷ s) = elim (Bool-cases (x == b'/')) [
  | inl e ↦ rw e (refl, split-Lacks_each s)
  | inr e ↦ rw e (split_before-Lacks x (split b'/' s) e (split-Lacks_each s))
]

filled-IsSegment : (ss : List Text) → All (Lacks b'/') ss → All IsSegment (filled ss)
filled-IsSegment [] h = tt
filled-IsSegment (s ∷ ss) h = elim (Bool-cases (text_eq s [])) [
  | inl e ↦ rw e (filled-IsSegment ss h.1)
  | inr e ↦ rw e ((e, h.0), filled-IsSegment ss h.1)
]

filled-All : (ss : List Text) → All IsSegment ss → filled ss ≡ ss
filled-All [] h = refl
filled-All (s ∷ ss) h = rw h.0.0 (ap (λ r. s ∷ r) (filled-All ss h.1))

take-IsSegment : (n : ℕ) (ss : List Text) → All IsSegment ss → All IsSegment (take n ss)
take-IsSegment zero ss h = tt
take-IsSegment (suc n) [] h = tt
take-IsSegment (suc n) (s ∷ ss) h = (h.0, take-IsSegment n ss h.1)

Lacks-of : (ss : List Text) → All IsSegment ss → All (Lacks b'/') ss
Lacks-of [] h = tt
Lacks-of (s ∷ ss) h = (h.0.1, Lacks-of ss h.1)

segments-path : (ss : List Text) → All IsSegment ss → segments_of (b'/' ∷ join b'/' ss) ≡ ss
unfolding segments_of split join
segments-path [] h = refl
segments-path (s ∷ ss) h =
    ap filled (split-join b'/' s ss (Lacks-of (s ∷ ss) h)) ∙ filled-All (s ∷ ss) h

-- A trail from the place `index` on, for the segments `rest` that are left: one step for each, that
-- leads to a path whose own segments are the page's up to that one, and the last is no link.
abbrev pub Leads : List Text → ℕ → List Text → List TrailSegment → Type 0
Leads segments index [] [] = Unit
Leads segments index (s ∷ rest) (t ∷ ts) =
    (t.segment ≡ s)
    × (segments_of t.to ≡ take (suc index) segments)
    × (rest ≡ [] → t.linkable ≡ false)
    × Leads segments (suc index) rest ts
Leads segments index _ _ = ⊥

not_linked :
    (patterns segments : List Text) (index : ℕ) (s : Text)
    → suc index ≡ length segments
    → (trail_segment patterns segments index s).linkable ≡ false
not_linked patterns segments index s e = ground arith

trail_from-Leads :
    (patterns segments : List Text) (index : ℕ) (rest : List Text)
    → All IsSegment segments
    → index + length rest ≡ length segments
    → Leads segments index rest (trail_from patterns segments index rest)
unfolding trail_from to_at
trail_from-Leads patterns segments index [] h e = tt
trail_from-Leads patterns segments index (s ∷ rest) h e = (
  refl,
  segments-path (take (suc index) segments) (take-IsSegment (suc index) segments h),
  λ last. not_linked patterns segments index s (omega (arith, ap length last)),
  trail_from-Leads patterns segments (suc index) rest h (omega arith),
)

page-Leads :
    (patterns ss : List Text)
    → ss ≢ []
    → All IsSegment ss
    → Leads ss 0 ss (trail_of_segments patterns ss)
page-Leads patterns [] some_there h = absurd (some_there refl)
page-Leads patterns (s ∷ ss) some_there h =
    trail_from-Leads patterns (s ∷ ss) 0 (s ∷ ss) h (omega arith)

-- Off the root, the trail has one step for each segment of the page's path, whatever slashes that
-- has: the step leads to the path whose own segments are the page's up to and with it, and the last,
-- the page itself, is no link.
pub trail_of-Leads :
    (pathname : Text) (patterns : List Text)
    → segments_of pathname ≢ []
    → Leads (segments_of pathname) 0 (segments_of pathname) (trail_of pathname patterns)
unfolding trail_of segments_of
trail_of-Leads pathname patterns some_there =
    page-Leads patterns (segments_of pathname) some_there
      (filled-IsSegment (split b'/' pathname) (split-Lacks_each pathname))
