-- ===== src/Trail.antt =====
-- apps/web/src/lib/breadcrumb.ts: the trail of the header from a path. `Paths` is about the paths of
-- its segments.
pub mod Paths
mod Tests
use vexdock.Base.{
  ℕ, suc, ◌+◌, Bool, true, false, not, ◌&&◌, ◌||◌, List, [], ◌∷◌, ◌++◌, ◌==◌, leb, if◌then◌else◌,
  length, take, any,
}
use vexdock.Text.{Text, codes, text_eq, split, join, starts_with, replace_all}

pub record TrailSegment : Type 0 where
  pub segment : Text
  pub to : Text
  pub linkable : Bool

-- `filter(Boolean)`
abbrev pub filled : List Text → List Text
filled [] = []
filled (s ∷ ss) = if text_eq s [] then filled ss else s ∷ filled ss

unfoldable pub segments_of : Text → List Text
segments_of path = filled (split b'/' path)

-- The lengths are equal, and each part of the pattern is a parameter or the part of the path.
unfoldable pub parts_match : List Text → List Text → Bool
parts_match [] [] = true
parts_match (p ∷ ps) (s ∷ ss) = (starts_with b'$' p || text_eq p s) && parts_match ps ss
parts_match _ _ = false

unfoldable pub served_by : Text → Text → Bool
served_by pattern path = parts_match (segments_of pattern) (segments_of path)

-- `/${segments.slice(0, index + 1).join('/')}`
unfoldable pub to_at : List Text → ℕ → Text
to_at segments index = b'/' ∷ join b'/' (take (suc index) segments)

abbrev pub trail_segment : List Text → List Text → ℕ → Text → TrailSegment
trail_segment patterns segments index segment = record {
  segment = segment;
  to = to_at segments index;
  linkable =
      not (suc index == length segments)
      && any (λ pattern. served_by pattern (to_at segments index)) patterns;
}

-- `segments.map(…)` from `index` on.
unfoldable pub trail_from : List Text → List Text → ℕ → List Text → List TrailSegment
trail_from patterns segments index [] = []
trail_from patterns segments index (s ∷ rest) =
    trail_segment patterns segments index s ∷ trail_from patterns segments (suc index) rest

-- The root carries no segment.
abbrev pub trail_of_segments : List Text → List Text → List TrailSegment
trail_of_segments patterns [] =
    record { segment = codes "dashboard"; to = codes "/"; linkable = false } ∷ []
trail_of_segments patterns (s ∷ ss) = trail_from patterns (s ∷ ss) 0 (s ∷ ss)

unfoldable pub trail_of : Text → List Text → List TrailSegment
trail_of pathname patterns = trail_of_segments patterns (segments_of pathname)
