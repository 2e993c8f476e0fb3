-- ===== src/Format/Ansi.antt =====
-- Terminal escapes in a log line of apps/web/src/lib/format.ts: the expression `ANSI`,
-- `ansiSegments`, and the body that `parseLogLine` strips of them.
pub mod Laws
use vexdock.Base.{
  ℕ, zero, suc, ◌+◌, ◌-◌, Bool, true, false, ◌&&◌, ◌||◌, Option, none, some, List, [], ◌∷◌, ◌++◌,
  leb, ltb, ◌==◌, if◌then◌else◌, length, take, drop,
}
use vexdock.Text.{Text, ends_with, slice_inner}
use vexdock.Format.Sgr.{Style, apply_sgr}

pub record Segment : Type 0 where
  pub text : Text
  pub style : Style

-- `[0-9;]` and `[A-Za-z]`
abbrev pub is_param : ℕ → Bool
is_param c = (leb b'0' c && leb c b'9') || c == b';'

abbrev pub is_letter : ℕ → Bool
is_letter c = (leb b'A' c && leb c b'Z') || (leb b'a' c && leb c b'z')

-- `[0-9;]*[A-Za-z]` behind `before` characters: the length of the whole match.
unfoldable pub final_at : ℕ → Text → Option ℕ
final_at before [] = none
final_at before (c ∷ cs) =
    let more = final_at (suc before) cs in
    if is_param c then more else if is_letter c then some (suc before) else none

-- The length of the escape that a text begins with.
unfoldable pub escape_at : Text → Option ℕ
escape_at (c ∷ d ∷ cs) = if c == 27 && d == b'[' then final_at 2 cs else none
escape_at _ = none

-- `text.matchAll(ANSI)` from `index` on: the place and the text of each match. `taken` characters at
-- the front belong to the match before.
unfoldable pub matches : ℕ → ℕ → Text → List (ℕ × Text)
matches index taken [] = []
matches index (suc taken) (c ∷ cs) = matches (suc index) taken cs
matches index zero (c ∷ cs) = elim (escape_at (c ∷ cs)) [
  | none ↦ matches (suc index) 0 cs
  | some n ↦ (index, take n (c ∷ cs)) ∷ matches (suc index) (n - 1) cs
]

-- `text.slice(from, to)`
abbrev pub slice : ℕ → ℕ → Text → Text
slice from to s = drop from (take to s)

-- `escape[0].slice(2, -1)`
abbrev pub params_of : Text → Text
params_of escape = drop 1 (slice_inner escape)

abbrev pub style_after : Style → Text → Style
style_after style escape =
    if ends_with b'm' escape then apply_sgr style (params_of escape) else style

-- A run of text that is not empty.
abbrev pub run : Bool → Text → Style → List Segment
run true s style = record { text = s; style = style } ∷ []
run false s style = []

-- The loop of `ansiSegments` over the matches, and what it pushes behind the last.
unfoldable pub segments_from : Text → ℕ → Style → List (ℕ × Text) → List Segment
segments_from text last style [] = run (ltb last (length text)) (drop last text) style
segments_from text last style ((index, escape) ∷ rest) =
    run (ltb last index) (slice last index text) style
    ++ segments_from text (index + length escape) (style_after style escape) rest

unfoldable pub ansi_segments : Text → List Segment
ansi_segments text = segments_from text 0 (record { color = none; bold = false }) (matches 0 0 text)

-- `text.replaceAll(ANSI, '')`, with the characters of a match still to drop.
unfoldable pub strip_from : ℕ → Text → Text
strip_from taken [] = []
strip_from (suc taken) (c ∷ cs) = strip_from taken cs
strip_from zero (c ∷ cs) = elim (escape_at (c ∷ cs)) [
  | none ↦ c ∷ strip_from 0 cs
  | some n ↦ strip_from (n - 1) cs
]

unfoldable pub strip_ansi : Text → Text
strip_ansi text = strip_from 0 text
