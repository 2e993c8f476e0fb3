-- ===== src/Format/Sgr.antt =====
-- Colors and weights of terminal escapes in apps/web/src/lib/format.ts: `applySgr`, `xterm256`, `rgb`.
-- A parameter is an exact number, whatever its length.
pub mod Bounds
use vexdock.Base.{
  ℕ, zero, suc, ◌+◌, ◌-◌, ◌*◌, ◌/◌, ◌%◌, Bool, true, false, ◌&&◌, ◌||◌, Option, none, some, List,
  [], ◌∷◌, ◌++◌, leb, ltb, ◌==◌, if◌then◌else◌, map, take, get_elem?,
}
use vexdock.Text.{Text, codes, decimal, join, split}

pub record Style : Type 0 where
  pub color : Option Text
  pub bold : Bool

abbrev pub ansi_colors : List Text
ansi_colors =
    codes "#737373"
    ∷ codes "#f87171"
    ∷ codes "#4ade80"
    ∷ codes "#fbbf24"
    ∷ codes "#60a5fa"
    ∷ codes "#e879f9"
    ∷ codes "#22d3ee"
    ∷ codes "#d4d4d4"
    ∷ codes "#8a8a8a"
    ∷ codes "#fca5a5"
    ∷ codes "#86efac"
    ∷ codes "#fde68a"
    ∷ codes "#93c5fd"
    ∷ codes "#f0abfc"
    ∷ codes "#67e8f9"
    ∷ codes "#ffffff"
    ∷ []

unfoldable pub rgb : List ℕ → Text
rgb channels = codes "rgb(" ++ join b' ' (map decimal channels) ++ codes ")"

-- `level === 0 ? 0 : 55 + 40 * level`
abbrev pub level_channel : ℕ → ℕ
level_channel level = if level == 0 then 0 else 55 + 40 * level

abbrev pub gray_channels : ℕ → List ℕ
gray_channels gray = gray ∷ gray ∷ gray ∷ []

abbrev pub cube_levels : ℕ → List ℕ
cube_levels cube = cube / 36 ∷ (cube / 6) % 6 ∷ cube % 6 ∷ []

-- The channels of an index from 16 on: the gray ramp, or the color cube.
unfoldable pub channels_of : ℕ → List ℕ
channels_of index =
    if leb 232 index
    then gray_channels (8 + 10 * (index - 232))
    else map level_channel (cube_levels (index - 16))

unfoldable pub xterm256 : Option ℕ → Option Text
xterm256 none = none
xterm256 (some index) =
    if ltb index 16 then get_elem? ansi_colors index else some (rgb (channels_of index))

-- What follows 38 or 48: the color, and how many codes it takes.
abbrev pub extended : List ℕ → Option Text × ℕ
extended [] = (some (rgb []), 0)
extended (mode ∷ rest) =
    if mode == 5 then (xterm256 (get_elem? rest 0), 2) else (some (rgb (take 3 rest)), 4)

-- One code that stands alone.
abbrev pub plain_code : Style → ℕ → Style
plain_code style code =
    if code == 0
    then record { color = none; bold = false }
    else if code == 1
    then record style { bold = true }
    else if code == 22
    then record style { bold = false }
    else if code == 39
    then record style { color = none }
    else if leb 30 code && leb code 37
    then record style { color = get_elem? ansi_colors (code - 30) }
    else if leb 90 code && leb code 97
    then record style { color = get_elem? ansi_colors (code - 82) }
    else style

-- 38 sets the foreground; 48 sets the background, which is not drawn.
abbrev pub extended_code : Style → ℕ → Option Text → Style
extended_code style code color = if code == 38 then record style { color = color } else style

-- The loop of `applySgr`; `taken` codes at the front belong to a color that has been read.
unfoldable pub apply_codes : Style → ℕ → List ℕ → Style
apply_codes style taken [] = style
apply_codes style (suc taken) (code ∷ rest) = apply_codes style taken rest
apply_codes style zero (code ∷ rest) =
    if code == 38 || code == 48
    then apply_codes (extended_code style code (extended rest).0) (extended rest).1 rest
    else apply_codes (plain_code style code) 0 rest

-- `Number` of a text of digits.
abbrev pub number_from : ℕ → Text → ℕ
number_from n [] = n
number_from n (d ∷ ds) = number_from (10 * n + (d - b'0')) ds

unfoldable pub apply_sgr : Style → Text → Style
apply_sgr style params = apply_codes style 0 (map (number_from 0) (split b';' params))
