-- ===== src/Format/Bytes.antt =====
-- Sizes in apps/web/src/lib/format.ts: `bytes`, on whole numbers of bytes. A double holds a size
-- below 2^53 and its quotients by powers of two exactly, so that the numbers here are fractions with
-- the denominator `1024 ^ unit`.
pub mod Laws
use vexdock.Base.{
  ℕ, zero, suc, ◌+◌, ◌*◌, ◌/◌, ◌%◌, ◌^◌, Bool, ◌&&◌, Option, none, some, List, [], ◌∷◌, ◌++◌, leb,
  ltb, if◌then◌else◌, get_elem?,
}
use vexdock.Text.{Text, codes, decimal}

-- A count, or one below zero for a size never measured.
pub data Count : Type 0 where
  below_zero : Count
  count : ℕ → Count

abbrev pub unit_names : List Text
unit_names = codes "B" ∷ codes "KB" ∷ codes "MB" ∷ codes "GB" ∷ codes "TB" ∷ []

-- `Math.round(size)`, and the tenths that `size.toFixed(1)` prints: both round a half up.
unfoldable pub rounded : ℕ → ℕ → ℕ
rounded value unit = (2 * value + 1024 ^ unit) / (2 * 1024 ^ unit)

unfoldable pub tenths : ℕ → ℕ → ℕ
tenths value unit = (20 * value + 1024 ^ unit) / (2 * 1024 ^ unit)

-- The loop, with the number of larger units that are left.
unfoldable pub unit_from : ℕ → ℕ → ℕ → ℕ
unit_from value unit zero = unit
unit_from value unit (suc left) =
    let larger = unit_from value (suc unit) left in
    if leb 1024 (rounded value unit) then larger else unit

unfoldable pub unit_of : ℕ → ℕ
unit_of value = unit_from value 0 4

abbrev pub name_at : List Text → ℕ → Text
name_at [] i = codes "undefined"
name_at (n ∷ ns) zero = n
name_at (n ∷ ns) (suc i) = name_at ns i

abbrev pub print_size : ℕ → ℕ → Text
print_size value unit =
    (if ltb (tenths value unit) 100 && ltb 0 unit
      then decimal (tenths value unit / 10) ++ b'.' ∷ decimal (tenths value unit % 10)
      else decimal (rounded value unit))
    ++ b' ' ∷ name_at unit_names unit

unfoldable pub bytes : Option Count → Text
bytes none = codes "-"
bytes (some below_zero) = codes "-"
bytes (some (count value)) = print_size value (unit_of value)
