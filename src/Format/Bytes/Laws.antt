-- ===== src/Format/Bytes/Laws.antt =====
-- The unit that `bytes` of apps/web/src/lib/format.ts chooses.
use vexdock.Base.{
  ℕ, zero, suc, ◌+◌, ◌≤◌, ◌<◌, ◌≡◌, refl, ◌⊎◌, inl, inr, Bool-cases, arith, leb, ◌==◌, ==_iff, some,
}
use vexdock.Format.Bytes.{rounded, unit_from, unit_of, bytes, count, print_size}

-- The unit is the largest, or its number prints below 1024; and it is the one to start from, or the
-- unit below would print 1024 or more.
abbrev pub Fits : ℕ → ℕ → ℕ → ℕ → Type 0
Fits value lowest largest unit =
    (lowest ≤ unit)
    × (unit ≤ largest)
    × ((unit ≡ largest) ⊎ (rounded value unit < 1024))
    × ((below : ℕ) → lowest ≤ below → below < unit → 1024 ≤ rounded value below)

-- One step up keeps the claim for the unit stepped from.
least_suc :
    (value unit top : ℕ)
    → 1024 ≤ rounded value unit
    → ((below : ℕ) → suc unit ≤ below → below < top → 1024 ≤ rounded value below)
    → (below : ℕ) → unit ≤ below
    → below < top
    → 1024 ≤ rounded value below
least_suc value unit top here above below l u = elim (Bool-cases (below == unit)) [
  | inl same ↦ rw ((==_iff below unit).0 same) here
  | inr other ↦ above below (ground arith) u
]

unit_from-Fits : (value unit left : ℕ) → Fits value unit (unit + left) (unit_from value unit left)
unfolding unit_from
unit_from-Fits value unit zero =
    (omega arith, omega arith, inl (omega arith), λ b l u. absurd (omega arith))
unit_from-Fits value unit (suc left) = elim (Bool-cases (leb 1024 (rounded value unit))) [
  | inl more ↦
      let (low, high, fits, least) = unit_from-Fits value (suc unit) left in
      rw more (
        omega arith,
        omega arith,
        elim fits [ inl top ↦ inl (omega arith) | inr small ↦ inr small ],
        least_suc value unit (unit_from value (suc unit) left) (ground arith) least,
      )
  | inr less ↦ rw less (omega arith, omega arith, inr (ground arith), λ b l u. absurd (omega arith))
]

unit_of-Fits : (value : ℕ) → Fits value 0 4 (unit_of value)
unfolding unit_of
unit_of-Fits value = unit_from-Fits value 0 4

-- `bytes` prints a size in one of the five units: its number prints below 1024, or the unit is the
-- terabyte, the last; and no smaller unit would do, since each would print 1024 or more.
pub bytes-Fits :
    (value : ℕ)
    → (unit : ℕ) × (bytes (some (count value)) ≡ print_size value unit) × Fits value 0 4 unit
unfolding bytes
bytes-Fits value = (unit_of value, refl, unit_of-Fits value)
