-- ===== src/Format/Sgr/Bounds.antt =====
-- The channels of the colors in apps/web/src/lib/format.ts.
use vexdock.Base.{
  ℕ, ◌-◌, ◌/◌, ◌%◌, ◌≤◌, ◌<◌, ◌≡◌, inl, inr, Bool-cases, leb, All, arith, length, refl,
}
use vexdock.Format.Sgr.{channels_of, level_channel}

level_channel-bound : (level : ℕ) → level ≤ 5 → level_channel level ≤ 255
level_channel-bound level h = ground arith

-- Each index of the 256 colors behind the sixteen named ones has three channels of a byte each.
pub channels_of-bound :
    (index : ℕ)
    → 16 ≤ index
    → index < 256
    → (length (channels_of index) ≡ 3) × All (λ c. c ≤ 255) (channels_of index)
unfolding channels_of
channels_of-bound index low high = elim (Bool-cases (leb 232 index)) [
  | inl gray ↦ rw gray (refl, (omega arith, (omega arith, (omega arith, tt))))
  | inr cube ↦
      let cells = index - 16 in
      rw cube (
        refl,
        (
          level_channel-bound (cells / 36) (ground arith),
          (
            level_channel-bound ((cells / 6) % 6) (omega arith),
            (level_channel-bound (cells % 6) (omega arith), tt),
          ),
        ),
      )
]
