-- ===== src/Format/Times/Laws.antt =====
-- What the times of apps/web/src/lib/format.ts say.
use vexdock.Base.{
  ℕ, ◌+◌, ◌-◌, ◌*◌, ◌/◌, ◌%◌, ◌≤◌, ◌<◌, ◌≡◌, refl, ◌⊎◌, inl, inr, Bool-cases, Option, some, ◌++◌,
  arith, ltb,
}
use vexdock.Text.{Text, codes, decimal}
use vexdock.Format.Times.{
  since_seconds, until_seconds, ago, ahead, duration_seconds, Stamp, since, until, instant,
}

-- A unit of time, its letter, its length in seconds and the number that the next one takes over at.
pub data Span : Type 0 where
  seconds minutes hours days : Span

abbrev pub letter : Span → Text
letter seconds = codes "s"
letter minutes = codes "m"
letter hours = codes "h"
letter days = codes "d"

abbrev pub size : Span → ℕ
size seconds = 1
size minutes = 60
size hours = 3600
size days = 86400

-- The number `n` of whole units of `u` in `total` seconds, where no larger unit fits in.
abbrev pub Measures : ℕ → Span → ℕ → Type 0
Measures n seconds total = (n ≡ total) × (n < 60)
Measures n minutes total = (n * 60 ≤ total) × (total < n * 60 + 60) × (0 < n) × (n < 60)
Measures n hours total = (n * 3600 ≤ total) × (total < n * 3600 + 3600) × (0 < n) × (n < 24)
Measures n days total = (n * 86400 ≤ total) × (total < n * 86400 + 86400) × (0 < n)

-- The two directions print the same number and unit.
abbrev Printed : ℕ → Type 0
Printed total =
    (n : ℕ) × (u : Span) × Measures n u total
    × (since_seconds total ≡ ago n (letter u))
    × (until_seconds total ≡ ahead n (letter u))

printed : (total : ℕ) → Printed total
unfolding since_seconds until_seconds
printed total = elim (Bool-cases (ltb total 60)) [
  | inl s ↦ (total, seconds, (refl, ground arith), ground (arith, s), ground (arith, s))
  | inr ns ↦ elim (Bool-cases (ltb (total / 60) 60)) [
    | inl m ↦ (
      total / 60,
      minutes,
      (omega arith, omega arith, ground arith, ground arith),
      ground (arith, ns, m),
      ground (arith, ns, m),
    )
    | inr nm ↦ elim (Bool-cases (ltb (total / 60 / 60) 24)) [
      | inl h ↦ (
        total / 60 / 60,
        hours,
        (omega arith, omega arith, ground arith, ground arith),
        ground (arith, ns, nm, h),
        ground (arith, ns, nm, h),
      )
      | inr nh ↦ (
        total / 60 / 60 / 24,
        days,
        (omega arith, omega arith, ground arith),
        ground (arith, ns, nm, nh),
        ground (arith, ns, nm, nh),
      )
    ]
  ]
]

-- `until` mirrors `since`: of one stretch of time, seen from its end and from its start, the two
-- print the same number of the same unit, the largest that fits into it, rounded down, below the
-- number where the next unit takes over.
pub since-mirrors-until :
    (parse : Text → Option ℕ) (past future : ℕ) (a b : Stamp)
    → instant parse (some a) ≡ some past
    → instant parse (some b) ≡ some future
    → (n : ℕ) × (u : Span) × Measures n u ((future - past) / 1000)
      × (since parse future (some a) ≡ ago n (letter u))
      × (until parse past (some b) ≡ ahead n (letter u))
unfolding since until
since-mirrors-until parse past future a b pa pb =
    let (n, u, m, s, t) = printed ((future - past) / 1000) in (n, u, m, rw pa s, rw pb t)

-- A duration is printed as the whole seconds, rounded to the nearest, in seconds below a minute, in
-- minutes and seconds below an hour, and from there on in hours and whole minutes.
pub duration-reads :
    (total : ℕ)
    → ((duration_seconds total ≡ decimal total ++ codes "s") × (total < 60))
      ⊎ ((m s : ℕ) × (duration_seconds total ≡ decimal m ++ codes "m " ++ decimal s ++ codes "s")
          × (total ≡ 60 * m + s)
          × (0 < m)
          × (m < 60)
          × (s < 60))
      ⊎ ((h m : ℕ) × (duration_seconds total ≡ decimal h ++ codes "h " ++ decimal m ++ codes "m")
          × (3600 * h + 60 * m ≤ total)
          × (total < 3600 * h + 60 * m + 60)
          × (0 < h)
          × (m < 60))
unfolding duration_seconds
duration-reads total = elim (Bool-cases (ltb total 60)) [
  | inl s ↦ inl (ground (arith, s), ground arith)
  | inr ns ↦ elim (Bool-cases (ltb total 3600)) [
    | inl m ↦ inr (
        inl (
          total / 60,
          total % 60,
          ground (arith, ns, m),
          omega arith,
          ground arith,
          ground arith,
          omega arith,
        ))
    | inr nm ↦ inr (
        inr (
          total / 3600,
          (total % 3600) / 60,
          ground (arith, ns, nm),
          omega arith,
          omega arith,
          ground arith,
          omega arith,
        ))
  ]
]
