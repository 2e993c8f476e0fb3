-- ===== src/Bulk/Free.antt =====
-- The loop of `freeName` ends, with a name that no service has.
use vexdock.Base.{
  ℕ, zero, suc, ◌≤◌, ◌<◌, ◌≡◌, ◌≢◌, refl, sym, ap, ◌∙◌, ◌⊎◌, inl, inr, true, false, some, List, [],
  ◌∷◌, ◌++◌, length, drop, drop-append_length, if◌then◌else◌, arith, ◌==◌, ==_iff, Bool-cases,
}
use mathlib.Core.Option.{some-injective}
use vexdock.Text.{Text, text_eq, text_eq_iff, decimal}
use vexdock.Text.Decimal.{decimal-injective}
use vexdock.Bulk.Names.{has, copy_of, numbered, free_suffix, free_name}

remove : Text → List Text → List Text
remove s [] = []
remove s (t ∷ ts) = let rest = remove s ts in if text_eq s t then rest else t ∷ rest

length-remove : (s : Text) (l : List Text) → length (remove s l) ≤ length l
unfolding remove
length-remove s [] = omega arith
length-remove s (t ∷ ts) = ground (arith, length-remove s ts)

remove-shorter : (s : Text) (l : List Text) → has s l ≡ true → length (remove s l) < length l
unfolding remove
remove-shorter s [] h = ground arith
remove-shorter s (t ∷ ts) h = elim (Bool-cases (text_eq s t)) [
  | inl e ↦ rw e (omega (arith, length-remove s ts))
  | inr ne ↦ rw ne (omega (arith, remove-shorter s ts (rw ne at h)))
]

has-remove : (s t : Text) (l : List Text) → text_eq t s ≡ false → has t (remove s l) ≡ has t l
unfolding remove
has-remove s t [] ne = refl
has-remove s t (u ∷ l) ne = elim (Bool-cases (text_eq s u)) [
  | inl e ↦ rw (e, sym ((text_eq_iff s u).0 e), ne, has-remove s t l ne)
  | inr other ↦ rw (other, has-remove s t l ne)
]

numbered-ne : (copy : Text) (i j : ℕ) → i ≢ j → text_eq (numbered copy i) (numbered copy j) ≡ false
numbered-ne copy i j ne = elim (Bool-cases (text_eq (numbered copy i) (numbered copy j))) [
  | inr e ↦ e
  | inl e ↦ elim (ne (decimal-injective i j (tails ((text_eq_iff _ _).0 e)))) [ ]
]
  where
    tails : copy ++ b'-' ∷ decimal i ≡ copy ++ b'-' ∷ decimal j → decimal i ≡ decimal j
    tails e =
        sym (ap (drop 1) (drop-append_length copy (b'-' ∷ decimal i)))
        ∙ ap (λ r. drop 1 (drop (length copy) r)) e
        ∙ ap (drop 1) (drop-append_length copy (b'-' ∷ decimal j))

module _ (copy : Text) where
  -- The loop looks at the names from `n` on.
  free_suffix-same :
      (fuel n : ℕ) (l m : List Text)
      → ((j : ℕ) → n ≤ j → has (numbered copy j) l ≡ has (numbered copy j) m)
      → free_suffix fuel copy l n ≡ free_suffix fuel copy m n
  unfolding free_suffix
  free_suffix-same zero n l m same = refl
  free_suffix-same (suc fuel) n l m same =
      rw (same n (omega arith), free_suffix-same fuel (suc n) l m (λ j le. same j (omega arith)))

  -- Every round meets another name that is taken, and there are no more of them than services.
  free_suffix-found :
      (fuel n : ℕ) (l : List Text)
      → length l < fuel
      → (j : ℕ) × (free_suffix fuel copy l n ≡ some j)
  unfolding free_suffix
  free_suffix-found zero n l le = ground arith
  free_suffix-found (suc fuel) n l le = elim (Bool-cases (has (numbered copy n) l)) [
    | inr free ↦ (n, rw free)
    | inl used ↦
        (rw (used, free_suffix-same fuel (suc n) l (remove (numbered copy n) l) (others n l))
          (free_suffix-found fuel (suc n) (remove (numbered copy n) l)
            (omega (arith, remove-shorter (numbered copy n) l used))))
  ]
    where
      others :
          (n : ℕ) (l : List Text) (j : ℕ)
          → suc n ≤ j
          → has (numbered copy j) l ≡ has (numbered copy j) (remove (numbered copy n) l)
      others n l j le =
          sym
            (has-remove (numbered copy n) (numbered copy j) l (numbered-ne copy j n (omega arith)))

  -- `j` is the first free number from `n` on.
  abbrev pub IsFirst : List Text → ℕ → ℕ → Type 0
  IsFirst taken n j =
      (n ≤ j)
      × (has (numbered copy j) taken ≡ false)
      × ((i : ℕ) → n ≤ i → i < j → has (numbered copy i) taken ≡ true)

  IsFirst-now : {n j : ℕ} (l : List Text) → n ≡ j → has (numbered copy n) l ≡ false → IsFirst l n j
  IsFirst-now l e free = (omega (arith, e), rw (sym e) free, λ i le lt. ground arith)

  IsFirst-later :
      (n j : ℕ) (l : List Text)
      → has (numbered copy n) l ≡ true
      → IsFirst l (suc n) j
      → IsFirst l n j
  IsFirst-later n j l used (le, free, full) = (
    omega arith,
    free,
    λ i lo hi. elim (Bool-cases (n == i)) [
      | inl e ↦ rw (sym ((==_iff n i).0 e)) used
      | inr ne ↦ full i (ground arith) hi
    ],
  )

  free_suffix-IsFirst :
      (fuel n j : ℕ) (l : List Text) → free_suffix fuel copy l n ≡ some j → IsFirst l n j
  unfolding free_suffix
  free_suffix-IsFirst zero n j l e = ground arith
  free_suffix-IsFirst (suc fuel) n j l e = elim (Bool-cases (has (numbered copy n) l)) [
    | inr free ↦ IsFirst-now l (some-injective n j (rw free at e)) free
    | inl used ↦ IsFirst-later n j l used (free_suffix-IsFirst fuel (suc n) j l (rw used at e))
  ]

-- The name that a duplicate of `base` is given: the copy's name where that is free, and otherwise
-- with the first number from 2 that makes a free one.
abbrev pub IsFreeName : Text → List Text → Text → Type 0
IsFreeName base taken name =
    (name ≡ copy_of base)
    ⊎ ((k : ℕ) × (name ≡ numbered (copy_of base) k)
        × (has (copy_of base) taken ≡ true)
        × IsFirst (copy_of base) taken 2 k)

-- `freeName` ends, whatever names are taken, with a name that is not: `-copy`, or with the first
-- number from 2 on that is free where that is taken.
pub free_name-found :
    (base : Text) (taken : List Text)
    → (name : Text) × (free_name base taken ≡ some name)
      × (has name taken ≡ false)
      × IsFreeName base taken name
unfolding free_name
free_name-found base taken = elim (Bool-cases (has (copy_of base) taken)) [
  | inr free ↦ (copy_of base, rw free, free, inl refl)
  | inl used ↦
      (let (k, e) = free_suffix-found (copy_of base) (suc (length taken)) 2 taken (omega arith) in
        let first = free_suffix-IsFirst (copy_of base) (suc (length taken)) 2 k taken e in
        (numbered (copy_of base) k, rw (used, e), first.1, inr (k, refl, used, first)))
]
