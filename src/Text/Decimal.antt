-- ===== src/Text/Decimal.antt =====
-- Decimal numbers read back.
use vexdock.Base.{
  refl, ◌≢◌, ◌&&◌, leb, all, Bool, true, ℕ, zero, suc, ◌+◌, ◌/◌, ◌%◌, ◌<◌, ◌≡◌, sym, ap, ◌∙◌, inl,
  inr, [], ◌∷◌, arith, ◌==◌, Bool-cases,
}
use vexdock.Text.{Text, number, decimal, decimal_onto}

number-decimal_onto :
    (fuel n : ℕ) (out : Text) → n < fuel → number 0 (decimal_onto fuel n out) ≡ number n out
unfolding number decimal_onto
number-decimal_onto zero n out l = ground arith
number-decimal_onto (suc fuel) n out l = elim (Bool-cases (n / 10 == 0)) [
  | inl small ↦ rw small (ap (λ k. number k out) (ground arith))
  | inr large ↦
      rw (large, number-decimal_onto fuel (n / 10) ((b'0' + n % 10) ∷ out) (ground arith))
        (ap (λ k. number k out) (ground arith))
]

pub number-decimal : (n : ℕ) → number 0 (decimal n) ≡ n
unfolding decimal number
number-decimal n = number-decimal_onto (suc n) n [] (omega arith)

pub decimal-injective : (m n : ℕ) → decimal m ≡ decimal n → m ≡ n
decimal-injective m n e = sym (number-decimal m) ∙ ap (number 0) e ∙ number-decimal n

abbrev is_decimal : ℕ → Bool
is_decimal c = leb b'0' c && leb c b'9'

digit-is_decimal : (n : ℕ) → is_decimal (b'0' + n % 10) ≡ true
digit-is_decimal n = ground arith

all-decimal_onto :
    (fuel n : ℕ) (out : Text)
    → all is_decimal out ≡ true
    → all is_decimal (decimal_onto fuel n out) ≡ true
unfolding decimal_onto
all-decimal_onto zero n out h = h
all-decimal_onto (suc fuel) n out h = elim (Bool-cases (n / 10 == 0)) [
  | inl small ↦ rw (small, digit-is_decimal n) h
  | inr large ↦
      rw large (all-decimal_onto fuel (n / 10) ((b'0' + n % 10) ∷ out) (rw (digit-is_decimal n) h))
]

pub all-decimal : (n : ℕ) → all (λ c. leb b'0' c && leb c b'9') (decimal n) ≡ true
unfolding decimal
all-decimal n = all-decimal_onto (suc n) n [] refl

filled_onto : (fuel n c : ℕ) (out : Text) → decimal_onto fuel n (c ∷ out) ≢ []
unfolding decimal_onto
filled_onto zero n c out e = absurd (cc)
filled_onto (suc fuel) n c out e = elim (Bool-cases (n / 10 == 0)) [
  | inl small ↦ absurd (ground arith)
  | inr large ↦ filled_onto fuel (n / 10) (b'0' + n % 10) (c ∷ out) (rw large at e)
]

pub decimal-ne-nil : (n : ℕ) → decimal n ≢ []
unfolding decimal decimal_onto
decimal-ne-nil n e = elim (Bool-cases (n / 10 == 0)) [
  | inl small ↦ absurd (ground arith)
  | inr large ↦ filled_onto n (n / 10) (b'0' + n % 10) [] (rw large at e)
]
