-- ===== src/LogView/Last.antt =====
-- `slice(-n)` for a positive `n`: the last elements of a list.
use vexdock.Base.{
  ℕ, zero, suc, ◌+◌, ◌-◌, ◌≤◌, ◌<◌, ◌≡◌, refl, sym, ap, ◌∙◌, ◌⊎◌, inl, inr, List, [], ◌∷◌, ◌++◌,
  length, drop, length-append, drop-append_length, arith,
}

short_or_long : (m n : ℕ) → (m ≤ n) ⊎ (n < m)
short_or_long m n = ground arith

module _ {ℓ} {A : Type ℓ} where
  -- `slice(-n)`
  unfoldable pub last : ℕ → List A → List A
  last n xs = drop (length xs - n) xs

  drop-append : (k : ℕ) (xs ys : List A) → k ≤ length xs → drop k (xs ++ ys) ≡ drop k xs ++ ys
  drop-append zero xs ys l = refl
  drop-append (suc k) [] ys l = ground arith
  drop-append (suc k) (x ∷ xs) ys l = drop-append k xs ys (omega (arith, l))

  drop-nil : (k : ℕ) → drop {A = A} k [] ≡ []
  drop-nil zero = refl
  drop-nil (suc k) = refl

  drop-plus : (j k : ℕ) (xs : List A) → drop (j + k) xs ≡ drop k (drop j xs)
  drop-plus zero k xs = ap (λ n. drop n xs) (omega arith)
  drop-plus (suc j) k [] = drop-nil (suc j + k) ∙ sym (drop-nil k)
  drop-plus (suc j) k (x ∷ xs) = ap (λ n. drop n (x ∷ xs)) (plus_suc j k) ∙ drop-plus j k xs
    where
      plus_suc : (j k : ℕ) → suc j + k ≡ suc (j + k)
      plus_suc j k = omega arith

  length-drop : (k : ℕ) (xs : List A) → length (drop k xs) ≡ length xs - k
  length-drop zero xs = omega arith
  length-drop (suc k) [] = omega arith
  length-drop (suc k) (x ∷ xs) = omega (arith, length-drop k xs)

  pub last-short : (n : ℕ) (xs : List A) → length xs ≤ n → last n xs ≡ xs
  unfolding last
  last-short n xs l = ap (λ k. drop k xs) (none_over (length xs) l)
    where
      none_over : (m : ℕ) → m ≤ n → m - n ≡ 0
      none_over m l = omega arith

  pub length-last : (n : ℕ) (xs : List A) → length (last n xs) ≤ n
  unfolding last
  length-last n xs = omega (arith, length-drop (length xs - n) xs)

  length-last_long : (n : ℕ) (xs : List A) → n ≤ length xs → length (last n xs) ≡ n
  unfolding last
  length-last_long n xs l = omega (arith, length-drop (length xs - n) xs)

  last-behind : (n : ℕ) (xs ys : List A) → n ≤ length ys → last n (xs ++ ys) ≡ last n ys
  unfolding last
  last-behind n xs ys l =
      ap (λ k. drop k (xs ++ ys)) (omega (arith, length-append xs ys, l))
      ∙ drop-plus (length xs) (length ys - n) (xs ++ ys)
      ∙ ap (drop (length ys - n)) (drop-append_length xs ys)

  -- What is cut off in front of a list's end stays cut off behind another list.
  pub last-append_last : (n : ℕ) (xs ys : List A) → last n (xs ++ last n ys) ≡ last n (xs ++ ys)
  last-append_last n xs ys = elim (short_or_long (length ys) n) [
    | inl short ↦ ap (λ zs. last n (xs ++ zs)) (last-short n ys short)
    | inr long ↦
        last-behind n xs (last n ys) (omega (arith, length-last_long n ys (omega (arith, long))))
        ∙ last-short n (last n ys) (length-last n ys)
        ∙ sym (last-behind n xs ys (omega (arith, long)))
  ]

  pub last-last_append : (n : ℕ) (xs ys : List A) → last n (last n xs ++ ys) ≡ last n (xs ++ ys)
  unfolding last
  last-last_append n xs ys = elim (short_or_long (length xs) n) [
    | inl short ↦ ap (λ zs. last n (zs ++ ys)) (last-short n xs short)
    | inr long ↦
        ap (λ k. drop k (last n xs ++ ys))
          (omega (arith, length-append (last n xs) ys, length-last_long n xs (omega (arith, long))))
        ∙ ap (drop (length ys)) (sym (drop-append (length xs - n) xs ys (omega arith)))
        ∙ sym (drop-plus (length xs - n) (length ys) (xs ++ ys))
        ∙ ap (λ k. drop k (xs ++ ys)) (omega (arith, length-append xs ys, long))
  ]
