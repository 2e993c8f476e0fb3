-- ===== src/Crumbs/Walk.antt =====
-- The arrow keys of `CrumbPicker` in apps/web/src/components/crumb-picker.tsx walk the list in a ring.
use native.Mathlib.Nat.{mod-lt, mod-eq_of_lt, mod-add-mod, add-mod_right}
use vexdock.Base.{
  ℕ, zero, suc, ◌+◌, ◌-◌, ◌%◌, ◌<◌, ◌≡◌, refl, sym, ap, ◌∙◌, false, some, List, [], ◌∷◌, arith,
  ◌==◌, length, get_elem?,
}
use vexdock.Crumbs.Picker.{Choice, Picker, min, active, moved, on_key, arrow_down, arrow_up, enter}

regroup : (a n : ℕ) → a + (1 + n) ≡ a + 1 + n
regroup a n = omega arith

plus_zero : (a : ℕ) → a + 0 ≡ a
plus_zero a = omega arith

one_more : (a k : ℕ) → a + k + 1 ≡ a + suc k
one_more a k = omega arith

min-below : (a n : ℕ) → a < n → min a (n - 1) ≡ a
min-below a n l = ground (arith, l)

not_zero : (n : ℕ) → 0 < n → (n == 0) ≡ false
not_zero n l = ground (arith, l)

positive : (j n : ℕ) → j < n → 0 < n
positive j n l = omega (arith, l)

around : (a n j : ℕ) → a < n → a + (n - a + j) ≡ j + n
around a n j l = omega (arith, l)

back : (a n : ℕ) → 0 < n → a + 1 + (n - 1) ≡ a + n
back a n l = omega (arith, l)

get_elem-below :
    {A : Type 0} (xs : List A) (j : ℕ) (x : A) → get_elem? xs j ≡ some x → j < length xs
get_elem-below [] j x h = absurd (cc h)
get_elem-below (y ∷ xs) zero x h = omega arith
get_elem-below (y ∷ xs) (suc j) x h = omega (arith, get_elem-below xs j x h)

module _ {T : Type 0} where
  -- The place of the option that is highlighted.
  abbrev pub place : Picker → List (Choice T) → ℕ
  place p list = min p.active_index (length list - 1)

  place-below : (p : Picker) (list : List (Choice T)) → 0 < length list → place p list < length list
  place-below p list l = ground (arith, l)

  place-moved :
      (step : ℕ) (p : Picker) (list : List (Choice T))
      → 0 < length list
      → place (moved step p list) list ≡ (place p list + step) % length list
  place-moved step p list l = rw (not_zero (length list) l) (
      min-below ((place p list + step) % length list) (length list)
        (mod-lt (place p list + step) l))

  -- The down key, pressed `k` times.
  abbrev pub downs : ℕ → Picker → List (Choice T) → Picker
  downs zero p list = p
  downs (suc k) p list = (on_key arrow_down (downs k p list) list).0

  place-down :
      (p : Picker) (list : List (Choice T))
      → 0 < length list
      → place (on_key arrow_down p list).0 list ≡ (place p list + 1) % length list
  unfolding on_key
  place-down p list l =
      place-moved (1 + length list) p list l
      ∙ ap (λ n. n % length list) (regroup (place p list) (length list))
      ∙ add-mod_right (place p list + 1) (length list)

  place-downs :
      (k : ℕ) (p : Picker) (list : List (Choice T))
      → 0 < length list
      → place (downs k p list) list ≡ (place p list + k) % length list
  place-downs zero p list l =
      sym
        (ap (λ n. n % length list) (plus_zero (place p list)) ∙ mod-eq_of_lt (place-below p list l))
  place-downs (suc k) p list l =
      place-down (downs k p list) list l
      ∙ ap (λ n. (n + 1) % length list) (place-downs k p list l)
      ∙ mod-add-mod (place p list + k) (length list) 1
      ∙ ap (λ n. n % length list) (one_more (place p list) k)

  enter-picks :
      (p : Picker) (list : List (Choice T)) (c : Choice T)
      → get_elem? list (place p list) ≡ some c
      → on_key enter p list ≡ (record p { is_open = false }, some c.target)
  unfolding on_key active
  enter-picks p list c h = rw h refl

  reached :
      (p : Picker) (list : List (Choice T)) (j : ℕ)
      → j < length list
      → place (downs (length list - place p list + j) p list) list ≡ j
  reached p list j l =
      let some_member = positive j (length list) l in
      place-downs (length list - place p list + j) p list some_member
      ∙ ap (λ n. n % length list)
          (around (place p list) (length list) j (place-below p list some_member))
      ∙ add-mod_right j (length list)
      ∙ mod-eq_of_lt l

  -- Any option that is shown is reached with the down key alone, from wherever the highlight is, also
  -- from behind the end of a list that has become shorter, and Enter then picks it and closes the list.
  pub on_key-reaches :
      (p : Picker) (list : List (Choice T)) (j : ℕ) (c : Choice T)
      → get_elem? list j ≡ some c
      → on_key enter (downs (length list - place p list + j) p list) list ≡ (
        record (downs (length list - place p list + j) p list) { is_open = false },
        some c.target,
      )
  on_key-reaches p list j c h =
      enter-picks (downs (length list - place p list + j) p list) list c
        (ap (get_elem? list) (reached p list j (get_elem-below list j c h)) ∙ h)

  -- The up key takes back the down key.
  place-up_down :
      (p : Picker) (list : List (Choice T))
      → 0 < length list
      → place (on_key arrow_up (on_key arrow_down p list).0 list).0 list ≡ place p list
  place-up_down p list l =
      unfold on_key in
      place-moved (length list - 1) (on_key arrow_down p list).0 list l
      ∙ ap (λ n. (n + (length list - 1)) % length list) (place-down p list l)
      ∙ mod-add-mod (place p list + 1) (length list) (length list - 1)
      ∙ ap (λ n. n % length list) (back (place p list) (length list) l)
      ∙ add-mod_right (place p list) (length list)
      ∙ mod-eq_of_lt (place-below p list l)
