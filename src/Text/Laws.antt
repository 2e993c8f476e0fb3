-- ===== src/Text/Laws.antt =====
-- Laws of the string methods.
use vexdock.Base.{
  ℕ, ◌≤◌, ◌<◌, ◌≡◌, ◌≢◌, inl, inr, refl, ap, ◌∙◌, Bool, true, false, ◌||◌, some, List, [], ◌∷◌,
  ◌++◌, arith, ◌==◌, length, any, All, Bool-cases, append_assoc,
}
use vexdock.Text.{
  Text, text_eq, text_eq_iff, is_space, trim_start, trim_end, trim, index_of, split, join,
  replace_all,
}

-- The character `c` does not occur.
abbrev pub Lacks : ℕ → Text → Type 0
Lacks c s = any (λ x. x == c) s ≡ false

pub Lacks-append : (c : ℕ) (s t : Text) → Lacks c s → Lacks c t → Lacks c (s ++ t)
Lacks-append c [] t hs ht = ht
Lacks-append c (x ∷ s) t hs ht = ground (arith, Lacks-append c s t)

pub any-append : (p : ℕ → Bool) (s t : Text) → any p (s ++ t) ≡ (any p s || any p t)
any-append p [] t = refl
any-append p (x ∷ s) t = ground (arith, any-append p s t)

-- A text is trimmed once its last character is no space, whatever stands in front.
pub trim_end-append :
    (s t : Text) (c : ℕ) → trim_end (c ∷ t) ≡ c ∷ t → trim_end (s ++ c ∷ t) ≡ s ++ c ∷ t
unfolding trim_end
trim_end-append [] t c h = h
trim_end-append (x ∷ []) t c h = rw h
trim_end-append (x ∷ y ∷ s) t c h = rw (trim_end-append (y ∷ s) t c h)

pub trim_end-solid : (s : Text) → any is_space s ≡ false → trim_end s ≡ s
unfolding trim_end
trim_end-solid [] h = refl
trim_end-solid (c ∷ []) h = ground arith
trim_end-solid (c ∷ d ∷ s) h = let ih = trim_end-solid (d ∷ s) (ground arith) in rw ih

pub length-trim_end : (s : Text) → length (trim_end s) ≤ length s
unfolding trim_end
length-trim_end [] = omega arith
length-trim_end (c ∷ s) = ground (arith, length-trim_end s)

pub length-trim_start : (s : Text) → length (trim_start s) ≤ length s
unfolding trim_start
length-trim_start [] = omega arith
length-trim_start (c ∷ s) = ground (arith, length-trim_start s)

trim-shorter : (c : ℕ) (s : Text) → is_space c ≡ true → length (trim (c ∷ s)) < length (c ∷ s)
unfolding trim trim_start
trim-shorter c s h = rw h (omega (arith, length-trim_end (trim_start s), length-trim_start s))

-- A trimmed text does not begin with a space.
pub trim-head : (c : ℕ) (s : Text) → trim (c ∷ s) ≡ c ∷ s → is_space c ≡ false
trim-head c s h = elim (Bool-cases (is_space c)) [
  | inl space ↦ absurd (omega (arith, trim-shorter c s space, ap length h))
  | inr solid ↦ solid
]

pub index_of-append : (c : ℕ) (s t : Text) → Lacks c s → index_of c (s ++ c ∷ t) ≡ some (length s)
unfolding index_of
index_of-append c [] t h = ground arith
index_of-append c (x ∷ s) t h = ground (arith, index_of-append c s t)

pub split-ne-nil : (c : ℕ) (s : Text) → split c s ≢ []
unfolding split
split-ne-nil c [] = ground arith
split-ne-nil c (x ∷ s) = ground arith

pub split-Lacks : (c : ℕ) (s : Text) → Lacks c s → split c s ≡ s ∷ []
unfolding split
split-Lacks c [] h = refl
split-Lacks c (x ∷ s) h = ground (arith, split-Lacks c s)

pub split-append : (c : ℕ) (s t : Text) → Lacks c s → split c (s ++ c ∷ t) ≡ s ∷ split c t
unfolding split
split-append c [] t h = ground arith
split-append c (x ∷ s) t h = ground (arith, split-append c s t)

-- Splitting undoes joining, where no line holds the separator and there is a line.
pub split-join :
    (c : ℕ) (l : Text) (ls : List Text)
    → All (Lacks c) (l ∷ ls)
    → split c (join c (l ∷ ls)) ≡ l ∷ ls
unfolding join
split-join c l [] h = split-Lacks c l h.0
split-join c l (m ∷ ls) h =
    split-append c l (join c (m ∷ ls)) h.0 ∙ ap (λ r. l ∷ r) (split-join c m ls h.1)

pub replace_all-append :
    (c : ℕ) (by s t : Text) → replace_all c by (s ++ t) ≡ replace_all c by s ++ replace_all c by t
unfolding replace_all
replace_all-append c by [] t = refl
replace_all-append c by (x ∷ s) t = simp (replace_all-append c by s t, append_assoc)

-- Texts that `===` tells apart differ.
pub text_eq-ne : (s t : Text) → text_eq s t ≡ false → s ≢ t
text_eq-ne s t h e = absurd (cc ((text_eq_iff s t).1 e, h))
