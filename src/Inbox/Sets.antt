-- ===== src/Inbox/Sets.antt =====
-- Lists of ids as sets, in apps/web/src/components/deployment-inbox.tsx.
use mathlib.Core.Path.{subst}
use vexdock.Base.{
  ◌≡◌, inl, inr, refl, sym, ap, ◌∙◌, Bool, true, false, ◌||◌, List, [], ◌∷◌, ◌++◌, arith,
  Bool-cases, append_assoc, append-nil,
}
use vexdock.Text.{Text, text_eq, text_eq_iff}
use vexdock.Inbox.Store.{has, add, delete_id, set_onto, put}

pub has-append :
    (id x : Text) (ids : List Text) → has id (ids ++ x ∷ []) ≡ (has id ids || text_eq id x)
has-append id x [] = ground arith
has-append id x (y ∷ ids) = ground (arith, has-append id x ids)

has-delete_same : (id : Text) (ids : List Text) → has id (delete_id id ids) ≡ false
has-delete_same id [] = refl
has-delete_same id (y ∷ ids) = ground (arith, has-delete_same id ids)

same_as : (a b c : Text) → text_eq a b ≡ true → text_eq a c ≡ text_eq b c
same_as a b c h = ap (λ x. text_eq x c) ((text_eq_iff a b).0 h)

text_eq-sym : (a b : Text) → text_eq a b ≡ false → text_eq b a ≡ false
text_eq-sym a b h = elim (Bool-cases (text_eq b a)) [
  | inl same ↦ absurd (cc ((text_eq_iff a b).1 (sym ((text_eq_iff b a).0 same)), h))
  | inr other ↦ other
]

has-delete_other :
    (id x : Text) (ids : List Text) → text_eq id x ≡ false → has id (delete_id x ids) ≡ has id ids
has-delete_other id x [] h = refl
has-delete_other id x (y ∷ ids) h = elim (Bool-cases (text_eq x y)) [
  | inl same ↦ rw (same, sym ((text_eq_iff x y).0 same), h) (has-delete_other id x ids h)
  | inr other ↦ rw other (ap (λ b. text_eq id y || b) (has-delete_other id x ids h))
]

has-add_same : (id : Text) (ids : List Text) → has id (add id ids) ≡ true
has-add_same id ids = elim (Bool-cases (has id ids)) [
  | inl there ↦ rw there there
  | inr missing ↦ rw missing (has-append id id ids ∙ ground (arith, (text_eq_iff id id).1 refl))
]

has-add_other :
    (id x : Text) (ids : List Text) → text_eq id x ≡ false → has id (add x ids) ≡ has id ids
has-add_other id x ids h = elim (Bool-cases (has x ids)) [
  | inl there ↦ rw there refl
  | inr missing ↦ rw missing (has-append id x ids ∙ ground (arith, h))
]

-- What a set holds after a write.
pub has-put_same : (id : Text) (on : Bool) (ids : List Text) → has id (put id on ids) ≡ on
has-put_same id true ids = has-add_same id ids
has-put_same id false ids = has-delete_same id ids

pub has-put_other :
    (id x : Text) (on : Bool) (ids : List Text)
    → text_eq id x ≡ false
    → has id (put x on ids) ≡ has id ids
has-put_other id x true ids h = has-add_other id x ids h
has-put_other id x false ids h = has-delete_other id x ids h

pub or_left : (a b : Bool) → (a || b) ≡ false → a ≡ false
or_left a b h = ground arith

pub or_right : (a b : Bool) → (a || b) ≡ false → b ≡ false
or_right a b h = ground arith

has-middle : (y x : Text) (ids xs : List Text) → has y (ids ++ x ∷ xs) ≡ false → text_eq y x ≡ false
has-middle y x [] xs h = or_left (text_eq y x) _ h
has-middle y x (z ∷ ids) xs h = has-middle y x ids xs (or_right (text_eq y z) _ h)

-- No id stands in the list twice.
abbrev pub AreDistinct : List Text → Type 0
AreDistinct [] = Unit
AreDistinct (x ∷ xs) = (has x xs ≡ false) × AreDistinct xs

append-AreDistinct :
    (ids : List Text) (x : Text) → AreDistinct ids → has x ids ≡ false → AreDistinct (ids ++ x ∷ [])
append-AreDistinct [] x d h = (refl, tt)
append-AreDistinct (y ∷ ids) x d h = (
  has-append y x ids ∙ or_false d.0 (text_eq-sym x y (or_left (text_eq x y) _ h)),
  append-AreDistinct ids x d.1 (or_right (text_eq x y) _ h),
)
  where
    or_false : {a b : Bool} → a ≡ false → b ≡ false → (a || b) ≡ false
    or_false ha hb = rw (ha, hb) refl

add-AreDistinct : (id : Text) (ids : List Text) → AreDistinct ids → AreDistinct (add id ids)
add-AreDistinct id ids d = elim (Bool-cases (has id ids)) [
  | inl there ↦ rw there d
  | inr missing ↦ rw missing (append-AreDistinct ids id d missing)
]

has-delete_none :
    (x id : Text) (ids : List Text) → has x ids ≡ false → has x (delete_id id ids) ≡ false
has-delete_none x id [] h = refl
has-delete_none x id (y ∷ ids) h = elim (Bool-cases (text_eq id y)) [
  | inl same ↦ rw same (has-delete_none x id ids (or_right (text_eq x y) _ h))
  | inr other ↦
      rw (other, or_left (text_eq x y) _ h) (has-delete_none x id ids (or_right (text_eq x y) _ h))
]

delete_id-AreDistinct :
    (id : Text) (ids : List Text) → AreDistinct ids → AreDistinct (delete_id id ids)
delete_id-AreDistinct id [] d = tt
delete_id-AreDistinct id (y ∷ ids) d = elim (Bool-cases (text_eq id y)) [
  | inl same ↦ rw same (delete_id-AreDistinct id ids d.1)
  | inr other ↦ rw other (has-delete_none y id ids d.0, delete_id-AreDistinct id ids d.1)
]

pub put-AreDistinct :
    (id : Text) (on : Bool) (ids : List Text) → AreDistinct ids → AreDistinct (put id on ids)
put-AreDistinct id true ids d = add-AreDistinct id ids d
put-AreDistinct id false ids d = delete_id-AreDistinct id ids d

pub set_onto-AreDistinct : (ids xs : List Text) → AreDistinct ids → AreDistinct (set_onto ids xs)
set_onto-AreDistinct ids [] d = d
set_onto-AreDistinct ids (x ∷ xs) d = set_onto-AreDistinct (add x ids) xs (add-AreDistinct x ids d)

differ-missing :
    (ids : List Text) (x : Text) (xs : List Text) → AreDistinct (ids ++ x ∷ xs) → has x ids ≡ false
differ-missing [] x xs d = refl
differ-missing (y ∷ ids) x xs d =
    rw (text_eq-sym y x (has-middle y x ids xs d.0)) (differ-missing ids x xs d.1)

-- Reading back distinct ids gives them as they are.
pub set_onto-distinct : (ids xs : List Text) → AreDistinct (ids ++ xs) → set_onto ids xs ≡ ids ++ xs
set_onto-distinct ids [] d = sym (append-nil ids)
set_onto-distinct ids (x ∷ xs) d = rw (differ-missing ids x xs d) (
    set_onto-distinct (ids ++ x ∷ []) xs (subst AreDistinct (sym (append_assoc ids (x ∷ []) xs)) d)
    ∙ append_assoc ids (x ∷ []) xs)
