-- ===== src/Inbox/Marked.antt =====
-- Mark all read in apps/web/src/components/deployment-inbox.tsx: the notification center calls
-- `onReadChange` once for each item, in one loop.
use mathlib.Core.Path.{subst}
use vexdock.Base.{
  ◌+◌, ◌≤◌, ◌≡◌, inl, inr, refl, sym, ap, ◌∙◌, Bool, true, false, Option, none, some, List, [], ◌∷◌,
  arith, length, length-append, All, Bool-cases,
}
use vexdock.Text.{Text, text_eq, text_eq_iff}
use vexdock.LogView.Last.{last-short}
use vexdock.Inbox.Store.{
  Json, Held, has, delete_id, put, or_empty_list, set_or_empty, read_ids, kept_ids, write,
}
use vexdock.Inbox.Sets.{
  AreDistinct, has-put_same, has-put_other, put-AreDistinct, set_onto-AreDistinct,
  set_onto-distinct, or_left, or_right,
}

-- One call of `write` for each id.
unfoldable pub write_all : Json → List Text → Bool → Held → Held
write_all json [] on h = h
write_all json (id ∷ ids) on h = write_all json ids on (write json id on h)

-- The same on a set without a bound.
abbrev put_all : List Text → Bool → List Text → List Text
put_all [] on ideal = ideal
put_all (id ∷ ids) on ideal = put_all ids on (put id on ideal)

put-keeps :
    (x id : Text) (on : Bool) (ideal : List Text) → has x ideal ≡ on → has x (put id on ideal) ≡ on
put-keeps x id on ideal h = elim (Bool-cases (text_eq x id)) [
  | inl here ↦
      subst (λ y. has y (put id on ideal) ≡ on) (sym ((text_eq_iff x id).0 here))
        (has-put_same id on ideal)
  | inr other ↦ has-put_other x id on ideal other ∙ h
]

put_all-keeps :
    (x : Text) (ids : List Text) (on : Bool) (ideal : List Text)
    → has x ideal ≡ on
    → has x (put_all ids on ideal) ≡ on
put_all-keeps x [] on ideal h = h
put_all-keeps x (id ∷ ids) on ideal h =
    put_all-keeps x ids on (put id on ideal) (put-keeps x id on ideal h)

put_all-same :
    (ids : List Text) (on : Bool) (ideal : List Text)
    → All (λ x. has x (put_all ids on ideal) ≡ on) ids
put_all-same [] on ideal = tt
put_all-same (id ∷ ids) on ideal = (
  put_all-keeps id ids on (put id on ideal) (has-put_same id on ideal),
  put_all-same ids on (put id on ideal),
)

length-delete_id : (id : Text) (ids : List Text) → length (delete_id id ids) ≤ length ids
length-delete_id id [] = omega arith
length-delete_id id (x ∷ ids) = elim (Bool-cases (text_eq id x)) [
  | inl same ↦ rw same (omega (arith, length-delete_id id ids))
  | inr other ↦ rw other (omega (arith, length-delete_id id ids))
]

length-put : (id : Text) (on : Bool) (ids : List Text) → length (put id on ids) ≤ 1 + length ids
length-put id false ids = omega (arith, length-delete_id id ids)
length-put id true ids = elim (Bool-cases (has id ids)) [
  | inl there ↦ rw there (omega arith)
  | inr missing ↦ rw missing (omega (arith, length-append ids (id ∷ [])))
]

-- What `JSON` documents: a list of texts is read back.
pub record IsFaithful (json : Json) : Type 0 where
  pub read_back : (ids : List Text) → json.parse (json.stringify ids) ≡ some ids

put_all-others :
    (x : Text) (ids : List Text) (on : Bool) (ideal : List Text)
    → has x ids ≡ false
    → has x (put_all ids on ideal) ≡ has x ideal
put_all-others x [] on ideal h = refl
put_all-others x (id ∷ ids) on ideal h =
    put_all-others x ids on (put id on ideal) (or_right (text_eq x id) _ h)
    ∙ has-put_other x id on ideal (or_left (text_eq x id) _ h)

module _ (json : Json) (faithful : IsFaithful json) where
  read_ids-AreDistinct : (item : Option Text) → AreDistinct (read_ids json item)
  unfolding read_ids
  read_ids-AreDistinct item = go (json.parse (or_empty_list item))
    where
      go : (o : Option (List Text)) → AreDistinct (set_or_empty o)
      go none = tt
      go (some values) = set_onto-AreDistinct [] values tt

  read_ids-stringify :
      (ids : List Text) → AreDistinct ids → read_ids json (some (json.stringify ids)) ≡ ids
  unfolding read_ids
  read_ids-stringify ids d = rw (faithful.read_back ids) (set_onto-distinct [] ids d)

  read_ids-write :
      (id : Text) (on : Bool) (h : Held)
      → length (put id on (read_ids json h.item)) ≤ kept_ids
      → read_ids json (write json id on h).item ≡ put id on (read_ids json h.item)
  unfolding write
  read_ids-write id on h few = rw (last-short kept_ids (put id on (read_ids json h.item)) few) (
      read_ids-stringify (put id on (read_ids json h.item))
        (put-AreDistinct id on (read_ids json h.item) (read_ids-AreDistinct h.item)))

  write_all-put_all :
      (ids : List Text) (on : Bool) (h : Held)
      → length (read_ids json h.item) + length ids ≤ kept_ids
      → read_ids json (write_all json ids on h).item ≡ put_all ids on (read_ids json h.item)
  unfolding write_all
  write_all-put_all [] on h few = refl
  write_all-put_all (id ∷ ids) on h few =
      let stored = read_ids json h.item in
      let once = read_ids-write id on h (omega (arith, length-put id on stored)) in
      write_all-put_all ids on (write json id on h)
        (omega (arith, ap length once, length-put id on stored))
      ∙ ap (put_all ids on) once

  -- Where the ids that are stored and those of the loop are at most a hundred, marking the latter in
  -- one loop marks every one of them and changes no other mark: no call undoes what another has
  -- written. JSON reads back what it wrote.
  pub write_all-marks :
      (ids : List Text) (on : Bool) (h : Held)
      → length (read_ids json h.item) + length ids ≤ 100
      → All (λ x. has x (read_ids json (write_all json ids on h).item) ≡ on) ids
        × ((x : Text)
            → has x ids ≡ false
            → has x (read_ids json (write_all json ids on h).item) ≡ has x (read_ids json h.item))
  write_all-marks ids on h few = rw (write_all-put_all ids on h few) (
    put_all-same ids on (read_ids json h.item),
    λ x other. put_all-others x ids on (read_ids json h.item) other,
  )
