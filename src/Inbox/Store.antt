-- ===== src/Inbox/Store.antt =====
-- `readIds` and `useStoredIds` of apps/web/src/components/deployment-inbox.tsx. `localStorage` holds a
-- text or nothing under a key; `JSON` is a parameter.
use vexdock.Base.{
  ℕ, Bool, true, false, not, Option, none, some, List, [], ◌∷◌, ◌++◌, any, filter, if◌then◌else◌,
}
use vexdock.Text.{Text, codes, text_eq}
use vexdock.LogView.Last.{last}

-- `parse` is `JSON.parse`: the values of the sequence, or `none` where it throws or there is none.
pub record Json : Type 0 where
  pub parse : Text → Option (List Text)
  pub stringify : List Text → Text

-- A `Set` in the order of its insertions: `has`, `add` and `delete`.
abbrev pub has : Text → List Text → Bool
has id ids = any (text_eq id) ids

abbrev pub add : Text → List Text → List Text
add id ids = if has id ids then ids else ids ++ id ∷ []

abbrev pub delete_id : Text → List Text → List Text
delete_id id ids = filter (λ x. not (text_eq id x)) ids

-- `new Set(values)`, `ids` being in it already.
abbrev pub set_onto : List Text → List Text → List Text
set_onto ids [] = ids
set_onto ids (x ∷ xs) = set_onto (add x ids) xs

abbrev pub or_empty_list : Option Text → Text
or_empty_list none = codes "[]"
or_empty_list (some stored) = stored

abbrev pub set_or_empty : Option (List Text) → List Text
set_or_empty none = []
set_or_empty (some values) = set_onto [] values

unfoldable pub read_ids : Json → Option Text → List Text
read_ids json stored = set_or_empty (json.parse (or_empty_list stored))

abbrev pub put : Text → Bool → List Text → List Text
put id true ids = add id ids
put id false ids = delete_id id ids

-- What the hook holds: the ids of the render, and the item of the storage, which other tabs share.
pub record Held : Type 0 where
  pub ids : List Text
  pub item : Option Text

abbrev pub kept_ids : ℕ
kept_ids = 100

-- `write`
unfoldable pub write : Json → Text → Bool → Held → Held
write json id on h =
    let next = put id on (read_ids json h.item) in
    record { ids = next; item = some (json.stringify (last kept_ids next)) }
