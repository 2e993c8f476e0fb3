-- ===== src/Bulk/Names.antt =====
-- `freeName` of apps/web/src/components/service-bulk-actions.tsx.
use vexdock.Base.{
  ℕ, zero, suc, Bool, Option, none, some, List, ◌∷◌, ◌++◌, any, length, if◌then◌else◌,
}
use vexdock.Text.{Text, codes, text_eq, decimal}

-- `taken.has(name)`
abbrev pub has : Text → List Text → Bool
has name taken = any (text_eq name) taken

abbrev pub copy_of : Text → Text
copy_of base = base ++ codes "-copy"

abbrev pub numbered : Text → ℕ → Text
numbered copy suffix = copy ++ b'-' ∷ decimal suffix

-- The loop, and the suffix it ends with. `none` is a loop that runs out of fuel.
unfoldable pub free_suffix : ℕ → Text → List Text → ℕ → Option ℕ
free_suffix zero copy taken suffix = none
free_suffix (suc fuel) copy taken suffix =
    let next = free_suffix fuel copy taken (suc suffix) in
    if has (numbered copy suffix) taken then next else some suffix

abbrev pub with_suffix : Text → Option ℕ → Option Text
with_suffix copy none = none
with_suffix copy (some suffix) = some (numbered copy suffix)

unfoldable pub free_name : Text → List Text → Option Text
free_name base taken =
    if has (copy_of base) taken
    then with_suffix (copy_of base) (free_suffix (suc (length taken)) (copy_of base) taken 2)
    else some (copy_of base)
