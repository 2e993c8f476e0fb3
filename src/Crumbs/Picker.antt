-- ===== src/Crumbs/Picker.antt =====
-- `CrumbPicker` of apps/web/src/components/crumb-picker.tsx: a list that is searched and walked by
-- keys. `toLowerCase` is a parameter.
use vexdock.Base.{
  ℕ, ◌+◌, ◌-◌, ◌%◌, Bool, true, false, Option, none, some, List, [], leb, ◌==◌, length, get_elem?,
  filter, if◌then◌else◌,
}
use vexdock.Text.{Text, trim}
use vexdock.LogView.View.{includes}

-- `target` is what `onSelect` does.
pub record Choice (T : Type 0) : Type 0 where
  pub id : Text
  pub search : Text
  pub current : Bool
  pub target : T

pub record Picker : Type 0 where
  pub is_open : Bool
  pub search : Text
  pub active_index : ℕ

pub data Key : Type 0 where
  arrow_down arrow_up enter other_key : Key

-- `Math.min`
abbrev pub min : ℕ → ℕ → ℕ
min a b = if leb a b then a else b

abbrev pub or_none {ℓ} : {A : Type ℓ} → Option (List A) → List A
or_none none = []
or_none (some xs) = xs

-- `onOpenChange`
abbrev pub open_change : Bool → Picker → Picker
open_change true p = record { is_open = true; search = []; active_index = 0 }
open_change false p = record p { is_open = false }

-- `onValueChange` of the search box.
abbrev pub search_change : Text → Picker → Picker
search_change typed p = record p { search = typed; active_index = 0 }

-- `onPointerMove` on the option at `index`.
abbrev pub point_at : ℕ → Picker → Picker
point_at index p = record p { active_index = index }

module _ {T : Type 0} where
  unfoldable pub shown : (Text → Text) → Picker → Option (List (Choice T)) → List (Choice T)
  shown lower p choices =
      filter (λ c. includes (lower (trim p.search)) (lower c.search)) (or_none choices)

  -- `shown[Math.min(activeIndex, shown.length - 1)]`; an empty list has no member at -1.
  unfoldable pub active : Picker → List (Choice T) → Option (Choice T)
  active p list = get_elem? list (min p.active_index (length list - 1))

  -- `(Math.min(activeIndex, shown.length - 1) + step + shown.length) % shown.length`
  abbrev pub moved : ℕ → Picker → List (Choice T) → Picker
  moved step p list =
      if length list == 0
      then p
      else record p { active_index = (min p.active_index (length list - 1) + step) % length list }

  -- `pick`
  abbrev pub pick_active : Picker → Option (Choice T) → Picker × Option T
  pick_active p none = (p, none)
  pick_active p (some c) = (record p { is_open = false }, some c.target)

  -- `onKeyDown`: the next state, and what `onSelect` does if it is called.
  unfoldable pub on_key : Key → Picker → List (Choice T) → Picker × Option T
  on_key arrow_down p list = (moved (1 + length list) p list, none)
  on_key arrow_up p list = (moved (length list - 1) p list, none)
  on_key enter p list = pick_active p (active p list)
  on_key other_key p list = (p, none)

  -- `onClick` on the option at `index`.
  abbrev pub click : ℕ → Picker → List (Choice T) → Picker × Option T
  click index p list = pick_active p (get_elem? list index)
