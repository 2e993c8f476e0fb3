-- ===== src/EnvEditor/Line.antt =====
-- The colored copy of a text in apps/web/src/components/env-editor.tsx: `LINE`, `Line` and `EnvEditor`,
-- which lays the copy behind the text that is edited.
use vexdock.Base.{
  ℕ, ◌≡◌, inl, inr, refl, sym, ap, ◌∙◌, Bool, not, ◌&&◌, List, [], ◌∷◌, ◌++◌, ◌==◌, if◌then◌else◌,
  map, any, Bool-cases, ==_iff, ◌≢◌,
}
use vexdock.Text.{Text, is_space, is_line_end, trim_start, starts_with, split, split_before, join}
use vexdock.Text.Laws.{split-ne-nil}
use vexdock.Format.Scan.{span, span-append}

pub data Colored : Type 0 where
  comment plain : Text → Colored
  pair : Text → Text → Text → Colored

-- `[^\s=#]`
abbrev pub is_key_part : ℕ → Bool
is_key_part c = not (is_space c) && not (c == b'=') && not (c == b'#')

-- What follows the key: `=(?<value>.*)$`. Each class of the expression excludes what comes behind it,
-- so the match is found without going back.
abbrev as_pair : Text → Text → Text → Text → Colored
as_pair text indent [] more = plain text
as_pair text indent (k ∷ ks) [] = plain text
as_pair text indent (k ∷ ks) (c ∷ value) =
    if c == b'=' && not (any is_line_end value) then pair indent (k ∷ ks) value else plain text

unfoldable pub color_line : Text → Colored
color_line text =
    let (indent, rest) = span is_space text in
    let (key, more) = span is_key_part rest in
    if starts_with b'#' (trim_start text) then comment text else as_pair text indent key more

-- What is on the screen of a colored line.
unfoldable pub shown : Colored → Text
shown (comment t) = t
shown (plain t) = t
shown (pair indent key value) = indent ++ (key ++ b'=' ∷ value)

-- The `<pre>` of the editor.
unfoldable pub copy : Text → Text
copy value = join 10 (map (λ l. shown (color_line l)) (split 10 value))

shown-as_pair :
    (text indent key more : Text)
    → indent ++ (key ++ more) ≡ text
    → shown (as_pair text indent key more) ≡ text
unfolding shown
shown-as_pair text indent [] more h = refl
shown-as_pair text indent (k ∷ ks) [] h = refl
shown-as_pair text indent (k ∷ ks) (c ∷ value) h = elim (Bool-cases (c == b'=')) [
  | inl equals ↦ elim (Bool-cases (any is_line_end value)) [
    | inl broken ↦ rw (equals, broken) refl
    | inr whole ↦
        rw (equals, whole)
          (ap (λ x. indent ++ (k ∷ ks ++ x ∷ value)) (sym ((==_iff c b'=').0 equals)) ∙ h)
  ]
  | inr other ↦ rw other refl
]

shown-color_line : (text : Text) → shown (color_line text) ≡ text
unfolding color_line
shown-color_line text = elim (Bool-cases (starts_with b'#' (trim_start text))) [
  | inl remark ↦ rw remark (unfold shown in refl)
  | inr code ↦ rw code (
      shown-as_pair text (span is_space text).0 (span is_key_part (span is_space text).1).0
        (span is_key_part (span is_space text).1).1
        (ap (λ r. (span is_space text).0 ++ r) (span-append is_key_part (span is_space text).1)
          ∙ span-append is_space text))
]

map-shown : (ls : List Text) → map (λ l. shown (color_line l)) ls ≡ ls
map-shown [] = refl
map-shown (l ∷ ls) = rw (shown-color_line l, map-shown ls) refl

join-before : (c x : ℕ) (ls : List Text) → ls ≢ [] → join c (split_before x ls) ≡ x ∷ join c ls
unfolding join
join-before c x [] ne = absurd (ne refl)
join-before c x (l ∷ []) ne = refl
join-before c x (l ∷ m ∷ ls) ne = refl

join-first : (c : ℕ) (ls : List Text) → ls ≢ [] → join c ([] ∷ ls) ≡ c ∷ join c ls
unfolding join
join-first c [] ne = absurd (ne refl)
join-first c (l ∷ ls) ne = refl

join-split : (c : ℕ) (s : Text) → join c (split c s) ≡ s
unfolding split
join-split c [] = unfold join in refl
join-split c (x ∷ s) = elim (Bool-cases (x == c)) [
  | inl here ↦ rw here (
      join-first c (split c s) (split-ne-nil c s)
      ∙ ap (λ y. y ∷ join c (split c s)) (sym ((==_iff x c).0 here))
      ∙ ap (λ r. x ∷ r) (join-split c s))
  | inr other ↦
      rw other (join-before c x (split c s) (split-ne-nil c s) ∙ ap (λ r. x ∷ r) (join-split c s))
]

-- The colored copy is the text itself, character for character, so it lies exactly behind it.
pub copy_lem : (text : Text) → copy text ≡ text
unfolding copy
copy_lem text = ap (join 10) (map-shown (split 10 text)) ∙ join-split 10 text
