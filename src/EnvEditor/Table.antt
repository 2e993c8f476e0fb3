-- ===== src/EnvEditor/Table.antt =====
-- The table of apps/web/src/components/env-editor.tsx and the text behind it stay in step.
use vexdock.Base.{
  ℕ, zero, suc, ◌≡◌, refl, Bool, true, List, [], ◌∷◌, ◌++◌, arith, map, all, filter, Bool-cases,
  inl, inr, sym,
}
use vexdock.Text.{Text, text_eq}
use vexdock.Dotenv.Vars.{EnvVar, is_key_char, to_dotenv, from_dotenv, line_problems}
use vexdock.Dotenv.RoundTrip.{
  IsStorable, AllStorable, restored, from_dotenv-to_dotenv, line_problems-to_dotenv,
}
use vexdock.Dotenv.Readable.{read-AllStorable}
use vexdock.Dotenv.Save.{word-IsStorable, from_dotenv-restored}
use vexdock.EnvEditor.Rows.{
  key_text, Patch, key_typed, value_typed, patched, patch_at, remove_at, new_row, Rows, Edit,
  type_key, add, remove, patch, edit_rows, edit_text, rows_or, no_rows, edit_all,
}

filter-all : (p : ℕ → Bool) (s : Text) → all p (filter p s) ≡ true
filter-all p [] = refl
filter-all p (c ∷ s) = ground (arith, filter-all p s)

-- Every key that is typed can be written.
key_text-IsStorable : (typed : Text) → IsStorable (key_text typed)
unfolding key_text
key_text-IsStorable typed =
    word-IsStorable (filter is_key_char typed) (filter-all is_key_char typed)

patched-IsStorable : (p : Patch) (v : EnvVar) → IsStorable v.key → IsStorable (patched p v).key
unfolding patched
patched-IsStorable (key_typed typed) v s = key_text-IsStorable typed
patched-IsStorable (value_typed typed) v s = s

patch_at-AllStorable :
    (i : ℕ) (p : Patch) (vs : List EnvVar) → AllStorable vs → AllStorable (patch_at i p vs)
unfolding patch_at
patch_at-AllStorable i p [] h = tt
patch_at-AllStorable zero p (v ∷ vs) h = (patched-IsStorable p v h.0, h.1)
patch_at-AllStorable (suc i) p (v ∷ vs) h = (h.0, patch_at-AllStorable i p vs h.1)

remove_at-AllStorable : (i : ℕ) (vs : List EnvVar) → AllStorable vs → AllStorable (remove_at i vs)
unfolding remove_at
remove_at-AllStorable i [] h = tt
remove_at-AllStorable zero (v ∷ vs) h = h.1
remove_at-AllStorable (suc i) (v ∷ vs) h = (h.0, remove_at-AllStorable i vs h.1)

add-AllStorable :
    (vs : List EnvVar) (key : Text)
    → AllStorable vs
    → IsStorable key
    → AllStorable (vs ++ new_row key ∷ [])
add-AllStorable [] key h s = (s, tt)
add-AllStorable (v ∷ vs) key h s = (h.0, add-AllStorable vs key h.1 s)

-- An edit of the rows themselves, with no text: a row's flag is the one stored for its key.
abbrev pub edit_table : List EnvVar → Edit → Rows × List EnvVar → Rows × List EnvVar
edit_table stored e (r, vars) =
    let (r', next) = edit_rows e r vars in (r', map (restored stored) (rows_or vars next))

abbrev pub table_all : List EnvVar → List Edit → Rows × List EnvVar → Rows × List EnvVar
table_all stored [] state = state
table_all stored (e ∷ es) state = table_all stored es (edit_table stored e state)

-- What stays true of the table and the text behind it.
record InStep (stored : List EnvVar) (state : Rows × Text) (table : Rows × List EnvVar)
    : Type 0 where
  rows : state.0 ≡ table.0
  vars : from_dotenv state.1 stored ≡ table.1
  parses : line_problems state.1 ≡ []
  key : IsStorable state.0.key

written-InStep :
    (stored next : List EnvVar) (r : Rows)
    → AllStorable next
    → IsStorable r.key
    → InStep stored (r, to_dotenv next) (r, map (restored stored) next)
written-InStep stored next r h s = record {
  rows = refl;
  vars = from_dotenv-to_dotenv next stored h;
  parses = line_problems-to_dotenv next h;
  key = s;
}

no_key-IsStorable : IsStorable []
no_key-IsStorable = word-IsStorable [] refl

edit_rows-InStep :
    (stored : List EnvVar) (e : Edit) (r : Rows) (text : Text)
    → line_problems text ≡ []
    → IsStorable r.key
    → InStep stored
        (edit_text stored e (r, text))
        (edit_table stored e (r, from_dotenv text stored))
unfolding edit_text edit_rows
edit_rows-InStep stored (type_key typed) r text h s = rw h record {
  rows = refl;
  vars = sym (from_dotenv-restored text stored);
  parses = h;
  key = key_text-IsStorable typed;
}
edit_rows-InStep stored add r text h s = elim (Bool-cases (text_eq r.key [])) [
  | inl none_typed ↦
      rw (h, none_typed)
        record { rows = refl; vars = sym (from_dotenv-restored text stored); parses = h; key = s }
  | inr typed ↦
      rw (h, typed)
        (written-InStep stored (from_dotenv text stored ++ new_row r.key ∷ [])
          (record r { key = [] })
          (add-AllStorable (from_dotenv text stored) r.key (read-AllStorable text stored) s)
          no_key-IsStorable)
]
edit_rows-InStep stored (remove i) r text h s = rw h (
    written-InStep stored (remove_at i (from_dotenv text stored)) _
      (remove_at-AllStorable i (from_dotenv text stored) (read-AllStorable text stored)) s)
edit_rows-InStep stored (patch i p) r text h s = rw h (
    written-InStep stored (patch_at i p (from_dotenv text stored)) r
      (patch_at-AllStorable i p (from_dotenv text stored) (read-AllStorable text stored)) s)

edit-InStep :
    (stored : List EnvVar) (e : Edit) (r : Rows) (text : Text) (table : Rows × List EnvVar)
    → InStep stored (r, text) table
    → InStep stored (edit_text stored e (r, text)) (edit_table stored e table)
edit-InStep stored e r text (r', vars) i =
    rw (sym i.rows, sym i.vars) (edit_rows-InStep stored e r text i.parses i.key)

all-InStep :
    (stored : List EnvVar) (es : List Edit) (r : Rows) (text : Text) (table : Rows × List EnvVar)
    → InStep stored (r, text) table
    → InStep stored (edit_all stored es (r, text)) (table_all stored es table)
unfolding edit_all
all-InStep stored [] r text table i = i
all-InStep stored (e ∷ es) r text table i =
    all-InStep stored es (edit_text stored e (r, text)).0 (edit_text stored e (r, text)).1
      (edit_table stored e table) (edit-InStep stored e r text table i)

-- Whatever is done at the table, in any order, over a text whose lines parse, the text reads as the
-- rows that the edits make of the rows it held, and its lines parse, so that the table stays open.
pub edit_all-rows :
    (stored : List EnvVar) (es : List Edit) (text : Text)
    → line_problems text ≡ []
    → (from_dotenv (edit_all stored es (no_rows, text)).1 stored
        ≡ (table_all stored es (no_rows, from_dotenv text stored)).1)
      × (line_problems (edit_all stored es (no_rows, text)).1 ≡ [])
edit_all-rows stored es text h =
    let i =
      all-InStep stored es no_rows text (no_rows, from_dotenv text stored)
        (record { rows = refl; vars = refl; parses = h; key = no_key-IsStorable }) in
    (i.vars, i.parses)
