-- ===== src/EnvEditor/Rows.antt =====
-- `VariablesEditor` and `VariableRows` of apps/web/src/components/env-editor.tsx: a table over the
-- .env text, which every edit writes back.
use vexdock.Base.{
  ℕ, zero, suc, ◌+◌, Bool, true, false, ◌&&◌, Option, none, some, List, [], ◌∷◌, ◌++◌, length, any,
  filter, if◌then◌else◌,
}
use vexdock.Text.{Text, text_eq}
use vexdock.Dotenv.Vars.{EnvVar, is_key_char, to_dotenv, from_dotenv, line_problems}

-- `replaceAll(/[^A-Za-z0-9_]/gu, '')`
unfoldable pub key_text : Text → Text
key_text typed = filter is_key_char typed

-- `Partial<EnvVar>`: an input patches the key or the value.
pub data Patch : Type 0 where
  key_typed value_typed : Text → Patch

-- `{ ...variable, ...next }`
unfoldable pub patched : Patch → EnvVar → EnvVar
patched (key_typed typed) v = record v { key = key_text typed }
patched (value_typed typed) v = record v { value = typed }

-- `vars.map((variable, i) => i === index ? … : variable)`
unfoldable pub patch_at : ℕ → Patch → List EnvVar → List EnvVar
patch_at index p [] = []
patch_at zero p (v ∷ vs) = patched p v ∷ vs
patch_at (suc index) p (v ∷ vs) = v ∷ patch_at index p vs

-- `vars.filter((_, i) => i !== index)`
unfoldable pub remove_at : ℕ → List EnvVar → List EnvVar
remove_at index [] = []
remove_at zero (v ∷ vs) = vs
remove_at (suc index) (v ∷ vs) = v ∷ remove_at index vs

abbrev pub new_row : Text → EnvVar
new_row key = record { key = key; value = []; is_secret = true; updated_at = [] }

-- What the table keeps beside the text: the key that is being typed, and its removals.
pub record Rows : Type 0 where
  pub key : Text
  pub removals : ℕ

pub data Edit : Type 0 where
  type_key : Text → Edit
  add : Edit
  remove : ℕ → Edit
  patch : ℕ → Patch → Edit

-- The next state, and what goes to `onChange`, if it is called.
unfoldable pub edit_rows : Edit → Rows → List EnvVar → Rows × Option (List EnvVar)
edit_rows (type_key typed) r vars = (record r { key = key_text typed }, none)
edit_rows add r vars =
    if text_eq r.key []
    then (r, none)
    else (record r { key = [] }, some (vars ++ new_row r.key ∷ []))
edit_rows (remove index) r vars =
    (record r { removals = r.removals + 1 }, some (remove_at index vars))
edit_rows (patch index p) r vars = (r, some (patch_at index p vars))

-- `onChange={next => onChange(toDotenv(next))}`
abbrev pub written : Text → Option (List EnvVar) → Text
written text none = text
written text (some vars) = to_dotenv vars

abbrev pub rows_or : List EnvVar → Option (List EnvVar) → List EnvVar
rows_or vars none = vars
rows_or vars (some next) = next

abbrev pub is_empty : List Text → Bool
is_empty [] = true
is_empty (_ ∷ _) = false

-- The table is there only while every line parses, so an edit reaches the text only then.
unfoldable pub edit_text : List EnvVar → Edit → Rows × Text → Rows × Text
edit_text stored e (r, text) =
    let (r', next) = edit_rows e r (from_dotenv text stored) in
    if is_empty (line_problems text) then (r', written text next) else (r, text)

-- `overriding`: the keys that the layer above holds too.
abbrev pub overrides : List EnvVar → EnvVar → Bool
overrides shared v = any (λ above. text_eq above.key v.key) shared

unfoldable pub overriding : Option (List EnvVar) → List EnvVar → ℕ
overriding none vars = 0
overriding (some shared) vars = length (filter (overrides shared) vars)

-- `refusedHere`: the message of a refused Save is the one the table shows already.
abbrev pub refused_here : Bool → List Text → Option Text → Bool
refused_here table (problem ∷ _) (some message) = table && text_eq message problem
refused_here table _ _ = false

abbrev pub no_rows : Rows
no_rows = record { key = []; removals = 0 }

-- Edits at the table, one after the other.
unfoldable pub edit_all : List EnvVar → List Edit → Rows × Text → Rows × Text
edit_all stored [] state = state
edit_all stored (e ∷ es) state = edit_all stored es (edit_text stored e state)
