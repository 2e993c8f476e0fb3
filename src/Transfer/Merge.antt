-- ===== src/Transfer/Merge.antt =====
-- `mergeEnv` of apps/web/src/components/import-services-form.tsx.
use vexdock.Base.{ℕ, zero, suc, Bool, Option, none, some, List, [], ◌∷◌, ◌++◌, if◌then◌else◌}
use vexdock.Text.{Text, text_eq}
use vexdock.Dotenv.Vars.{EnvVar}

-- A variable of an export. A secret that was withheld has no value.
pub record Variable : Type 0 where
  pub key : Text
  pub value : Text
  pub is_secret : Bool

abbrev pub row_of : Variable → EnvVar
row_of v = record { key = v.key; value = v.value; is_secret = v.is_secret; updated_at = [] }

-- `findIndex`; `none` is -1.
abbrev next_index : Option ℕ → Option ℕ
next_index none = none
next_index (some i) = some (suc i)

unfoldable pub find_index : Text → List EnvVar → Option ℕ
find_index k [] = none
find_index k (v ∷ vars) =
    let rest = next_index (find_index k vars) in if text_eq v.key k then some 0 else rest

-- `merged[at] = row`
unfoldable pub set_elem : ℕ → EnvVar → List EnvVar → List EnvVar
set_elem i row [] = []
set_elem zero row (v ∷ vars) = row ∷ vars
set_elem (suc i) row (v ∷ vars) = v ∷ set_elem i row vars

-- One round of the loop, `at` being where the key is.
abbrev pub merge_at : Variable → List EnvVar → Option ℕ → List EnvVar
merge_at v merged none = merged ++ row_of v ∷ []
merge_at v merged (some at) = if text_eq v.value [] then merged else set_elem at (row_of v) merged

unfoldable pub merge_one : List EnvVar → Variable → List EnvVar
merge_one merged v = merge_at v merged (find_index v.key merged)

unfoldable pub merge_all : List EnvVar → List Variable → List EnvVar
merge_all merged [] = merged
merge_all merged (v ∷ vs) = merge_all (merge_one merged v) vs

-- `service.env ?? []`
abbrev pub or_none : Option (List Variable) → List Variable
or_none none = []
or_none (some vs) = vs

unfoldable pub merge_env : List EnvVar → Option (List Variable) → List EnvVar
merge_env seeded env = merge_all seeded (or_none env)
