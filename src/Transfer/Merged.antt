-- ===== src/Transfer/Merged.antt =====
-- What `mergeEnv` makes of each key.
use vexdock.Base.{
  ℕ, zero, suc, ◌≡◌, ◌≢◌, refl, sym, ◌∙◌, inl, inr, true, false, Option, none, some, List, [], ◌∷◌,
  ◌++◌, if◌then◌else◌, arith, Bool-cases,
}
use vexdock.Text.{Text, text_eq, text_eq_iff}
use mathlib.Core.Path.{subst}
use vexdock.Text.Laws.{text_eq-ne}
use vexdock.Dotenv.Vars.{EnvVar}
use vexdock.Transfer.Merge.{
  Variable, row_of, find_index, set_elem, merge_one, merge_all, or_none, merge_env,
}

-- The row of a key.
unfoldable pub lookup : Text → List EnvVar → Option EnvVar
lookup k [] = none
lookup k (v ∷ vars) = let rest = lookup k vars in if text_eq v.key k then some v else rest

-- What one variable of the export makes of its key's row: a value that was withheld defers to the
-- row that is there.
abbrev pub deferring : Variable → Option EnvVar → Option EnvVar
deferring v none = some (row_of v)
deferring v (some row) = if text_eq v.value [] then some row else some (row_of v)

-- What the whole export makes of the row of `k`.
unfoldable pub merged_row : Text → Option EnvVar → List Variable → Option EnvVar
merged_row k row [] = row
merged_row k row (v ∷ vs) =
    let met = merged_row k (deferring v row) vs in
    let passed = merged_row k row vs in if text_eq v.key k then met else passed

same_text : (s : Text) → text_eq s s ≡ true
same_text s = (text_eq_iff s s).1 refl

other_key : (s j k : Text) → s ≡ j → j ≢ k → text_eq s k ≡ false
other_key s j k e ne = elim (Bool-cases (text_eq s k)) [
  | inr off ↦ off
  | inl at ↦ elim (ne (sym e ∙ (text_eq_iff s k).0 at)) [ ]
]

-- The first row of the key `j` is the one at `i`.
data At (j : Text) : ℕ → List EnvVar → Type 0 where
  here : {v : EnvVar} {vars : List EnvVar} → text_eq v.key j ≡ true → At j zero (v ∷ vars)
  there :
      {i : ℕ} {v : EnvVar} {vars : List EnvVar}
      → text_eq v.key j ≡ false
      → At j i vars
      → At j (suc i) (v ∷ vars)

-- Where a key is found, or that it is not.
data Found (j : Text) (vars : List EnvVar) : Type 0 where
  missing : find_index j vars ≡ none → lookup j vars ≡ none → Found j vars
  present :
      (i : ℕ) (row : EnvVar)
      → At j i vars
      → find_index j vars ≡ some i
      → lookup j vars ≡ some row
      → Found j vars

find : (j : Text) (vars : List EnvVar) → Found j vars
unfolding find_index lookup
find j [] = missing refl refl
find j (v ∷ vars) = elim (Bool-cases (text_eq v.key j)) [
  | inl at ↦ present 0 v (here at) (rw at) (rw at)
  | inr off ↦ elim (find j vars) [
    | missing e f ↦ missing (rw (off, e)) (rw (off, f))
    | present i row p e f ↦ present (suc i) row (there off p) (rw (off, e)) (rw (off, f))
  ]
]

lookup-new :
    (j : Text) (vars : List EnvVar) (row : EnvVar)
    → text_eq row.key j ≡ true
    → lookup j vars ≡ none
    → lookup j (vars ++ row ∷ []) ≡ some row
unfolding lookup
lookup-new j [] row own e = rw own
lookup-new j (v ∷ vars) row own e = elim (Bool-cases (text_eq v.key j)) [
  | inl at ↦ ground arith
  | inr off ↦ rw off (lookup-new j vars row own (rw off at e))
]

lookup-beside :
    (k : Text) (vars : List EnvVar) (row : EnvVar)
    → text_eq row.key k ≡ false
    → lookup k (vars ++ row ∷ []) ≡ lookup k vars
unfolding lookup
lookup-beside k [] row other = rw other
lookup-beside k (v ∷ vars) row other = rw (lookup-beside k vars row other)

lookup-set :
    (j : Text) (i : ℕ) (vars : List EnvVar) (row : EnvVar)
    → text_eq row.key j ≡ true
    → At j i vars
    → lookup j (set_elem i row vars) ≡ some row
unfolding lookup set_elem
lookup-set j zero [] row own p = elim p [ ]
lookup-set j (suc i) [] row own p = elim p [ ]
lookup-set j zero (v ∷ vars) row own (here e) = rw own
lookup-set j (suc i) (v ∷ vars) row own (there off p) = rw (off, lookup-set j i vars row own p)

lookup-set_beside :
    (j k : Text) (i : ℕ) (vars : List EnvVar) (row : EnvVar)
    → text_eq row.key k ≡ false
    → j ≢ k
    → At j i vars
    → lookup k (set_elem i row vars) ≡ lookup k vars
unfolding lookup set_elem
lookup-set_beside j k zero [] row own ne p = elim p [ ]
lookup-set_beside j k (suc i) [] row own ne p = elim p [ ]
lookup-set_beside j k zero (v ∷ vars) row own ne (here e) =
    rw (own, other_key v.key j k ((text_eq_iff v.key j).0 e) ne)
lookup-set_beside j k (suc i) (v ∷ vars) row own ne (there off p) =
    rw (lookup-set_beside j k i vars row own ne p)

merge_one-own :
    (merged : List EnvVar) (v : Variable)
    → lookup v.key (merge_one merged v) ≡ deferring v (lookup v.key merged)
unfolding merge_one
merge_one-own merged v = elim (find v.key merged) [
  | missing e f ↦ rw (e, f, lookup-new v.key merged (row_of v) (same_text v.key) f)
  | present i row p e f ↦ elim (Bool-cases (text_eq v.value [])) [
    | inl withheld ↦ rw (e, f, withheld) f
    | inr given ↦ rw (e, f, given, lookup-set v.key i merged (row_of v) (same_text v.key) p)
  ]
]

merge_one-met :
    (merged : List EnvVar) (v : Variable) (k : Text)
    → v.key ≡ k
    → lookup k (merge_one merged v) ≡ deferring v (lookup k merged)
merge_one-met merged v k e =
    subst (λ j. lookup j (merge_one merged v) ≡ deferring v (lookup j merged)) e
      (merge_one-own merged v)

merge_one-other :
    (merged : List EnvVar) (v : Variable) (k : Text)
    → text_eq v.key k ≡ false
    → lookup k (merge_one merged v) ≡ lookup k merged
unfolding merge_one
merge_one-other merged v k other = elim (find v.key merged) [
  | missing e f ↦ rw (e, lookup-beside k merged (row_of v) other)
  | present i row p e f ↦ elim (Bool-cases (text_eq v.value [])) [
    | inl withheld ↦ rw (e, withheld)
    | inr given ↦
        rw (
          e,
          given,
          lookup-set_beside v.key k i merged (row_of v) other (text_eq-ne v.key k other) p,
        )
  ]
]

merge_all-lookup :
    (k : Text) (vs : List Variable) (merged : List EnvVar)
    → lookup k (merge_all merged vs) ≡ merged_row k (lookup k merged) vs
unfolding merge_all merged_row
merge_all-lookup k [] merged = refl
merge_all-lookup k (v ∷ vs) merged =
    merge_all-lookup k vs (merge_one merged v) ∙ elim (Bool-cases (text_eq v.key k)) [
      | inl at ↦ rw (at, merge_one-met merged v k ((text_eq_iff v.key k).0 at))
      | inr other ↦ rw (other, merge_one-other merged v k other)
    ]

-- `mergeEnv`, key by key: each variable of the export, in order, replaces the row of its key or
-- adds one, except that an empty value, which was withheld, leaves a row that is there as it is;
-- keys that the export does not name keep their rows.
pub merge_env-lookup :
    (k : Text) (seeded : List EnvVar) (env : Option (List Variable))
    → lookup k (merge_env seeded env) ≡ merged_row k (lookup k seeded) (or_none env)
unfolding merge_env
merge_env-lookup k seeded env = merge_all-lookup k (or_none env) seeded
