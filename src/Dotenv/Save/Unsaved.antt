-- ===== src/Dotenv/Save/Unsaved.antt =====
-- The `unsaved` flag of apps/web/src/lib/dotenv.ts, for any collation `after`.
use mathlib.Core.List.{Perm}
use mathlib.Core.List.Perm
use vexdock.Base.{
  ◌≡◌, inl, inr, refl, sym, ap, ◌∙◌, Bool, false, List, [], ◌∷◌, arith, map, Bool-cases,
}
use vexdock.Text.{Text, text_eq_iff, join}
use vexdock.Dotenv.Vars.{
  EnvVar, line_of, to_dotenv, from_dotenv, insert, to_sorted, sorted_dotenv, unsaved,
}
use vexdock.Dotenv.Readable.{read-AllStorable}
use vexdock.Dotenv.RoundTrip.{IsStorable, AllStorable, restored, from_dotenv-to_dotenv}

lines-restored :
    (previous vars : List EnvVar) → map line_of (map (restored previous) vars) ≡ map line_of vars
unfolding line_of
lines-restored previous [] = refl
lines-restored previous (v ∷ vars) = ap (λ r. line_of v ∷ r) (lines-restored previous vars)

to_dotenv-restored :
    (previous vars : List EnvVar) → to_dotenv (map (restored previous) vars) ≡ to_dotenv vars
unfolding to_dotenv
to_dotenv-restored previous vars = ap (join 10) (lines-restored previous vars)

abbrev pub pair : EnvVar → Text × Text
pair v = (v.key, v.value)

pairs-restored :
    (previous vars : List EnvVar) → map pair (map (restored previous) vars) ≡ map pair vars
pairs-restored previous [] = refl
pairs-restored previous (v ∷ vars) = ap (λ r. pair v ∷ r) (pairs-restored previous vars)

-- The text determines the keys and values in it.
to_dotenv-injective :
    (xs ys : List EnvVar)
    → AllStorable xs
    → AllStorable ys
    → to_dotenv xs ≡ to_dotenv ys
    → map pair xs ≡ map pair ys
to_dotenv-injective xs ys hx hy e =
    sym (pairs-restored [] xs)
    ∙ ap (map pair) (
        sym (from_dotenv-to_dotenv xs [] hx)
        ∙ ap (λ t. from_dotenv t []) e
        ∙ from_dotenv-to_dotenv ys [] hy)
    ∙ pairs-restored [] ys

module _ (after : Text → Text → Bool) where
  insert-restored :
      (previous : List EnvVar) (v : EnvVar) (vars : List EnvVar)
      → insert after (restored previous v) (map (restored previous) vars)
        ≡ map (restored previous) (insert after v vars)
  unfolding insert
  insert-restored previous v [] = refl
  insert-restored previous v (w ∷ vars) = ground (arith, insert-restored previous v vars)

  to_sorted-restored :
      (previous vars : List EnvVar)
      → to_sorted after (map (restored previous) vars)
        ≡ map (restored previous) (to_sorted after vars)
  unfolding to_sorted
  to_sorted-restored previous [] = refl
  to_sorted-restored previous (v ∷ vars) =
      rw (to_sorted-restored previous vars) (insert-restored previous v (to_sorted after vars))

  pub sorted_dotenv-restored :
      (previous vars : List EnvVar)
      → sorted_dotenv after (map (restored previous) vars) ≡ sorted_dotenv after vars
  unfolding sorted_dotenv
  sorted_dotenv-restored previous vars =
      rw (to_sorted-restored previous vars) (to_dotenv-restored previous (to_sorted after vars))

  pub unsaved-eq-false :
      (text : Text) (stored : List EnvVar)
      → sorted_dotenv after (from_dotenv text stored) ≡ sorted_dotenv after stored
      → unsaved after text stored ≡ false
  unfolding unsaved
  unsaved-eq-false text stored h = rw ((text_eq_iff _ _).1 h)

  -- The text that the editor starts from, that of the stored variables, has no unsaved change,
  -- whatever the collation.
  pub unsaved-to_dotenv :
      (vars : List EnvVar) → AllStorable vars → unsaved after (to_dotenv vars) vars ≡ false
  unsaved-to_dotenv vars h = unsaved-eq-false (to_dotenv vars) vars (
      ap (sorted_dotenv after) (from_dotenv-to_dotenv vars vars h)
      ∙ sorted_dotenv-restored vars vars)

  insert-perm : (v : EnvVar) (vars : List EnvVar) → Perm (insert after v vars) (v ∷ vars)
  unfolding insert
  insert-perm v [] = Perm.refl _
  insert-perm v (w ∷ vars) = elim (Bool-cases (after v.key w.key)) [
    | inl later ↦ rw later (Perm.trans (Perm.cons w (insert-perm v vars)) (Perm.swap v w vars))
    | inr first ↦ rw first (Perm.refl _)
  ]

  to_sorted-perm : (vars : List EnvVar) → Perm (to_sorted after vars) vars
  unfolding to_sorted
  to_sorted-perm [] = Perm.refl _
  to_sorted-perm (v ∷ vars) =
      Perm.trans (insert-perm v (to_sorted after vars)) (Perm.cons v (to_sorted-perm vars))

  insert-AllStorable :
      (v : EnvVar) (vars : List EnvVar)
      → IsStorable v.key
      → AllStorable vars
      → AllStorable (insert after v vars)
  unfolding insert
  insert-AllStorable v [] s h = (s, tt)
  insert-AllStorable v (w ∷ vars) s h = elim (Bool-cases (after v.key w.key)) [
    | inl later ↦ rw later (h.0, insert-AllStorable v vars s h.1)
    | inr first ↦ rw first (s, h)
  ]

  to_sorted-AllStorable :
      (vars : List EnvVar) → AllStorable vars → AllStorable (to_sorted after vars)
  unfolding to_sorted
  to_sorted-AllStorable [] h = tt
  to_sorted-AllStorable (v ∷ vars) h =
      insert-AllStorable v (to_sorted after vars) h.0 (to_sorted-AllStorable vars h.1)

  sorted_of_saved :
      (text : Text) (stored : List EnvVar)
      → unsaved after text stored ≡ false
      → to_dotenv (to_sorted after (from_dotenv text stored)) ≡ to_dotenv (to_sorted after stored)
  unfolding unsaved sorted_dotenv
  sorted_of_saved text stored h = (text_eq_iff _ _).0 (ground arith)

  -- No edit is taken for saved: where no change is reported, the text holds the stored keys and
  -- values, each as often, up to the order of lines, for stored variables with storable keys.
  pub saved-perm :
      (text : Text) (stored : List EnvVar)
      → AllStorable stored
      → unsaved after text stored ≡ false
      → Perm (map pair (from_dotenv text stored)) (map pair stored)
  saved-perm text stored h saved =
      let vars = from_dotenv text stored in
      let same =
        to_dotenv-injective (to_sorted after vars) (to_sorted after stored)
          (to_sorted-AllStorable vars (read-AllStorable text stored))
          (to_sorted-AllStorable stored h) (sorted_of_saved text stored saved) in
      Perm.trans (Perm.symm (Perm.map pair (to_sorted-perm vars)))
        (rw same (Perm.map pair (to_sorted-perm stored)))
