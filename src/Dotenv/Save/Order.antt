-- ===== src/Dotenv/Save/Order.antt =====
-- The order of lines and the `unsaved` flag of apps/web/src/lib/dotenv.ts.
use mathlib.Core.Path.{ap₂, subst}
use mathlib.Core.Logic.{∥∥₁_elim}
use mathlib.Core.Bool.{Bool-set}
use mathlib.Core.List.{Perm, Permᴰ}
use vexdock.Base.{
  ◌≡◌, ◌⊎◌, inl, inr, refl, sym, ap, ◌∙◌, Bool, true, false, List, [], ◌∷◌, arith, All,
}
use vexdock.Text.{Text}
use vexdock.Dotenv.Vars.{EnvVar, to_dotenv, insert, to_sorted, sorted_dotenv, unsaved, env_key}
use vexdock.Dotenv.RoundTrip.{AllStorable, from_dotenv-to_dotenv}
use vexdock.Dotenv.Save.{AllValid, env_key-IsStorable}
use vexdock.Dotenv.Save.Unsaved.{unsaved-eq-false, sorted_dotenv-restored}

-- `after a b` is that `a.localeCompare(b)` is positive. It is a consistent comparator: never positive
-- both ways round, and transitive.
pub record IsCollation (after : Text → Text → Bool) : Type 0 where
  pub asym : (a b : Text) → after a b ≡ true → after b a ≡ false
  pub transitive : (a b c : Text) → after a b ≡ true → after b c ≡ true → after a c ≡ true

-- The collation takes no two keys of the list for equal, so that they differ, too. A collation may
-- take different keys for equal: one that ignores punctuation, as in Thai, does so with A_B and AB.
module _ (after : Text → Text → Bool) where
  abbrev AreApart : Text → Text → Type 0
  AreApart a b = (after a b ≡ true) ⊎ (after b a ≡ true)

  abbrev pub TellsApart : List EnvVar → Type 0
  TellsApart [] = Unit {0}
  TellsApart (v ∷ vars) = All (λ w. AreApart v.key w.key) vars × TellsApart vars

All-permᴰ : (P : EnvVar → Type 0) {xs ys : List EnvVar} → Permᴰ xs ys → All P xs → All P ys
All-permᴰ P Permᴰ.nil h = tt
All-permᴰ P (Permᴰ.cons e p) h = (subst P e h.0, All-permᴰ P p h.1)
All-permᴰ P (Permᴰ.swap e f) h = (subst P f h.1.0, (subst P e h.0, h.1.1))
All-permᴰ P (Permᴰ.trans p q) h = All-permᴰ P q (All-permᴰ P p h)

valid_storable : (vars : List EnvVar) → AllValid vars → AllStorable vars
valid_storable [] h = tt
valid_storable (v ∷ vars) h = (env_key-IsStorable v.key h.0, valid_storable vars h.1)

module _ (after : Text → Text → Bool) where
  AreApart-sym : (a b : Text) → AreApart after a b → AreApart after b a
  AreApart-sym a b (inl h) = inr h
  AreApart-sym a b (inr h) = inl h

  TellsApart-permᴰ : {xs ys : List EnvVar} → Permᴰ xs ys → TellsApart after xs → TellsApart after ys
  TellsApart-permᴰ Permᴰ.nil h = tt
  TellsApart-permᴰ (Permᴰ.cons {a} {b} {l₂} e p) h = (
    subst (λ x. All (λ w. AreApart after x.key w.key) l₂) e
        (All-permᴰ (λ w. AreApart after a.key w.key) p h.0),
    TellsApart-permᴰ p h.1,
  )
  TellsApart-permᴰ (Permᴰ.swap {a} {b} {b'} {l} e f) h =
      subst (λ x. TellsApart after (x ∷ b' ∷ l)) f
        (subst (λ x. TellsApart after (b ∷ x ∷ l)) e
          ((AreApart-sym a.key b.key h.0.0, h.1.0), (h.0.1, h.1.1)))
  TellsApart-permᴰ (Permᴰ.trans p q) h = TellsApart-permᴰ q (TellsApart-permᴰ p h)

module _ (after : Text → Text → Bool) (order : IsCollation after) where
  one_after :
      (a b : Text)
      → AreApart after a b
      → ((after a b ≡ true) × (after b a ≡ false)) ⊎ ((after a b ≡ false) × (after b a ≡ true))
  one_after a b apart = ground (arith, apart, order.asym a b, order.asym b a)

  insert_comm :
      (v w : EnvVar) (vars : List EnvVar)
      → AreApart after v.key w.key
      → insert after v (insert after w vars) ≡ insert after w (insert after v vars)
  unfolding insert
  insert_comm v w [] apart = ground (arith, one_after v.key w.key apart)
  insert_comm v w (x ∷ vars) apart = ground (
    arith,
    one_after v.key w.key apart,
    order.transitive v.key w.key x.key,
    order.transitive w.key v.key x.key,
    insert_comm v w vars apart,
  )

  -- Keys that the collation tells apart leave no choice to the sort.
  to_sorted-permᴰ :
      {xs ys : List EnvVar}
      → Permᴰ xs ys
      → TellsApart after xs
      → to_sorted after xs ≡ to_sorted after ys
  unfolding to_sorted
  to_sorted-permᴰ Permᴰ.nil h = refl
  to_sorted-permᴰ (Permᴰ.cons e p) h = ap₂ (insert after) e (to_sorted-permᴰ p h.1)
  to_sorted-permᴰ (Permᴰ.swap {a} {b} {l} e f) h =
      insert_comm a b (to_sorted after l) h.0.0
      ∙ ap₂ (λ x y. insert after x (insert after y (to_sorted after l))) f e
  to_sorted-permᴰ (Permᴰ.trans p q) h =
      to_sorted-permᴰ p h ∙ to_sorted-permᴰ q (TellsApart-permᴰ after p h)

  -- Moving lines about is no unsaved change, where the keys are of the manager's form and the
  -- collation of the browser takes no two of them for equal. It is a consistent comparator.
  pub unsaved-perm :
      (vars moved : List EnvVar)
      → AllValid vars
      → TellsApart after vars
      → Perm vars moved
      → unsaved after (to_dotenv moved) vars ≡ false
  unsaved-perm vars moved ok apart p = ∥∥₁_elim p (Bool-set _ _) λ d.
      unsaved-eq-false after (to_dotenv moved) vars (
        ap (sorted_dotenv after) (
          from_dotenv-to_dotenv moved vars
            (valid_storable moved (All-permᴰ (λ v. env_key v.key ≡ true) d ok)))
        ∙ sorted_dotenv-restored after vars moved
        ∙ unfold sorted_dotenv in ap to_dotenv (sym (to_sorted-permᴰ d apart)))
