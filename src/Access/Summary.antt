-- ===== src/Access/Summary.antt =====
-- The consent screen's sentence in apps/web/src/lib/access.ts.
use vexdock.Base.{true, ◌≡◌, ◌≢◌, ◌↔◌, refl, List, [], ◌∷◌, ◌++◌, Bool-cases, inl, inr}
use vexdock.Text.{Text, codes}
use vexdock.Access.{
  Level, read, write, Access, picks_nothing, is_nil, writes, reads, reach, joined, sentence,
  access_summary,
}

append-ne-nil {ℓ} : {A : Type ℓ} (s t : List A) → t ≢ [] → s ++ t ≢ []
append-ne-nil [] t h e = h e
append-ne-nil (c ∷ s) t h e = cc

module _ (listed : List Text → Text) (project_name : Text → Text) where
  sentence-ne-nil :
      (client : Text) (rs : List Text) → rs ≢ [] → sentence listed project_name client rs ≢ []
  sentence-ne-nil client [] h = absurd (h refl)
  sentence-ne-nil client (r ∷ rs) h =
      append-ne-nil (client ++ codes " will " ++ joined listed project_name (r ∷ rs))
        (codes ". It cannot see other projects or the server.") (λ e. cc)

  -- What the grants reach, by level.
  abbrev reaches : List (Text × Level) → List Text
  reaches grants =
      reach listed project_name (codes "deploy, exec and change variables in ")
        (writes listed project_name grants)
      ++ reach listed project_name (codes "read ") (reads listed project_name grants)

  reaches-ne-nil :
      (id : Text) (level : Level) (grants : List (Text × Level))
      → reaches ((id, level) ∷ grants) ≢ []
  reaches-ne-nil id write grants = λ e. cc
  reaches-ne-nil id read grants =
      append-ne-nil
        (reach listed project_name (codes "deploy, exec and change variables in ")
          (writes listed project_name grants))
        (reach listed project_name (codes "read ")
          (reads listed project_name ((id, read) ∷ grants)))
        (λ e. cc)

  sentence-eq-nil_iff :
      (client : Text) (grants : List (Text × Level))
      → (sentence listed project_name client (reaches grants) ≡ []) ↔ (is_nil grants ≡ true)
  sentence-eq-nil_iff client [] = (λ e. refl, λ e. refl)
  sentence-eq-nil_iff client ((id, level) ∷ grants) = (
    λ e. absurd (
        sentence-ne-nil client (reaches ((id, level) ∷ grants)) (reaches-ne-nil id level grants) e),
    λ e. absurd (cc),
  )

  -- The sentence is empty exactly while nothing is picked.
  pub access_summary-eq-nil_iff :
      (client : Text) (access : Access)
      → (access_summary listed project_name client access ≡ []) ↔ (picks_nothing access ≡ true)
  unfolding access_summary picks_nothing
  access_summary-eq-nil_iff client access = elim (Bool-cases access.full) [
    | inl full ↦ rw full (
      λ e. absurd (
          append-ne-nil client
            (codes
              " will reach everything: every project, Docker, the server's settings and its tokens.")
            (λ k. cc) e),
      λ e. absurd (cc),
    )
    | inr some_only ↦ rw some_only (sentence-eq-nil_iff client access.grants)
  ]
