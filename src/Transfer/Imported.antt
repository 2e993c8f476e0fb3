-- ===== src/Transfer/Imported.antt =====
-- What an import has done when it ends.
use vexdock.Base.{◌≡◌, ◌⊎◌, inl, inr, refl, ap, Option, List, [], ◌∷◌, ◌++◌}
use vexdock.Text.{Text}
use vexdock.Dotenv.Vars.{EnvVar}
use vexdock.Api.Projects.{create_service}
use vexdock.Api.Services.{save_service_variables, service_variables}
use vexdock.Api.Types.Services.{Service}
use vexdock.Transfer.Decode.{PortableService}
use vexdock.Transfer.Merge.{merge_env}
use vexdock.Transfer.Import.{
  Manager, Ended, imported, failed, import_all, new_service, not_created, without_variables,
}

answer-cases :
    {S A : Type 0} (p : S × (Text ⊎ A))
    → ((s : S) × (message : Text) × (p ≡ (s, inl message))) ⊎ ((s : S) × (a : A) × (p ≡ (s, inr a)))
answer-cases (s, inl message) = inl (s, message, refl)
answer-cases (s, inr a) = inr (s, a, refl)

module _ {S : Type 0} (m : Manager S) (project : Text) (environment : Option Text) where
  -- One service was created, and its variables were saved, merged with those it was seeded with.
  pub data Imported (p : PortableService) (s s' : S) : Type 0 where
    created_and_saved :
        {s₁ s₂ : S} {created : Service} {seeded : List EnvVar}
        → m.on_project s (create_service project (new_service p) environment) ≡ (s₁, inr created)
        → m.on_service s₁ (service_variables created.id) ≡ (s₂, inr seeded)
        → m.on_service s₂ (save_service_variables created.id (merge_env seeded p.env))
          ≡ (s', inr tt)
        → Imported p s s'

  pub data Done : S → List PortableService → S → Type 0 where
    nothing_left : {s : S} → Done s [] s
    one_more :
        {s s' s'' : S} {p : PortableService} {ps : List PortableService}
        → Imported p s s'
        → Done s' ps s''
        → Done s (p ∷ ps) s''

  -- The error tells whether the service that failed is there.
  pub data Fails (p : PortableService) (s : S) : S × Ended → Type 0 where
    at_create :
        {s' : S} {message : Text}
        → m.on_project s (create_service project (new_service p) environment) ≡ (s', inl message)
        → Fails p s (s', failed (not_created p.name message))
    at_seeded :
        {s₁ s' : S} {created : Service} {message : Text}
        → m.on_project s (create_service project (new_service p) environment) ≡ (s₁, inr created)
        → m.on_service s₁ (service_variables created.id) ≡ (s', inl message)
        → Fails p s (s', failed (without_variables p.name message))
    at_save :
        {s₁ s₂ s' : S} {created : Service} {seeded : List EnvVar} {message : Text}
        → m.on_project s (create_service project (new_service p) environment) ≡ (s₁, inr created)
        → m.on_service s₁ (service_variables created.id) ≡ (s₂, inr seeded)
        → m.on_service s₂ (save_service_variables created.id (merge_env seeded p.env))
          ≡ (s', inl message)
        → Fails p s (s', failed (without_variables p.name message))

  pub data Report (ps : List PortableService) (s : S) : S × Ended → Type 0 where
    all_done : {s' : S} → Done s ps s' → Report ps s (s', imported)
    stops_at :
        (before : List PortableService) (p : PortableService) (after : List PortableService)
        {s' : S} {o : S × Ended}
        → ps ≡ before ++ p ∷ after
        → Done s before s'
        → Fails p s' o
        → Report ps s o

  Report-one_more :
      {p : PortableService} {ps : List PortableService} {s s' : S} {o : S × Ended}
      → Imported p s s'
      → Report ps s' o
      → Report (p ∷ ps) s o
  Report-one_more i (all_done d) = all_done (one_more i d)
  Report-one_more {p = p} i (stops_at before q after split d f) =
      stops_at (p ∷ before) q after (ap (λ l. p ∷ l) split) (one_more i d) f

  -- An import ends with every service created and its variables merged into the seeded ones and
  -- saved, in order, or at the first call that fails: then the services before it are imported,
  -- none behind it is touched, and the error says of the one that failed whether it was created.
  pub import_all-Report :
      (ps : List PortableService) (s : S) → Report ps s (import_all m project environment ps s)
  unfolding import_all
  import_all-Report [] s = all_done nothing_left
  import_all-Report (p ∷ ps) s =
      elim (answer-cases (m.on_project s (create_service project (new_service p) environment))) [
        | inl (s', message, e) ↦ rw e (stops_at [] p ps refl nothing_left (at_create e))
        | inr (s₁, created, e) ↦
            elim (answer-cases (m.on_service s₁ (service_variables created.id))) [
              | inl (s', message, f) ↦
                  rw (e, f) (stops_at [] p ps refl nothing_left (at_seeded e f))
              | inr (s₂, seeded, f) ↦
                  elim (answer-cases (
                    m.on_service s₂ (save_service_variables created.id (merge_env seeded p.env)))) [
                      | inl (s', message, g) ↦
                          rw (e, f, g) (stops_at [] p ps refl nothing_left (at_save e f g))
                      | inr (s', _, g) ↦
                          rw (e, f, g)
                            (Report-one_more (created_and_saved e f g) (import_all-Report ps s'))
                    ]
            ]
      ]
