-- ===== src/Migrate/Volumes/Exporter.antt =====
-- The exporter that `copyVolume` of scripts/migrate-dokploy.ts creates on Dokploy: it is always
-- deleted again, and nothing else is.
use vexdock.Base.{false, [], ◌∷◌, ◌≡◌, ◌≢◌, refl, ap, ◌∙◌}
use vexdock.Text.{Text, codes}
use vexdock.Migrate.Types.{VolumeCopy, post, Call, to_dokploy, ignored, bool}
use vexdock.Migrate.World.{Host, World, Result, ok, error, waiting}
use vexdock.Migrate.World.Ends.{Ends, ends_rules}
use vexdock.Migrate.World.Log.{world-dokploy, world-bind_pure, world-bind_throw}
use vexdock.Migrate.Create.{Target}
use vexdock.Migrate.Source.{plain}
use vexdock.Migrate.Volumes.{after_body, try_finally, compose_id, pull_volume, delete_exporter}

module _ (h : Host) (t : Target) where
  pull_volume-Ends :
      (address : Text) (copy : VolumeCopy) (importer_id exporter_id key secret : Text)
      → Ends (pull_volume h t address copy importer_id exporter_id key secret)
  unfolding pull_volume
  pull_volume-Ends address copy importer_id exporter_id key secret = search ends_rules depth 20

  abbrev pub delete_call : Text → Call
  delete_call id =
      to_dokploy post (codes "compose.delete")
        (compose_id id ∷ plain (codes "deleteVolumes", bool false) ∷ [])

  calls-delete_exporter :
      (id : Text) (w : World) → (delete_exporter h t id w).1.calls ≡ delete_call id ∷ w.calls
  unfolding delete_exporter
  calls-delete_exporter id w =
      ap (λ (v : World). v.calls) (world-bind_pure _ tt w ∙ world-dokploy h ignored post _ _ w)

  calls-after_body :
      {A : Type 0} (r : Result A) (id : Text) (w : World)
      → r ≢ waiting
      → (after_body r (delete_exporter h t id) w).1.calls ≡ delete_call id ∷ w.calls
  calls-after_body (ok a) id w e =
      ap (λ (v : World). v.calls) (world-bind_pure (delete_exporter h t id) a w)
      ∙ calls-delete_exporter id w
  calls-after_body (error message) id w e =
      ap (λ (v : World). v.calls) (world-bind_throw _ (delete_exporter h t id) message w)
      ∙ calls-delete_exporter id w
  calls-after_body waiting id w e = absurd (e refl)

  -- Whatever comes of pulling a volume, the next and last request of the block is the one that
  -- deletes the exporter and keeps its volumes.
  pub try_finally-delete :
      (address : Text) (copy : VolumeCopy) (importer_id exporter_id key secret : Text) (w : World)
      → (try_finally
          (pull_volume h t address copy importer_id exporter_id key secret)
          (delete_exporter h t exporter_id)
          w).1.calls
        ≡ delete_call exporter_id
          ∷ (pull_volume h t address copy importer_id exporter_id key secret w).1.calls
  unfolding try_finally
  try_finally-delete address copy importer_id exporter_id key secret w =
      calls-after_body _ exporter_id _
        ((pull_volume-Ends address copy importer_id exporter_id key secret).at w)
