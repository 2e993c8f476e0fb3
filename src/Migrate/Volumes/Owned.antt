-- ===== src/Migrate/Volumes/Owned.antt =====
-- What scripts/migrate-dokploy.ts changes on Dokploy: it stops what is there, and creates, changes
-- and deletes only what it created itself.
use vexdock.Base.{
  ℕ, zero, suc, Bool, true, false, List, [], ◌∷◌, ◌≡◌, refl, Bool-cases, inl, inr, ◌++◌, ◌||◌,
}
use vexdock.Text.{Text, codes, text_eq}
use vexdock.Migrate.Types.{
  VolumeCopy, DatabaseDump, Body, Method, get, post, Call, to_dokploy, to_vexdock, Shape, exporter,
  Answer, rejected, resolved, Response, bool, deployment,
}
use vexdock.Migrate.World.{
  Host, World, Result, ok, error, waiting, M, pure, throw, ◌>>=◌, fetch, dokploy, vexdock_api,
  dokploy_result, is_ok,
}
use vexdock.Migrate.World.Keeps.{
  Keeps, Keeps-pure, Keeps-throw, Keeps-bind, Keeps-dokploy, Keeps-if, keeps_rules,
}
use vexdock.Migrate.Create.{Target}
use vexdock.Migrate.Source.{plain}
use vexdock.Migrate.Create.Reads.{ReadsDokploy, OnCalls, api-Keeps, json-Keeps}
use vexdock.Migrate.Volumes.{
  wait_forever, after_body, try_finally, await_deploy, deploy_and_wait, compose_id, pull_volume,
  delete_exporter, copy_volume, restore_dump,
}

-- Dokploy's answer to one of these requests to create a compose gave this id.
pub data CreatedAs (h : Host) (id : Text) : List Call → Type 0 where
  here :
      {cs : List Call} (input : Body) (res : Response exporter)
      → h.answer exporter cs (to_dokploy post (codes "compose.create") input) ≡ resolved res
      → res.json ≡ id
      → CreatedAs h id (to_dokploy post (codes "compose.create") input ∷ cs)
  there : (c : Call) {cs : List Call} → CreatedAs h id cs → CreatedAs h id (c ∷ cs)

-- The procedures that stop what runs, with nothing removed.
abbrev pub is_stop : Text → Bool
is_stop procedure =
    text_eq procedure (codes "application.stop")
    || text_eq procedure (codes "compose.stop")
    || text_eq procedure (codes "postgres.stop")

-- What a request that is no GET may be, after the requests `cs`: one that stops, one that creates a
-- compose, or one that updates, deploys or deletes a compose which those requests created. A compose
-- is deleted with its volumes kept.
pub data OwnChange (h : Host) (cs : List Call) : Text → Body → Type 0 where
  stops :
      (procedure : Text) (input : Body) → is_stop procedure ≡ true → OwnChange h cs procedure input
  creates : (input : Body) → OwnChange h cs (codes "compose.create") input
  updates :
      (id : Text) (rest : Body)
      → CreatedAs h id cs
      → OwnChange h cs (codes "compose.update") (compose_id id ∷ rest)
  deploys :
      (id : Text) → CreatedAs h id cs → OwnChange h cs (codes "compose.deploy") (compose_id id ∷ [])
  deletes :
      (id : Text)
      → CreatedAs h id cs
      → OwnChange h cs
          (codes "compose.delete")
          (compose_id id ∷ plain (codes "deleteVolumes", bool false) ∷ [])

module _ (h : Host) where
  -- A request to Dokploy that is no GET is one of those above.
  abbrev pub OwnWrite : Call → List Call → Type 0
  OwnWrite (to_vexdock _ _ _) cs = Unit {0}
  OwnWrite (to_dokploy get procedure input) cs = Unit {0}
  OwnWrite (to_dokploy _ procedure input) cs = OwnChange h cs procedure input

  abbrev pub OwnWrites : List Call → Type 0
  OwnWrites [] = Unit {0}
  OwnWrites (c ∷ cs) = OwnWrite c cs × OwnWrites cs

  pub own_of_reads :
      (c : Call) → ReadsDokploy c → (cs : List Call) → OwnWrites cs → OwnWrites (c ∷ cs)
  own_of_reads (to_dokploy get procedure input) r cs o = (tt, o)
  own_of_reads (to_dokploy _ procedure input) r cs o = absurd r
  own_of_reads (to_vexdock m path body) r cs o = (tt, o)

module _ (h : Host) (t : Target) where
  -- The same, in a state where `id` has been created.
  abbrev WithExporter : Text → List Call → Type 0
  WithExporter id cs = OwnWrites h cs × CreatedAs h id cs

  with_of_reads :
      (id : Text) (c : Call)
      → ReadsDokploy c
      → (cs : List Call) → WithExporter id cs
      → WithExporter id (c ∷ cs)
  with_of_reads id c r cs (o, made) = (own_of_reads h c r cs o, there c made)

  Keeps-after_body :
      {A : Type 0} {P : World → Type 0} (r : Result A) (last : M (Unit {0}))
      → Keeps P last
      → Keeps P (after_body r last)
  Keeps-after_body (ok a) last k = Keeps-bind last _ k (λ _. Keeps-pure a)
  Keeps-after_body (error message) last k = Keeps-bind last _ k (λ _. Keeps-throw message)
  Keeps-after_body waiting last k = record { at = λ w p. p }

  pub Keeps-try_finally :
      {A : Type 0} {P : World → Type 0} (body : M A) (last : M (Unit {0}))
      → Keeps P body
      → Keeps P last
      → Keeps P (try_finally body last)
  unfolding try_finally
  Keeps-try_finally body last kb kl = record {
    at = λ w p. (Keeps-after_body (body w).0 last kl).at (body w).1 (kb.at w p);
  }

  update_call-Keeps :
      (id : Text) (s : Shape) (rest : Body)
      → Keeps
          (OnCalls (WithExporter id))
          (dokploy h s post (codes "compose.update") (compose_id id ∷ rest))
  update_call-Keeps id s rest =
      Keeps-dokploy h s post _ _ λ w p. ((updates id rest p.1, p.0), there _ p.1)

  deploy_call-Keeps :
      (id : Text) (s : Shape)
      → Keeps
          (OnCalls (WithExporter id))
          (dokploy h s post (codes "compose.deploy") (compose_id id ∷ []))
  deploy_call-Keeps id s = Keeps-dokploy h s post _ _ λ w p. ((deploys id p.1, p.0), there _ p.1)

  pull_volume-Keeps :
      (address : Text) (copy : VolumeCopy) (importer_id id key secret : Text)
      → Keeps (OnCalls (WithExporter id)) (pull_volume h t address copy importer_id id key secret)
  unfolding pull_volume
  pull_volume-Keeps address copy importer_id id key secret =
      search
        (
          update_call-Keeps,
          deploy_call-Keeps,
          keeps_rules,
          json-Keeps h (WithExporter id) (with_of_reads id),
        )
        depth 20

  delete_call-Keeps :
      (id : Text) (s : Shape)
      → Keeps (OnCalls (WithExporter id)) (
          dokploy h s post
            (codes "compose.delete")
            (compose_id id ∷ plain (codes "deleteVolumes", bool false) ∷ []))
  delete_call-Keeps id s = Keeps-dokploy h s post _ _ λ w p. ((deletes id p.1, p.0), there _ p.1)

  delete_exporter-Keeps : (id : Text) → Keeps (OnCalls (WithExporter id)) (delete_exporter h t id)
  unfolding delete_exporter
  delete_exporter-Keeps id = search (keeps_rules, delete_call-Keeps)

  -- The world after the request that creates the exporter.
  abbrev after_create : Body → World → World
  after_create input w = record w {
    calls = to_dokploy post (codes "compose.create") input ∷ w.calls;
  }

  own_after_create :
      (input : Body) (w : World) → OwnWrites h w.calls → OwnWrites h (after_create input w).calls
  own_after_create input w o = (creates input, o)

  module _ {B : Type 0} (f : Text → M B)
      (k : (id : Text) → Keeps (OnCalls (WithExporter id)) (f id)) where
    create-answer :
        (input : Body) (w : World) (a : Answer exporter)
        → h.answer exporter w.calls (to_dokploy post (codes "compose.create") input) ≡ a
        → OwnWrites h w.calls
        → OwnWrites h
            ((dokploy_result h (codes "compose.create") a >>= f) (after_create input w)).1.calls
    unfolding ◌>>=◌ throw pure
    create-answer input w (rejected message) e o = own_after_create input w o
    create-answer input w (resolved res) e o = elim (Bool-cases (is_ok res.status)) [
      | inl fine ↦
          rw fine
            ((k res.json).at (after_create input w)
              (own_after_create input w o, here input res e refl)).0
      | inr bad ↦ rw bad (own_after_create input w o)
    ]

    create-Keeps :
        (input : Body)
        → Keeps
            (OnCalls (OwnWrites h))
            (dokploy h exporter post (codes "compose.create") input >>= f)
    unfolding dokploy fetch ◌>>=◌
    create-Keeps input = record {
      at = λ w o.
          create-answer input w
            (h.answer exporter w.calls (to_dokploy post (codes "compose.create") input)) refl o;
    }

  api-with :
      (id : Text) (s : Shape) (m : Method) (path : Text) (body : Body)
      → Keeps (OnCalls (WithExporter id)) (vexdock_api h s m path body)
  api-with id = api-Keeps h (WithExporter id) (with_of_reads id)

  pub wait_forever-Keeps : {A : Type 0} {P : World → Type 0} → Keeps P (wait_forever {A = A})
  wait_forever-Keeps = record { at = λ w p. p }

  await_deploy-Keeps :
      (polls : ℕ) (id status : Text)
      → Keeps (OnCalls (OwnWrites h)) (await_deploy h t polls id status)
  unfolding await_deploy
  await_deploy-Keeps zero id status = search (keeps_rules, wait_forever-Keeps)
  await_deploy-Keeps (suc polls) id status =
      Keeps-if _ _ _
        (Keeps-bind _ _
          (json-Keeps h (OwnWrites h) (own_of_reads h) deployment get
            (codes "/api/deployments/" ++ id) [])
          λ next. await_deploy-Keeps polls id next)
        (Keeps-pure status)

  deploy_and_wait-Keeps :
      (polls : ℕ) (id name : Text)
      → Keeps (OnCalls (OwnWrites h)) (deploy_and_wait h t polls id name)
  unfolding deploy_and_wait
  deploy_and_wait-Keeps polls id name =
      search (keeps_rules, json-Keeps h (OwnWrites h) (own_of_reads h), await_deploy-Keeps) depth 20

  pub copy_volume-Keeps :
      (polls : ℕ) (environment address : Text) (copy : VolumeCopy)
      → Keeps (OnCalls (OwnWrites h)) (copy_volume h t polls environment address copy)
  unfolding copy_volume
  copy_volume-Keeps polls environment address copy =
      search
        (
          create-Keeps,
          keeps_rules,
          json-Keeps h (OwnWrites h) (own_of_reads h),
          deploy_and_wait-Keeps,
          Keeps-try_finally,
          pull_volume-Keeps,
          delete_exporter-Keeps,
          api-with,
        )
        depth 20

  pub restore_dump-Keeps :
      (polls : ℕ) (address : Text) (dump : DatabaseDump)
      → Keeps (OnCalls (OwnWrites h)) (restore_dump h t polls address dump)
  unfolding restore_dump
  restore_dump-Keeps polls address dump =
      search (keeps_rules, json-Keeps h (OwnWrites h) (own_of_reads h), deploy_and_wait-Keeps) depth
        20
