-- ===== src/Migrate/Volumes/Grows.antt =====
-- The steps of scripts/migrate-dokploy.ts that move data only add to the requests sent.
use vexdock.Base.{ℕ, zero, suc, List, [], ◌∷◌, ◌++◌}
use vexdock.Text.{Text, codes}
use vexdock.Migrate.Types.{VolumeCopy, DatabaseDump, Body, Method, get, Call, Shape, deployment}
use vexdock.Migrate.World.{Host, dokploy, vexdock_api, vexdock_json}
use vexdock.Migrate.World.Keeps.{
  Keeps, Keeps-pure, Keeps-bind, Keeps-if, Keeps-dokploy, Keeps-vexdock_api, Keeps-vexdock_json,
  keeps_rules,
}
use vexdock.Migrate.Create.{Target}
use vexdock.Migrate.Create.Reads.{OnCalls}
use vexdock.Migrate.Volumes.{
  await_deploy, deploy_and_wait, pull_volume, delete_exporter, copy_volume, restore_dump,
}
use vexdock.Migrate.Volumes.Owned.{Keeps-try_finally, wait_forever-Keeps}

module _ (h : Host) (t : Target) (Q : List Call → Type 0)
    (any_call : (c : Call) (cs : List Call) → Q cs → Q (c ∷ cs)) where
  pub any_dokploy :
      (s : Shape) (m : Method) (procedure : Text) (input : Body)
      → Keeps (OnCalls Q) (dokploy h s m procedure input)
  any_dokploy s m procedure input = Keeps-dokploy h s m procedure input (λ w q. any_call _ _ q)

  pub any_api :
      (s : Shape) (m : Method) (path : Text) (body : Body)
      → Keeps (OnCalls Q) (vexdock_api h s m path body)
  any_api s m path body = Keeps-vexdock_api h s m path body (λ w q. any_call _ _ q)

  any_json :
      (s : Shape) (m : Method) (path : Text) (body : Body)
      → Keeps (OnCalls Q) (vexdock_json h s m path body)
  any_json s m path body = Keeps-vexdock_json h s m path body (λ w q. any_call _ _ q)

  pull_volume-any :
      (address : Text) (copy : VolumeCopy) (importer_id id key secret : Text)
      → Keeps (OnCalls Q) (pull_volume h t address copy importer_id id key secret)
  unfolding pull_volume
  pull_volume-any address copy importer_id id key secret =
      search (keeps_rules, any_dokploy, any_json) depth 20

  delete_exporter-any : (id : Text) → Keeps (OnCalls Q) (delete_exporter h t id)
  unfolding delete_exporter
  delete_exporter-any id = search (keeps_rules, any_dokploy) depth 20

  await_deploy-any :
      (polls : ℕ) (id status : Text) → Keeps (OnCalls Q) (await_deploy h t polls id status)
  unfolding await_deploy
  await_deploy-any zero id status = search (keeps_rules, wait_forever-Keeps h t)
  await_deploy-any (suc polls) id status =
      Keeps-if _ _ _
        (Keeps-bind _ _ (any_json deployment get (codes "/api/deployments/" ++ id) [])
          λ next. await_deploy-any polls id next)
        (Keeps-pure status)

  deploy_and_wait-any :
      (polls : ℕ) (id name : Text) → Keeps (OnCalls Q) (deploy_and_wait h t polls id name)
  unfolding deploy_and_wait
  deploy_and_wait-any polls id name = search (keeps_rules, any_json, await_deploy-any) depth 20

  pub copy_volume-any :
      (polls : ℕ) (environment address : Text) (copy : VolumeCopy)
      → Keeps (OnCalls Q) (copy_volume h t polls environment address copy)
  unfolding copy_volume
  copy_volume-any polls environment address copy =
      search
        (
          keeps_rules,
          any_json,
          any_dokploy,
          any_api,
          deploy_and_wait-any,
          Keeps-try_finally h t,
          pull_volume-any,
          delete_exporter-any,
        )
        depth 20

  pub restore_dump-any :
      (polls : ℕ) (address : Text) (dump : DatabaseDump)
      → Keeps (OnCalls Q) (restore_dump h t polls address dump)
  unfolding restore_dump
  restore_dump-any polls address dump = search (keeps_rules, any_json, deploy_and_wait-any) depth 20
