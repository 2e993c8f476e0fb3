-- ===== src/Migrate/Run/Order.antt =====
-- In which order scripts/migrate-dokploy.ts touches Dokploy.
use vexdock.Base.{true, ℕ, Option, none, some, List, [], ◌∷◌, ◌≡◌, All}
use vexdock.Text.{Text}
use vexdock.Migrate.Types.{
  DokployApp, DokployCompose, DokployPostgres, VexdockProject, Body, post, Shape, Source, Call,
}
use vexdock.Migrate.World.{Host, initial, dokploy}
use vexdock.Migrate.World.Keeps.{Keeps, Keeps-dokploy, Keeps-throw, keeps_rules}
use vexdock.Migrate.Create.{default_environment}
use vexdock.Migrate.Create.Reads.{
  ReadsDokploy, OnCalls, read-Keeps, api-Keeps, json-Keeps, project-Keeps, create_app-Keeps,
  create_compose-Keeps, create_postgres-Keeps,
}
use vexdock.Migrate.Volumes.Owned.{
  is_stop, stops, OwnWrites, own_of_reads, copy_volume-Keeps, restore_dump-Keeps,
}
use vexdock.Migrate.Run.{
  Prepared, prepare, stop_app, stop_compose, stop_postgres, stop_all, move_data, cut_over, migrate,
}

module _ (h : Host) (Q : List Call → Type 0)
    (stable : (c : Call) → ReadsDokploy c → (cs : List Call) → Q cs → Q (c ∷ cs)) where
  default-Keeps : (p : VexdockProject) → Keeps (OnCalls Q) (default_environment p)
  unfolding default_environment
  default-Keeps p = search keeps_rules

  pub prepare-Keeps : (name : Text) → Keeps (OnCalls Q) (prepare h name)
  unfolding prepare
  prepare-Keeps name =
      search
        (
          keeps_rules,
          read-Keeps h Q stable,
          json-Keeps h Q stable,
          project-Keeps h Q stable,
          default-Keeps,
          create_app-Keeps h Q stable,
          create_compose-Keeps h Q stable,
          create_postgres-Keeps h Q stable,
        )
        depth 40

-- Nothing on Dokploy has changed when the preparation ends, in whichever way it ends: it sends
-- Dokploy nothing but GET.
pub prepare-reads : (h : Host) (name : Text) → All ReadsDokploy (prepare h name initial).1.calls
prepare-reads h name = (prepare-Keeps h (All ReadsDokploy) (λ c r cs q. (r, q)) name).at initial tt

module _ (h : Host) where
  stop-own :
      (s : Shape) (procedure : Text) (input : Body)
      → is_stop procedure ≡ true
      → Keeps (OnCalls (OwnWrites h)) (dokploy h s post procedure input)
  stop-own s procedure input other =
      Keeps-dokploy h s post procedure input (λ w o. (stops procedure input other, o))

  stop_app-own : (app : DokployApp) → Keeps (OnCalls (OwnWrites h)) (stop_app h app)
  unfolding stop_app
  stop_app-own app = search (keeps_rules, stop-own) depth 10

  stop_compose-own : (c : DokployCompose) → Keeps (OnCalls (OwnWrites h)) (stop_compose h c)
  unfolding stop_compose
  stop_compose-own c = search (keeps_rules, stop-own) depth 10

  stop_postgres-own : (pg : DokployPostgres) → Keeps (OnCalls (OwnWrites h)) (stop_postgres h pg)
  unfolding stop_postgres
  stop_postgres-own pg = search (keeps_rules, stop-own) depth 10

  stop_all-own : (source : Source) → Keeps (OnCalls (OwnWrites h)) (stop_all h source)
  unfolding stop_all
  stop_all-own source = search (keeps_rules, stop_app-own, stop_compose-own) depth 10

  cut_over-own : (polls : ℕ) (p : Prepared) → Keeps (OnCalls (OwnWrites h)) (cut_over h polls p)
  unfolding cut_over move_data
  cut_over-own polls p =
      search
        (
          keeps_rules,
          stop_all-own,
          copy_volume-Keeps h p.target,
          restore_dump-Keeps h p.target,
          stop_postgres-own,
          api-Keeps h (OwnWrites h) (own_of_reads h),
        )
        depth 20

  migrate-own :
      (polls : ℕ) (name : Option Text) → Keeps (OnCalls (OwnWrites h)) (migrate h polls name)
  unfolding migrate
  migrate-own polls none = Keeps-throw _
  migrate-own polls (some []) = Keeps-throw _
  migrate-own polls (some (c ∷ cs)) =
      search (keeps_rules, cut_over-own, prepare-Keeps h (OwnWrites h) (own_of_reads h)) depth 10

  -- Whatever the servers answer and however the run ends, each request to Dokploy that is no GET
  -- stops an application, a compose or a database, creates a compose, or updates, deploys or deletes
  -- a compose which an earlier request of the run created. A compose is deleted without its volumes,
  -- and nothing else is deleted.
  pub migrate-OwnWrites :
      (polls : ℕ) (name : Option Text) → OwnWrites h (migrate h polls name initial).1.calls
  migrate-OwnWrites polls name = (migrate-own polls name).at initial tt
