-- ===== src/Migrate/Create/Reads.antt =====
-- The steps of scripts/migrate-dokploy.ts that read and create: what they send to Dokploy.
use vexdock.Base.{Option, none, some, List, [], ◌∷◌}
use vexdock.Text.{Text}
use vexdock.Migrate.Types.{
  DokployDomain, DokployMount, DokployPort, DokployApp, DokployCompose, DokployPostgres,
  DatabaseDump, Yaml, Fields, Body, Method, get, Call, to_dokploy, to_vexdock, Shape,
}
use vexdock.Migrate.World.{Host, World, Result, vexdock_api, vexdock_json, dokploy}
use vexdock.Migrate.World.Keeps.{
  Keeps, Keeps-pure, Keeps-modify, Keeps-if, Keeps-vexdock_api, Keeps-vexdock_json, Keeps-dokploy,
  keeps_rules,
}
use vexdock.Migrate.Variables.{put_variables, send_variables, lift, Variable}
use vexdock.Migrate.Create.{
  Target, note_networks, note_path, app_source, create_domain, create_domains, note_copy,
  create_mount, create_port, create_app, raw_fragment, create_compose_service, create_compose,
}
use vexdock.Migrate.Postgres.{note_dump, create_postgres}
use vexdock.Migrate.Source.{read_dokploy_project}

-- A call that changes nothing on Dokploy.
abbrev pub ReadsDokploy : Call → Type 0
ReadsDokploy (to_dokploy get _ _) = Unit {0}
ReadsDokploy (to_dokploy _ _ _) = ⊥
ReadsDokploy (to_vexdock _ _ _) = Unit {0}

-- A property of the requests sent so far.
abbrev pub OnCalls : (List Call → Type 0) → World → Type 0
OnCalls Q w = Q w.calls

-- Any property of the requests that reading calls keep is kept by every step here.
module _ (h : Host) (Q : List Call → Type 0)
    (stable : (c : Call) → ReadsDokploy c → (cs : List Call) → Q cs → Q (c ∷ cs)) where
  pub read-Keeps :
      (s : Shape) (procedure : Text) (input : Body)
      → Keeps (OnCalls Q) (dokploy h s get procedure input)
  read-Keeps s procedure input = Keeps-dokploy h s get procedure input (λ w p. stable _ tt _ p)

  pub api-Keeps :
      (s : Shape) (m : Method) (path : Text) (body : Body)
      → Keeps (OnCalls Q) (vexdock_api h s m path body)
  api-Keeps s m path body = Keeps-vexdock_api h s m path body (λ w p. stable _ tt _ p)

  pub json-Keeps :
      (s : Shape) (m : Method) (path : Text) (body : Body)
      → Keeps (OnCalls Q) (vexdock_json h s m path body)
  json-Keeps s m path body = Keeps-vexdock_json h s m path body (λ w p. stable _ tt _ p)

  lift-Keeps : {A : Type 0} (r : Result A) → Keeps (OnCalls Q) (lift r)
  lift-Keeps r = record { at = λ w p. p }

  send-Keeps : (path : Text) (vs : List Variable) → Keeps (OnCalls Q) (send_variables h path vs)
  send-Keeps path [] = Keeps-pure tt
  send-Keeps path (v ∷ vs) = search (keeps_rules, api-Keeps)

  put-Keeps : (path : Text) (dotenv : Option Text) → Keeps (OnCalls Q) (put_variables h path dotenv)
  unfolding put_variables
  put-Keeps path dotenv = search (keeps_rules, send-Keeps, lift-Keeps)

  pub project-Keeps : (name : Text) → Keeps (OnCalls Q) (read_dokploy_project h name)
  unfolding read_dokploy_project
  project-Keeps name = search (keeps_rules, read-Keeps) depth 40

  app_source-Keeps : (app : DokployApp) → Keeps (OnCalls Q) (app_source h app)
  unfolding app_source
  app_source-Keeps app = search keeps_rules depth 20

  module _ (t : Target) where
    note_path-Keeps : (host path name : Text) → Keeps (OnCalls Q) (note_path host path name)
    unfolding note_path
    note_path-Keeps host path name = Keeps-modify _ (λ w p. p)

    note_dump-Keeps :
        (host name : Text) (d : DatabaseDump) → Keeps (OnCalls Q) (note_dump host name d)
    unfolding note_dump
    note_dump-Keeps host name d = Keeps-modify _ (λ w p. p)

    create_domain-Keeps :
        (name : Text) (d : DokployDomain) → Keeps (OnCalls Q) (create_domain h t name d)
    unfolding create_domain
    create_domain-Keeps name d = search (keeps_rules, note_path-Keeps, api-Keeps)

    create_domains-Keeps :
        (name : Text) (ds : List DokployDomain) → Keeps (OnCalls Q) (create_domains h t name ds)
    unfolding create_domains
    create_domains-Keeps name ds = search (keeps_rules, create_domain-Keeps)

    note_copy-Keeps : (from to : Text) → Keeps (OnCalls Q) (note_copy from to)
    unfolding note_copy
    note_copy-Keeps from to = Keeps-modify _ (λ w p. p)

    create_mount-Keeps :
        (app : DokployApp) (m : DokployMount) → Keeps (OnCalls Q) (create_mount h t app m)
    unfolding create_mount
    create_mount-Keeps app m = search (keeps_rules, note_copy-Keeps) depth 20

    create_port-Keeps : (id : Text) (p : DokployPort) → Keeps (OnCalls Q) (create_port h t id p)
    unfolding create_port
    create_port-Keeps id p = search (keeps_rules, api-Keeps)

    pub create_app-Keeps : (app : DokployApp) → Keeps (OnCalls Q) (create_app h t app)
    unfolding create_app
    create_app-Keeps app =
        search
          (
            keeps_rules, api-Keeps, app_source-Keeps, create_mount-Keeps, create_port-Keeps,
            put-Keeps, create_domains-Keeps,
          )
          depth 40

    note_networks-Keeps : (o : Option Yaml) → Keeps (OnCalls Q) (note_networks o)
    unfolding note_networks
    note_networks-Keeps none = Keeps-pure tt
    note_networks-Keeps (some networks) = Keeps-if _ _ _ (Keeps-modify _ (λ w p. p)) (Keeps-pure tt)

    raw_fragment-Keeps : (body : Fields) → Keeps (OnCalls Q) (raw_fragment h t body)
    unfolding raw_fragment
    raw_fragment-Keeps body = search (keeps_rules, note_networks-Keeps)

    create_compose_service-Keeps :
        (compose : DokployCompose) (s : Text × Fields)
        → Keeps (OnCalls Q) (create_compose_service h t compose s)
    unfolding create_compose_service
    create_compose_service-Keeps compose (name, body) =
        search (keeps_rules, api-Keeps, raw_fragment-Keeps, note_copy-Keeps, create_domains-Keeps)
          depth 40

    pub create_compose-Keeps :
        (compose : DokployCompose) → Keeps (OnCalls Q) (create_compose h t compose)
    unfolding create_compose
    create_compose-Keeps compose =
        search (keeps_rules, put-Keeps, create_compose_service-Keeps) depth 40

    pub create_postgres-Keeps : (pg : DokployPostgres) → Keeps (OnCalls Q) (create_postgres h t pg)
    unfolding create_postgres
    create_postgres-Keeps pg = search (keeps_rules, api-Keeps, json-Keeps, note_dump-Keeps) depth 40
