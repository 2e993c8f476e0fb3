-- ===== src/Migrate/Run/Stops.antt =====
-- scripts/migrate-dokploy.ts stops the applications on Dokploy before it moves their data.
use vexdock.Base.{ℕ, List, [], ◌∷◌, ◌++◌, ◌≡◌, ◌⊎◌, inl, inr, refl, ap, ◌∙◌}
use vexdock.Text.{codes}
use vexdock.Migrate.Types.{
  DokployApp, DokployCompose, DokployPostgres, Source, post, Call, to_dokploy, ignored,
}
use vexdock.Migrate.World.{Host, World, Result, ok, error, waiting, ◌>>=◌, each}
use vexdock.Migrate.World.Keeps.{Keeps, keeps_rules}
use vexdock.Migrate.World.Log.{Sends, sent, calls-each, >>=-eq-ok, world-dokploy, world-bind_pure}
use vexdock.Migrate.Source.{string, plain}
use vexdock.Migrate.Create.Reads.{OnCalls}
use vexdock.Migrate.Volumes.Grows.{any_dokploy, any_api, copy_volume-any, restore_dump-any}
use vexdock.Migrate.Run.{
  Prepared, stop_app, stop_compose, stop_postgres, stop_all, move_data, cut_over,
}

abbrev pub stop_app_call : DokployApp → Call
stop_app_call app =
    to_dokploy post (codes "application.stop")
      (plain (string (codes "applicationId") app.application_id) ∷ [])

abbrev pub stop_compose_call : DokployCompose → Call
stop_compose_call c =
    to_dokploy post (codes "compose.stop") (plain (string (codes "composeId") c.compose_id) ∷ [])

-- The history once every application of the source has been stopped, the latest request first.
abbrev pub all_stopped : Source → List Call → List Call
all_stopped source cs = sent stop_compose_call source.composes (sent stop_app_call source.apps cs)

-- `cs` is `before` with later requests in front.
abbrev pub Extends : List Call → List Call → Type 0
Extends before cs = (later : List Call) × (cs ≡ later ++ before)

module _ (h : Host) where
  stop_app-Sends : Sends stop_app_call (stop_app h)
  unfolding stop_app
  stop_app-Sends = record {
    at = λ app w.
        ap (λ (v : World). v.calls) (world-bind_pure _ tt w ∙ world-dokploy h ignored post _ _ w);
  }

  stop_compose-Sends : Sends stop_compose_call (stop_compose h)
  unfolding stop_compose
  stop_compose-Sends = record {
    at = λ c w.
        ap (λ (v : World). v.calls) (world-bind_pure _ tt w ∙ world-dokploy h ignored post _ _ w);
  }

  -- The stops that go through are one request for each application and each compose, in order.
  calls-stop_all :
      (source : Source) (w : World)
      → (stop_all h source w).0 ≡ ok tt
      → (stop_all h source w).1.calls ≡ all_stopped source w.calls
  unfolding stop_all
  calls-stop_all source w e =
      let (x, first, rest) =
        >>=-eq-ok (each source.apps (stop_app h)) (λ _. each source.composes (stop_compose h)) w
          e in
      ap (λ (r : Result (Unit {0}) × World). r.1.calls) rest
      ∙ calls-each stop_compose_call (stop_compose h) source.composes _ stop_compose-Sends
          (rw rest at e)
      ∙ ap (sent stop_compose_call source.composes)
          (calls-each stop_app_call (stop_app h) source.apps w stop_app-Sends first)

  module _ (polls : ℕ) (p : Prepared) (Q : List Call → Type 0)
      (any_call : (c : Call) (cs : List Call) → Q cs → Q (c ∷ cs)) where
    stop_postgres-any : (pg : DokployPostgres) → Keeps (OnCalls Q) (stop_postgres h pg)
    unfolding stop_postgres
    stop_postgres-any pg = search (keeps_rules, any_dokploy h p.target Q any_call) depth 10

    move_data-any : Keeps (OnCalls Q) (move_data h polls p)
    unfolding move_data
    move_data-any =
        search
          (
            keeps_rules,
            copy_volume-any h p.target Q any_call,
            restore_dump-any h p.target Q any_call,
            stop_postgres-any,
            any_api h p.target Q any_call,
          )
          depth 20

  stopped_first :
      (polls : ℕ) (p : Prepared) (w : World) (r : Result (Unit {0}))
      → (stop_all h p.source w).0 ≡ r
      → (Extends (all_stopped p.source w.calls) (cut_over h polls p w).1.calls)
        ⊎ ((cut_over h polls p w).1.calls ≡ (stop_all h p.source w).1.calls)
  unfolding cut_over ◌>>=◌
  stopped_first polls p w (ok a) e = inl (
      rw e (
        (move_data-any polls p (Extends (all_stopped p.source w.calls))
            (λ c cs x. (c ∷ x.0, ap (λ l. c ∷ l) x.1))).at
          _ ([], calls-stop_all p.source w e)))
  stopped_first polls p w (error message) e = inr (rw e)
  stopped_first polls p w waiting e = inr (rw e)

  -- From its first stop on, the run either ends in the stops, or has stopped every application and
  -- every compose of the source, one request each and in order, before any other request: so no
  -- volume is copied from an application that was not told to stop.
  pub cut_over-stops_first :
      (polls : ℕ) (p : Prepared) (w : World)
      → (Extends (all_stopped p.source w.calls) (cut_over h polls p w).1.calls)
        ⊎ ((cut_over h polls p w).1.calls ≡ (stop_all h p.source w).1.calls)
  cut_over-stops_first polls p w = stopped_first polls p w _ refl
