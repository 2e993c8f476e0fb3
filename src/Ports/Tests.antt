-- ===== src/Ports/Tests.antt =====
-- The examples of apps/web/src/components/service-routing.test.ts.
use vexdock.Base.{
  ℕ, ◌≤◌, ◌≡◌, refl, Bool, false, not, ◌&&◌, none, some, List, [], ◌∷◌, map, all, ltb, arith,
}
use vexdock.Text.{Text, codes, decimal}
use vexdock.Api.Call.{Number}
use vexdock.Api.Types.Services.{HostPort, ServicePort, tcp}
use vexdock.Ports.{
  PortRow, open_now, closed, opens_on_deploy, closes_on_deploy, insert_row, is_pending, live_rows,
  port_rows, sort_rows,
}
use vexdock.Ports.Keys.{IsPort, is_live, is_stored}
use vexdock.Ports.Drift.{port_rows-is_pending}

abbrev natural : ℕ → Number
natural n = record { negative = false; digits = n; decimals = 0 }

abbrev digits_of : Number → Text
digits_of n = decimal n.digits

abbrev behind : PortRow → PortRow → Bool
behind a b = ltb b.published.digits a.published.digits

abbrev stored : Text → ℕ → ℕ → ServicePort
stored id published target = record {
  id = id;
  service_id = codes "svc";
  published = natural published;
  target = natural target;
  protocol = tcp;
  created_at = [];
}

abbrev live : ℕ → Text → HostPort
live published ip = record {
  ip = ip;
  published = natural published;
  target = natural 5432;
  protocol = codes "tcp";
}

abbrev database : ServicePort
database = stored (codes "a") 5403 5432

abbrev moved : ServicePort
moved = stored (codes "a") 5403 5433

abbrev both_families : List HostPort
both_families = live 5403 (codes "0.0.0.0") ∷ live 5403 (codes "::") ∷ []

open_test :
    map (λ r. r.state) (port_rows digits_of behind (database ∷ []) (some both_families))
    ≡ open_now ∷ []
unfolding port_rows sort_rows insert_row live_rows decimal
open_test = refl

once_test :
    map (λ r. r.id) (port_rows digits_of behind [] (some both_families))
    ≡ codes "live:5403:5432/tcp" ∷ []
unfolding port_rows sort_rows insert_row live_rows decimal
once_test = refl

stopped_test : map (λ r. r.state) (port_rows digits_of behind (database ∷ []) none) ≡ closed ∷ []
unfolding port_rows sort_rows insert_row live_rows
stopped_test = refl

sorted_test :
    map
      (λ r. r.published.digits)
      (port_rows digits_of behind
        (stored (codes "b") 9000 1 ∷ stored (codes "a") 8080 1 ∷ [])
        (some (live 5403 [] ∷ [])))
    ≡ 5403 ∷ 8080 ∷ 9000 ∷ []
unfolding port_rows sort_rows insert_row live_rows decimal
sorted_test = refl

moved_test :
    map (λ r. r.state) (port_rows digits_of behind (moved ∷ []) (some (live 5403 [] ∷ [])))
    ≡ opens_on_deploy ∷ closes_on_deploy ∷ []
unfolding port_rows sort_rows insert_row live_rows decimal
moved_test = refl

small-IsPort : (n : ℕ) → n ≤ 65535 → IsPort (natural n)
small-IsPort n h = (refl, refl, h)

port_rows-is_pending_example :
    (is_pending (port_rows digits_of behind (moved ∷ []) (some both_families))
      ≡ not
          (all (is_live both_families) (moved ∷ []) && all (is_stored (moved ∷ [])) both_families))
    × (is_pending (port_rows digits_of behind (moved ∷ []) none) ≡ false)
port_rows-is_pending_example =
    port_rows-is_pending digits_of behind (λ n h. refl) (moved ∷ []) both_families
      ((small-IsPort 5403 (omega arith), small-IsPort 5433 (omega arith)), tt)
      (
        (small-IsPort 5403 (omega arith), small-IsPort 5432 (omega arith)),
        ((small-IsPort 5403 (omega arith), small-IsPort 5432 (omega arith)), tt),
      )
