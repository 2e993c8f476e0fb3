-- ===== src/Crumbs/Tests.antt =====
-- Runs of apps/web/src/components/crumb-picker.tsx.
use vexdock.Base.{ℕ, ◌+◌, ◌-◌, ◌≡◌, refl, true, false, Option, none, some, List, [], ◌∷◌}
use vexdock.Text.{Text, codes, trim, trim_start, trim_end, is_space}
use vexdock.LogView.View.{includes}
use vexdock.Api.Types.Projects.{Environment}
use vexdock.Api.Types.Services.{Service}
use vexdock.Bulk.Tests.{service_of}
use vexdock.Crumbs.Picker.{
  Choice, Picker, shown, active, on_key, enter, arrow_up, open_change, search_change,
}
use vexdock.Crumbs.Walk.{downs, place, on_key-reaches}
use vexdock.Crumbs.Switch.{
  Crumb, Lookup, this_page, twin_page, switch_from, switches, arrivals, arrive, switch_to, goes,
}
use vexdock.Crumbs.Race.{arrivals-last}

abbrev choice : Text → ℕ → Choice ℕ
choice name n = record { id = name; search = name; current = false; target = n }

abbrev three : List (Choice ℕ)
three = choice (codes "api") 1 ∷ choice (codes "web") 2 ∷ choice (codes "web-2") 3 ∷ []

abbrev opened : Picker
opened = open_change true (record { is_open = false; search = codes "old"; active_index = 7 })

searched :
    shown (λ t. t) (search_change (codes " web ") opened) (some three)
    ≡ choice (codes "web") 2 ∷ choice (codes "web-2") 3 ∷ []
unfolding shown includes trim trim_start trim_end is_space
searched = refl

-- From the first option the up key goes to the last.
last_picked :
    on_key enter (on_key arrow_up opened three).0 three
    ≡ (record { is_open = false; search = []; active_index = 2 }, some 3)
unfolding on_key active
last_picked = refl

-- The highlight stands behind the end of a list that was longer before.
abbrev stale : Picker
stale = record { is_open = true; search = []; active_index = 9 }

on_key-reaches_example :
    on_key enter (downs (3 - place stale three + 1) stale three) three
    ≡ (record (downs (3 - place stale three + 1) stale three) { is_open = false }, some 2)
on_key-reaches_example = on_key-reaches stale three 1 (choice (codes "web") 2) refl

abbrev environment : Text → Environment
environment id = record {
  id = id;
  project_id = codes "p";
  name = id;
  slug = id;
  branch = [];
  compose_project_name = id;
  is_default = false;
  created_at = [];
  updated_at = [];
}

abbrev environments : Option (List Environment)
environments = some (environment (codes "main") ∷ environment (codes "test") ∷ [])

abbrev crumb : Crumb
crumb = record { latest_switch = 4; switching = none; href = codes "/projects/p/services/1" }

abbrev on_main : Service
on_main = service_of (codes "9") (codes "web") (codes "running")

abbrev to_main : Lookup
to_main = record { attempt = 5; environment = codes "main"; from = crumb.href }

abbrev main_picked : Crumb
main_picked = (switches environments (codes "main" ∷ []) crumb).0

-- `main` is picked, then `test`; the services of `test` are read first.
arrivals-last_example :
    arrivals
      (some (codes "web"))
      (((switch_from (codes "test") environments main_picked).1, some (on_main ∷ []))
        ∷ (to_main, none)
        ∷ [])
      (switch_from (codes "test") environments main_picked).0
    ≡ (
      record (switch_from (codes "test") environments main_picked).0 { switching = none },
      twin_page (codes "9") (codes "test") ∷ [],
    )
unfolding switches
arrivals-last_example =
    arrivals-last (some (codes "web")) environments (codes "main" ∷ []) (codes "test") crumb []
      ((to_main, none) ∷ []) (some (on_main ∷ [])) tt (refl, tt)

-- Where the reader has left the page, nothing navigates.
left :
    arrive
      (some (codes "web"))
      to_main
      (some (on_main ∷ []))
      (record { latest_switch = 5; switching = some (codes "main"); href = codes "/" })
    ≡ (record { latest_switch = 5; switching = none; href = codes "/" }, none)
unfolding arrive
left = refl

without_service :
    switch_to none (codes "main") environments crumb ≡ (crumb, goes (this_page (codes "main")))
unfolding switch_to
without_service = refl
