-- ===== src/Crumbs/Switch.antt =====
-- `switchTo` of `EnvironmentCrumb` in apps/web/src/components/crumb-picker.tsx: on a service page a
-- switch looks up the service of the same name first, and several switches may be under way.
use vexdock.Base.{ℕ, ◌+◌, not, Option, none, some, List, [], ◌∷◌, ◌==◌, if◌then◌else◌}
use vexdock.Text.{Text, codes, text_eq}
use vexdock.Api.Types.Projects.{Environment}
use vexdock.Api.Types.Services.{Service}
use vexdock.Crumbs.Picker.{or_none}

-- Where the crumb navigates: the project page, the service of the same name, or this page, in an
-- environment.
pub data Target : Type 0 where
  project_page this_page : Text → Target
  twin_page : Text → Text → Target

-- A switch that waits for the services of its environment, with what its closure holds.
pub record Lookup : Type 0 where
  pub attempt : ℕ
  pub environment : Text
  pub from : Text

pub record Crumb : Type 0 where
  pub latest_switch : ℕ
  pub switching : Option Text
  pub href : Text

pub data Begun : Type 0 where
  goes : Target → Begun
  looks : Lookup → Begun

abbrev environment_name : List Environment → Text → Text
environment_name [] id = codes "the environment"
environment_name (e ∷ es) id =
    let rest = environment_name es id in if text_eq e.id id then e.name else rest

-- `switchTo` up to its wait; without a service it navigates at once.
abbrev pub switch_from : Text → Option (List Environment) → Crumb → Crumb × Lookup
switch_from id environments c = (
  record c {
    latest_switch = c.latest_switch + 1;
    switching = some (environment_name (or_none environments) id);
  },
  record { attempt = c.latest_switch + 1; environment = id; from = c.href },
)

unfoldable pub switch_to : Option Text → Text → Option (List Environment) → Crumb → Crumb × Begun
switch_to none id environments c = (c, goes (this_page id))
switch_to (some service_id) id environments c =
    let (c', l) = switch_from id environments c in (c', looks l)

-- `services.find`; the name is none until the service is read.
abbrev pub twin_in : Option Text → List Service → Option Service
twin_in none services = none
twin_in (some name) [] = none
twin_in (some name) (s ∷ services) =
    let rest = twin_in (some name) services in
    if text_eq s.compose_service_name name then some s else rest

abbrev pub target_of : Text → Option Service → Target
target_of environment none = project_page environment
target_of environment (some twin) = twin_page twin.id environment

-- The rest of `switchTo`, once the services are there; none is a read that failed.
unfoldable pub arrive : Option Text → Lookup → Option (List Service) → Crumb → Crumb × Option Target
arrive name l services c =
    if not (l.attempt == c.latest_switch)
    then (c, none)
    else if not (text_eq c.href l.from)
    then (record c { switching = none }, none)
    else (
      record c { switching = none },
      some (target_of l.environment (twin_in name (or_none services))),
    )

-- Several switches in a row, and answers in the order in which they arrive. Until a navigation that
-- is asked for has happened, the page is the one it started from.
unfoldable pub switches : Option (List Environment) → List Text → Crumb → Crumb × List Lookup
switches environments [] c = (c, [])
switches environments (id ∷ ids) c =
    let (c', l) = switch_from id environments c in
    let (c'', ls) = switches environments ids c' in (c'', l ∷ ls)

abbrev pub with_target : Option Target → List Target → List Target
with_target none ts = ts
with_target (some t) ts = t ∷ ts

abbrev pub Answer : Type 0
Answer = Lookup × Option (List Service)

unfoldable pub arrivals : Option Text → List Answer → Crumb → Crumb × List Target
arrivals name [] c = (c, [])
arrivals name ((l, services) ∷ answers) c =
    let (c', t) = arrive name l services c in
    let (c'', ts) = arrivals name answers c' in (c'', with_target t ts)
