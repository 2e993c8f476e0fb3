-- ===== src/Bulk/Run.antt =====
-- `run` of `useServiceBulk` in apps/web/src/components/service-bulk-actions.tsx: the calls of one
-- action, in order, up to the first that fails.
use vexdock.Base.{
  ℕ, ◌-◌, Bool, true, false, not, ◌&&◌, Option, none, some, List, [], ◌∷◌, ◌++◌, map, length, ◌==◌,
  if◌then◌else◌, filter,
}
use vexdock.Text.{Text, codes, text_eq, ends_with, slice_last}
use vexdock.Api.Services.{
  ServiceCall, delete_service, duplicate_service, move_service, deploy_service, service_action,
  start_service, stop_service,
}
use vexdock.Api.Types.Services.{Service, ServiceProvider, unconfigured}
use vexdock.Bulk.Names.{has, free_name}

pub data Bulk : Type 0 where
  start stop deploy delete duplicate : Bulk
  move : Text → Bulk

-- `needs`: what a row has to have, what it lacks, and the remedy.
pub data Need : Type 0 where
  nothing source container : Need

abbrev pub need_of : Bulk → Need
need_of deploy = source
need_of start = container
need_of stop = container
need_of _ = nothing

abbrev is_unconfigured : ServiceProvider → Bool
is_unconfigured unconfigured = true
is_unconfigured _ = false

abbrev pub meets : Need → Service → Bool
meets nothing s = true
meets source s = not (is_unconfigured s.provider)
meets container s = not (text_eq s.state [])

abbrev pub has_need : Need → Bool
has_need nothing = false
has_need _ = true

abbrev pub lacks : Need → Text
lacks nothing = []
lacks source = codes "source"
lacks container = codes "container"

abbrev fix : Need → Text
fix nothing = []
fix source = codes "set one on the General tab"
fix container = codes "deploy first"

abbrev pub chosen : List Service → List Text → List Service
chosen services selected = filter (λ s. has s.id selected) services

abbrev pub targets : Bulk → List Service → List Service
targets b rows = filter (meets (need_of b)) rows

abbrev no_target : Need → ℕ → Text
no_target need rows =
    (if rows == 1
      then codes "The selected service has no"
      else codes "None of the selected services has a")
    ++ b' ' ∷ lacks need
    ++ codes " yet; "
    ++ fix need
    ++ codes "."

-- `join(', ')`
abbrev pub listed : List Text → Text
listed [] = []
listed (t ∷ []) = t
listed (t ∷ u ∷ ts) = t ++ codes ", " ++ listed (u ∷ ts)

-- `replace(/\.$/u, '')`
abbrev pub strip_dot : Text → Text
strip_dot m = if ends_with b'.' m then slice_last m else m

abbrev pub already_done : List Text → Text
already_done [] = []
already_done (t ∷ ts) = codes " Already done for " ++ listed (t ∷ ts) ++ codes "."

abbrev pub failure : Text → Text → List Text → Text
failure name message done =
    name ++ codes ": " ++ strip_dot message ++ codes "." ++ already_done done

-- How a run ends; `never_ends` is a name search without an end.
pub data RunEnd : Type 0 where
  finished : ℕ → ℕ → RunEnd
  failed : Text → RunEnd
  never_ends : RunEnd

-- The call for one row, and the names that are taken then.
abbrev duplicate_as : Text → List Text → Option Text → Option (ServiceCall × List Text)
duplicate_as id taken none = none
duplicate_as id taken (some name) =
    some (duplicate_service id (record { name = name; environment_id = none }), name ∷ taken)

unfoldable pub call_for : Bulk → Service → List Text → Option (ServiceCall × List Text)
call_for (move environment) s taken = some (move_service s.id environment, taken)
call_for duplicate s taken = duplicate_as s.id taken (free_name s.compose_service_name taken)
call_for deploy s taken = some (deploy_service s.id, taken)
call_for delete s taken = some (delete_service s.id, taken)
call_for start s taken = some (service_action s.id start_service, taken)
call_for stop s taken = some (service_action s.id stop_service, taken)

-- The manager: a call changes its state, and answers or throws an error with a message.
abbrev pub Manager : Type 0 → Type 0
Manager S = S → ServiceCall → S × Option Text

module _ {S : Type 0} (ask : Manager S) (b : Bulk) where
  -- One row, with what follows where its call is answered.
  abbrev after_call : Service → List Text → S × Option Text → (S → S × RunEnd) → S × RunEnd
  after_call row done (s, none) rest = rest s
  after_call row done (s, some message) rest =
      (s, failed (failure row.compose_service_name message done))

  abbrev act :
      Service
      → List Text
      → S
      → Option (ServiceCall × List Text)
      → (S → List Text → S × RunEnd)
      → S × RunEnd
  act row done s none rest = (s, never_ends)
  act row done s (some (c, taken)) rest = after_call row done (ask s c) (λ s'. rest s' taken)

  -- The loop; `skipped` is what the run left out.
  unfoldable pub run_rows : ℕ → List Service → S → List Text → List Text → S × RunEnd
  run_rows skipped [] s taken done = (s, finished (length done) skipped)
  run_rows skipped (row ∷ rows) s taken done =
      act row done s (call_for b row taken)
        (λ s' taken'. run_rows skipped rows s' taken' (done ++ row.compose_service_name ∷ []))

  unfoldable pub run : List Service → List Text → S → S × RunEnd
  run services selected s =
      let rows = chosen services selected in
      let acted = targets b rows in
      if length acted == 0 && has_need (need_of b)
      then (s, failed (no_target (need_of b) (length rows)))
      else run_rows (length rows - length acted) acted s
          (map (λ r. r.compose_service_name) services) []
