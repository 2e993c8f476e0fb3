-- ===== src/Inbox/Items.antt =====
-- `DeploymentInbox` of apps/web/src/components/deployment-inbox.tsx: the notifications, and the pace at
-- which they are drawn again. `Date.parse`, `Date.now` and `toISOString` are parameters; instants are
-- milliseconds since 1970.
use vexdock.Base.{
  ℕ, ◌*◌, ◌-◌, Bool, not, Option, none, some, List, [], ◌∷◌, ◌++◌, ltb, leb, map, filter,
  if◌then◌else◌,
}
use vexdock.Text.{Text, codes}
use vexdock.Format.Times.{since, iso}
use vexdock.Api.Types.Projects.{
  Deployment, DeploymentStatus, queued, running, success, failed, cancelled,
}
use vexdock.Api.Call.{Number}
use vexdock.Api.Types.System.{RecentDeployment}
use vexdock.Inbox.Store.{has}

pub data Tone : Type 0 where
  info success_tone warning danger : Tone

abbrev pub tone_of : DeploymentStatus → Tone
tone_of queued = info
tone_of running = info
tone_of success = success_tone
tone_of failed = danger
tone_of cancelled = warning

abbrev pub word_of : DeploymentStatus → Text
word_of queued = codes "queued"
word_of running = codes "running"
word_of success = codes "succeeded"
word_of failed = codes "failed"
word_of cancelled = codes "canceled"

pub record NotificationItem : Type 0 where
  pub id : Text
  pub title : Text
  pub description : Text
  pub time : Text
  pub date_time : Text
  pub tone : Tone
  pub read : Bool

-- `||` on texts.
abbrev pub or_text : Text → Text → Text
or_text [] t = t
or_text (c ∷ cs) t = c ∷ cs

abbrev stamp_of : Deployment → Text
stamp_of d = or_text d.finished_at d.created_at

-- `status === 'failed' && error`, then `filter(Boolean).join('. ')`.
abbrev with_error : DeploymentStatus → Text → Text → Text
with_error failed (c ∷ error) place = place ++ codes ". " ++ (c ∷ error)
with_error _ _ place = place

-- `Math.max`
abbrev max : ℕ → ℕ → ℕ
max a b = if leb a b then b else a

-- The runtime's numbers in texts, its dates and its clock: `none` is no date, of which `toISOString`
-- throws.
pub record Runtime : Type 0 where
  pub number_text : Number → Text
  pub parse : Text → Option ℕ
  pub now : ℕ
  pub to_iso : ℕ → Text

unfoldable pub item_of : Runtime → List Text → RecentDeployment → ℕ → NotificationItem
item_of runtime read r at = record {
  id = r.deployment.id;
  title =
      or_text r.deployment.service_name r.project_name
      ++ codes " deploy #"
      ++ runtime.number_text r.deployment.number
      ++ codes " "
      ++ word_of r.deployment.status;
  description =
      with_error r.deployment.status r.deployment.error
        (r.project_name ++ codes " / " ++ r.environment_name);
  time = since runtime.parse runtime.now (some (iso (stamp_of r.deployment)));
  date_time = runtime.to_iso at;
  tone = tone_of r.deployment.status;
  read = has r.deployment.id read;
}

-- The notifications and the newest stamp.
abbrev pub Listing : Type 0
Listing = List NotificationItem × ℕ

abbrev listing_with :
    Runtime → List Text → RecentDeployment → Option ℕ → Option Listing → Option Listing
listing_with runtime read r (some at) (some (items, newest)) =
    some (item_of runtime read r at ∷ items, max at newest)
listing_with runtime read r _ _ = none

-- The loop; `none` is the error that `toISOString` throws.
unfoldable pub listing : Runtime → List Text → List Text → List RecentDeployment → Option Listing
listing runtime read dismissed [] = some ([], 0)
listing runtime read dismissed (r ∷ rs) =
    let rest = listing runtime read dismissed rs in
    if has r.deployment.id dismissed
    then rest
    else listing_with runtime read r (runtime.parse (stamp_of r.deployment)) rest

-- The time between two renders.
abbrev pub tick_ms : Runtime → ℕ → ℕ
tick_ms runtime newest = if ltb (runtime.now - newest) (60 * 1000) then 1000 else 30 * 1000

abbrev pub listed_ids : List Text → List RecentDeployment → List Text
listed_ids dismissed rs = filter (λ id. not (has id dismissed)) (map (λ r. r.deployment.id) rs)

-- The ids and the read marks that the notifications carry.
abbrev pub marks : List NotificationItem → List (Text × Bool)
marks items = map (λ i. (i.id, i.read)) items

abbrev pub with_mark : List Text → Text → Text × Bool
with_mark read id = (id, has id read)
