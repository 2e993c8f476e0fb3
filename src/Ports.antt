-- ===== src/Ports.antt =====
-- `portRows` of apps/web/src/components/service-routing.tsx: the stored ports of a service and those
-- that its container holds open, as one list.
mod Drift
mod Keys
mod Tests
use vexdock.Base.{
  ℕ, Bool, true, false, not, ◌&&◌, ◌||◌, Option, none, some, List, [], ◌∷◌, ◌++◌, map, any,
  if◌then◌else◌,
}
use vexdock.Text.{Text, codes}
use vexdock.Api.Call.{Number}
use vexdock.Api.Types.Services.{HostPort, PortProtocol, ServicePort, tcp, udp}
use vexdock.Bulk.Names.{has}

pub data PortState : Type 0 where
  open_now closed opens_on_deploy closes_on_deploy : PortState

pub record PortRow : Type 0 where
  pub id : Text
  pub published : Number
  pub target : Number
  pub protocol : Text
  pub state : PortState
  pub stored_id : Option Text

abbrev pub protocol_text : PortProtocol → Text
protocol_text tcp = codes "tcp"
protocol_text udp = codes "udp"

-- `list.data`'s row changes with the next deploy.
abbrev pub drifts : PortState → Bool
drifts opens_on_deploy = true
drifts closes_on_deploy = true
drifts _ = false

-- `number_text` is `String` of a number, and `after` tells whether the comparator of two rows is
-- positive.
module _ (number_text : Number → Text) (after : PortRow → PortRow → Bool) where
  abbrev pub port_key : Number → Number → Text → Text
  port_key published target protocol =
      number_text published ++ b':' ∷ (number_text target ++ b'/' ∷ protocol)

  abbrev pub stored_key : ServicePort → Text
  stored_key p = port_key p.published p.target (protocol_text p.protocol)

  abbrev pub live_key : HostPort → Text
  live_key p = port_key p.published p.target p.protocol

  abbrev state_of : Option (List HostPort) → ServicePort → PortState
  state_of none p = closed
  state_of (some live) p =
      if has (stored_key p) (map live_key live) then open_now else opens_on_deploy

  abbrev pub stored_row : Option (List HostPort) → ServicePort → PortRow
  stored_row live p = record {
    id = p.id;
    published = p.published;
    target = p.target;
    protocol = protocol_text p.protocol;
    state = state_of live p;
    stored_id = some p.id;
  }

  abbrev live_row : HostPort → PortRow
  live_row p = record {
    id = codes "live:" ++ live_key p;
    published = p.published;
    target = p.target;
    protocol = p.protocol;
    state = closes_on_deploy;
    stored_id = none;
  }

  -- The loop; `seen` are the keys of the rows so far.
  unfoldable pub live_rows : List Text → List Text → List HostPort → List PortRow
  live_rows known seen [] = []
  live_rows known seen (p ∷ ports) =
      let skipped = live_rows known seen ports in
      let added = live_row p ∷ live_rows known (live_key p ∷ seen) ports in
      if has (live_key p) known || has (live_key p) seen then skipped else added

  -- `toSorted`, which is stable.
  unfoldable pub insert_row : PortRow → List PortRow → List PortRow
  insert_row r [] = r ∷ []
  insert_row r (s ∷ rows) =
      let rest = insert_row r rows in if after r s then s ∷ rest else r ∷ s ∷ rows

  unfoldable pub sort_rows : List PortRow → List PortRow
  sort_rows [] = []
  sort_rows (r ∷ rows) = insert_row r (sort_rows rows)

  abbrev pub or_none : Option (List HostPort) → List HostPort
  or_none none = []
  or_none (some ports) = ports

  unfoldable pub port_rows : List ServicePort → Option (List HostPort) → List PortRow
  port_rows stored live =
      sort_rows
        (map (stored_row live) stored ++ live_rows (map stored_key stored) [] (or_none live))

-- `pending` of the card: some row changes with a deploy.
abbrev pub is_pending : List PortRow → Bool
is_pending rows = any (λ r. drifts r.state) rows
