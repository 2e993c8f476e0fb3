-- ===== src/Domains/Panel.antt =====
-- `DomainsPanel` of apps/web/src/components/domains-panel.tsx: its two dialogs and what they send, with
-- the closing of `FormDialog` in apps/web/src/components/primitives.tsx.
use vexdock.Base.{
  ◌≡◌, Bool, true, false, not, ◌&&◌, Option, none, some, List, [], ◌∷◌, if◌then◌else◌,
}
use vexdock.Text.{Text}
use vexdock.Api.Call.{Number}
use vexdock.Api.Types.Projects.{CertificateSource, letsencrypt, uploaded, Domain}
use vexdock.Api.Types.Services.{Service}
use vexdock.Api.Routing.{RoutingCall, create_new_domain, update_domain, NewDomain, DomainChange}

pub record Panel : Type 0 where
  pub warning : Text
  pub adding : Bool
  pub hostname : Text
  pub port : Number
  pub https : Bool
  pub redirect : Bool
  pub source : CertificateSource
  pub cert_pem : Text
  pub key_pem : Text
  pub creating : Bool
  pub replacing : Option Domain
  pub replace_cert : Text
  pub replace_key : Text
  pub sending : Bool

abbrev pub opened : Panel
opened = record {
  warning = [];
  adding = false;
  hostname = [];
  port = record { negative = false; digits = 3000; decimals = 0 };
  https = true;
  redirect = true;
  source = letsencrypt;
  cert_pem = [];
  key_pem = [];
  creating = false;
  replacing = none;
  replace_cert = [];
  replace_key = [];
  sending = false;
}

abbrev pub is_uploaded : CertificateSource → Bool
is_uploaded uploaded = true
is_uploaded letsencrypt = false

-- `condition ? value : undefined`
abbrev pub given {ℓ} : {A : Type ℓ} → Bool → A → Option A
given true a = some a
given false a = none

unfoldable pub new_domain : Text → Service → Panel → NewDomain
new_domain project_id service p = record {
  project_id = project_id;
  environment_id = some service.environment_id;
  service = service.compose_service_name;
  hostname = p.hostname;
  container_port = p.port;
  https_enabled = p.https;
  redirect_https = p.https && p.redirect;
  certificate_source = some (if p.https then p.source else letsencrypt);
  certificate_pem = given (p.https && is_uploaded p.source) p.cert_pem;
  private_key_pem = given (p.https && is_uploaded p.source) p.key_pem;
}

abbrev pub replacement : Panel → DomainChange
replacement p = record {
  hostname = none;
  container_port = none;
  https_enabled = none;
  redirect_https = none;
  certificate_source = some uploaded;
  certificate_pem = some p.replace_cert;
  private_key_pem = some p.replace_key;
}

pub data Event : Type 0 where
  open_add close_add create create_failed : Event
  type_hostname type_cert type_key : Text → Event
  set_port : Number → Event
  set_https set_redirect : Bool → Event
  set_source : CertificateSource → Event
  created : Option Text → Event
  replace : Domain → Event
  close_replace send replaced send_failed : Event
  type_replace_cert type_replace_key : Text → Event

abbrev pub or_empty : Option Text → Text
or_empty none = []
or_empty (some t) = t

abbrev replace_closed : Panel → Panel
replace_closed p = record p { replacing = none; replace_cert = []; replace_key = [] }

-- `onSubmit` of the second dialog.
abbrev pub sent : Option Domain → Panel → Panel × Option RoutingCall
sent none p = (p, none)
sent (some d) p = (record p { sending = true }, some (update_domain d.id (replacement p)))

-- The next state, and the request that is sent. `FormDialog` stays open while its request is under way.
unfoldable pub step : Text → Service → Event → Panel → Panel × Option RoutingCall
step project_id service open_add p = (record p { adding = true }, none)
step project_id service close_add p =
    (if p.creating then p else record p { adding = false; cert_pem = []; key_pem = [] }, none)
step project_id service create p =
    (record p { creating = true }, some (create_new_domain (new_domain project_id service p)))
step project_id service create_failed p = (record p { creating = false }, none)
step project_id service (type_hostname t) p = (record p { hostname = t }, none)
step project_id service (type_cert t) p = (record p { cert_pem = t }, none)
step project_id service (type_key t) p = (record p { key_pem = t }, none)
step project_id service (set_port n) p = (record p { port = n }, none)
step project_id service (set_https on) p = (record p { https = on }, none)
step project_id service (set_redirect on) p = (record p { redirect = on }, none)
step project_id service (set_source s) p = (record p { source = s }, none)
step project_id service (created warning) p = (
  record p {
    warning = or_empty warning;
    hostname = [];
    cert_pem = [];
    key_pem = [];
    adding = false;
    creating = false;
  },
  none,
)
step project_id service (replace d) p = (record p { replacing = some d }, none)
step project_id service close_replace p = (if p.sending then p else replace_closed p, none)
step project_id service send p = sent p.replacing p
step project_id service replaced p = (record (replace_closed p) { sending = false }, none)
step project_id service send_failed p = (record p { sending = false }, none)
step project_id service (type_replace_cert t) p = (record p { replace_cert = t }, none)
step project_id service (type_replace_key t) p = (record p { replace_key = t }, none)

abbrev pub is_some {ℓ} : {A : Type ℓ} → Option A → Bool
is_some none = false
is_some (some _) = true

-- What the page lets happen: fields are there while their dialog is open, the rows lie behind an open
-- dialog, and a button with a request under way does nothing.
abbrev pub can : Event → Panel → Bool
can open_add p = not (is_some p.replacing)
can create p = p.adding && not p.creating
can create_failed p = p.creating
can (type_cert _) p = p.adding
can (type_key _) p = p.adding
can (created _) p = p.creating
can (replace _) p = not (is_some p.replacing) && not p.adding
can send p = is_some p.replacing && not p.sending
can replaced p = p.sending
can send_failed p = p.sending
can (type_replace_cert _) p = is_some p.replacing
can (type_replace_key _) p = is_some p.replacing
can _ p = true

abbrev pub typed_in : Option Domain → Text → List (Text × Text) → List (Text × Text)
typed_in none t log = log
typed_in (some d) t log = (d.id, t) ∷ log

-- The texts that were typed into the second dialog, with the domain it was open for.
abbrev pub logged : Event → Panel → List (Text × Text) → List (Text × Text)
logged (type_replace_cert t) p log = typed_in p.replacing t log
logged (type_replace_key t) p log = typed_in p.replacing t log
logged _ p log = log

-- What happens to a panel, in any order that the page lets happen.
pub data Run (project_id : Text) (service : Service) : List (Text × Text) → Panel → Type 0 where
  begin : Run project_id service [] opened
  on :
      {log : List (Text × Text)} {p : Panel}
      → Run project_id service log p
      → (e : Event) → can e p ≡ true
      → Run project_id service (logged e p log) (step project_id service e p).0
