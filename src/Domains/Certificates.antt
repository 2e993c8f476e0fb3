-- ===== src/Domains/Certificates.antt =====
-- What apps/web/src/components/domains-panel.tsx says of a domain's certificate, with
-- `certificateStatus` of apps/web/src/lib/api.ts. `Date.parse` and `Date.now` are parameters; `none` is
-- no date, with which no comparison holds.
use vexdock.Base.{
  ℕ, Bool, true, false, not, ◌&&◌, Option, none, some, List, [], ◌∷◌, leb, any, filter,
  if◌then◌else◌,
}
use vexdock.Text.{Text, text_eq}
use vexdock.Api.Types.Projects.{Domain}
use vexdock.Api.Types.Access.{Certificate, CertificateStatus, pending, issued, failed}

pub data Standing : Type 0 where
  http_only unknown issuing failed_issue expired expires : Standing

abbrev is_past : Option ℕ → ℕ → Bool
is_past none now = false
is_past (some at) now = leb at now

abbrev pub is_issued : CertificateStatus → Bool
is_issued issued = true
is_issued _ = false

-- `certificateStatus(certificate) === 'expired'`
unfoldable pub is_expired : (Text → Option ℕ) → ℕ → Certificate → Bool
is_expired parse now c = is_issued c.status && is_past (parse c.expires_at) now

abbrev pub certificate_of : Text → List Certificate → Option Certificate
certificate_of id [] = none
certificate_of id (c ∷ cs) =
    let rest = certificate_of id cs in if text_eq c.domain_id id then some c else rest

abbrev standing_as : CertificateStatus → Bool → Standing
standing_as pending past = issuing
standing_as failed past = failed_issue
standing_as issued past = if past then expired else expires

abbrev standing_of : (Text → Option ℕ) → ℕ → Option Certificate → Standing
standing_of parse now none = issuing
standing_of parse now (some c) = standing_as c.status (is_expired parse now c)

-- `CertificateState`
unfoldable pub certificate_state :
    (Text → Option ℕ) → ℕ → Domain → Option (List Certificate) → Standing
certificate_state parse now d none = if not d.https_enabled then http_only else unknown
certificate_state parse now d (some cs) =
    if not d.https_enabled then http_only else standing_of parse now (certificate_of d.id cs)

abbrev is_failed : CertificateStatus → Bool
is_failed failed = true
is_failed _ = false

-- The rows of the service, and the failures that its alerts name.
abbrev pub rows_of : Text → List Domain → List Domain
rows_of service_id domains = filter (λ d. text_eq d.service_id service_id) domains

unfoldable pub failures : List Domain → List Certificate → List Certificate
failures rows cs = filter (λ c. is_failed c.status && any (λ d. text_eq d.id c.domain_id) rows) cs
