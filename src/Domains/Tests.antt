-- ===== src/Domains/Tests.antt =====
-- Runs of apps/web/src/components/domains-panel.tsx.
use vexdock.Base.{◌≡◌, refl, Bool, true, false, none, some, List, [], ◌∷◌, map}
use vexdock.Text.{Text, codes}
use vexdock.Api.Types.Projects.{Domain, letsencrypt, uploaded}
use vexdock.Api.Types.Access.{Certificate, CertificateStatus, issued, failed}
use vexdock.Api.Types.Services.{Service}
use vexdock.Api.Routing.{update_domain}
use vexdock.Bulk.Tests.{service_of}
use vexdock.Domains.Panel.{
  Panel, opened, new_domain, replacement, Event, replace, close_replace, send, type_replace_cert,
  type_replace_key, step, Run, begin, on,
}
use vexdock.Domains.Keys.{IsOwnChange, send-IsOwnChange, Run-forgets}
use vexdock.Domains.Certificates.{
  certificate_state, is_expired, failures, http_only, issuing, failed_issue, expired,
}

abbrev service : Service
service = service_of (codes "s") (codes "web") (codes "running")

abbrev domain : Text → Bool → Domain
domain id https = record {
  id = id;
  project_id = codes "p";
  environment_id = codes "e";
  service_id = codes "s";
  hostname = id;
  container_port = opened.port;
  https_enabled = https;
  redirect_https = https;
  certificate_source = uploaded;
  created_at = [];
  updated_at = [];
}

abbrev after : Event → Panel → Panel
after e p = (step (codes "p") service e p).0

-- A key typed for `a` is dropped with its dialog; then `b` gets a certificate.
abbrev closed_again : Panel
closed_again =
    after close_replace
      (after (type_replace_key (codes "KEY A")) (after (replace (domain (codes "a") true)) opened))

abbrev typed_for_b : Panel
typed_for_b =
    after (type_replace_cert (codes "CERT B"))
      (after (replace (domain (codes "b") true)) closed_again)

abbrev log_a : List (Text × Text)
log_a = (codes "a", codes "KEY A") ∷ []

closed_Run : Run (codes "p") service log_a closed_again
unfolding step
closed_Run =
    on
      (on (on begin (replace (domain (codes "a") true)) refl) (type_replace_key (codes "KEY A"))
        refl)
      close_replace refl

b_Run : Run (codes "p") service ((codes "b", codes "CERT B") ∷ log_a) typed_for_b
unfolding step
b_Run =
    on (on closed_Run (replace (domain (codes "b") true)) refl) (type_replace_cert (codes "CERT B"))
      refl

b_sent :
    (step (codes "p") service send typed_for_b).1
    ≡ some (update_domain (codes "b") (replacement typed_for_b))
unfolding step
b_sent = refl

send-IsOwnChange_example :
    IsOwnChange
      (codes "p")
      service
      ((codes "b", codes "CERT B") ∷ log_a)
      (codes "b")
      (replacement typed_for_b)
send-IsOwnChange_example =
    send-IsOwnChange (codes "p") service ((codes "b", codes "CERT B") ∷ log_a) typed_for_b
      (codes "b") (replacement typed_for_b) b_Run b_sent

closed_add : closed_again.adding ≡ false
unfolding step
closed_add = refl

closed_replace : closed_again.replacing ≡ none
unfolding step
closed_replace = refl

Run-forgets_example :
    (closed_again.cert_pem ≡ [])
    × (closed_again.key_pem ≡ [])
    × (closed_again.replace_cert ≡ [])
    × (closed_again.replace_key ≡ [])
Run-forgets_example =
    Run-forgets (codes "p") service log_a closed_again closed_Run closed_add closed_replace

-- Without HTTPS neither the certificate nor the redirect is sent.
abbrev plain : Panel
plain = record opened { https = false; source = uploaded; cert_pem = codes "X" }

plain_http :
    ((new_domain (codes "p") service plain).redirect_https ≡ false)
    × ((new_domain (codes "p") service plain).certificate_pem ≡ none)
    × ((new_domain (codes "p") service plain).certificate_source ≡ some letsencrypt)
unfolding new_domain
plain_http = (refl, refl, refl)

abbrev certificate : Text → CertificateStatus → Certificate
certificate id status = record {
  id = id;
  domain_id = id;
  hostname = id;
  issuer = [];
  issued_at = [];
  expires_at = codes "t";
  last_renewed_at = [];
  status = status;
  last_error = [];
  source = letsencrypt;
}

abbrev known : List Certificate
known = certificate (codes "a") issued ∷ certificate (codes "b") failed ∷ []

standings :
    map
      (λ d. certificate_state (λ t. some 5) 5 d (some known))
      (domain (codes "a") true
        ∷ domain (codes "b") true
        ∷ domain (codes "c") true
        ∷ domain (codes "a") false
        ∷ [])
    ≡ expired ∷ failed_issue ∷ issuing ∷ http_only ∷ []
unfolding certificate_state is_expired
standings = refl

alerts : failures (domain (codes "b") true ∷ []) known ≡ certificate (codes "b") failed ∷ []
unfolding failures
alerts = refl
