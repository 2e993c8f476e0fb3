-- ===== src/Domains/Keys.antt =====
-- The certificates and private keys that are typed into the dialogs of
-- apps/web/src/components/domains-panel.tsx.
use mathlib.Core.Path.{subst}
use mathlib.Core.Option.{some-injective}
use vexdock.Base.{sym, ap, ◌≡◌, refl, false, Option, none, some, List, []}
use vexdock.Text.{Text}
use vexdock.Api.Types.Projects.{Domain}
use vexdock.Api.Types.Services.{Service}
use vexdock.Api.Routing.{RoutingCall, update_domain, DomainChange}
use vexdock.Domains.Panel.{Panel, opened, replacement, send, sent, step, Run}
use vexdock.Domains.Kept.{IsOwn, OwnText, IsGone, Run-Kept}

-- The domain and the change of a request.
abbrev change_of : RoutingCall → Text × DomainChange
change_of (update_domain id change) = (id, change)
change_of _ = ([], replacement opened)

update-injective :
    (a b : Text) (x y : DomainChange) → update_domain a x ≡ update_domain b y → (a ≡ b) × (x ≡ y)
update-injective a b x y e = (ap (λ c. (change_of c).0) e, ap (λ c. (change_of c).1) e)

module _ (project_id : Text) (service : Service) where
  -- What may be sent for a domain: no text that was typed for another one.
  pub record IsOwnChange (log : List (Text × Text)) (id : Text) (change : DomainChange)
      : Type 0 where
    pub cert : Text
    pub key : Text
    pub is_cert : change.certificate_pem ≡ some cert
    pub is_key : change.private_key_pem ≡ some key
    pub own_cert : IsOwn log id cert
    pub own_key : IsOwn log id key

  sent-own :
      (log : List (Text × Text)) (r : Option Domain) (p : Panel) (id : Text) (change : DomainChange)
      → p.replacing ≡ r
      → OwnText log r p.replace_cert
      → OwnText log r p.replace_key
      → (sent r p).1 ≡ some (update_domain id change)
      → IsOwnChange log id change
  sent-own log none p id change e c k h = absurd (cc h)
  sent-own log (some d) p id change e c k h =
      let (same_id, same_change) =
        update-injective d.id id (replacement p) change (some-injective _ _ h) in
      rw (sym same_id, sym same_change)
        record {
          cert = p.replace_cert;
          key = p.replace_key;
          is_cert = refl;
          is_key = refl;
          own_cert = c;
          own_key = k;
        }

  -- Whatever happens to the panel, in any order, Replace certificate sends for a domain only what was
  -- typed while the dialog was open for that domain, or nothing.
  pub send-IsOwnChange :
      (log : List (Text × Text)) (p : Panel) (id : Text) (change : DomainChange)
      → Run project_id service log p
      → (step project_id service send p).1 ≡ some (update_domain id change)
      → IsOwnChange log id change
  unfolding step
  send-IsOwnChange log p id change r h =
      let k = Run-Kept project_id service log p r in
      sent-own log p.replacing p id change refl k.own_cert k.own_key h

  -- Once both dialogs are closed, the page keeps no certificate and no private key.
  pub Run-forgets :
      (log : List (Text × Text)) (p : Panel)
      → Run project_id service log p
      → p.adding ≡ false
      → p.replacing ≡ none
      → (p.cert_pem ≡ []) × (p.key_pem ≡ []) × (p.replace_cert ≡ []) × (p.replace_key ≡ [])
  Run-forgets log p r add_closed replace_closed =
      let k = Run-Kept project_id service log p r in
      (
        subst (λ b. IsGone b p.cert_pem) add_closed k.cert_gone,
        subst (λ b. IsGone b p.key_pem) add_closed k.key_gone,
        subst (λ o. OwnText log o p.replace_cert) replace_closed k.own_cert,
        subst (λ o. OwnText log o p.replace_key) replace_closed k.own_key,
      )
