-- ===== src/Domains/Kept.antt =====
-- What the state of apps/web/src/components/domains-panel.tsx holds of the certificates and private keys
-- that are typed into its dialogs, after each event.
use vexdock.Base.{
  ◌≡◌, ◌⊎◌, inl, inr, refl, Bool, true, false, not, ◌&&◌, Option, none, some, List, [], ◌∷◌, arith,
  any, Bool-cases,
}
use vexdock.Text.{Text, text_eq, text_eq_iff}
use vexdock.Api.Types.Projects.{Domain}
use vexdock.Api.Types.Services.{Service}
use vexdock.Domains.Panel.{
  Panel, Event, open_add, close_add, create, create_failed, type_hostname, type_cert, type_key,
  set_port, set_https, set_redirect, set_source, created, replace, close_replace, send, replaced,
  send_failed, type_replace_cert, type_replace_key, sent, step, can, logged, Run, begin, on,
  is_some, typed_in,
}

-- Nothing is kept of a dialog that is closed.
abbrev pub IsGone : Bool → Text → Type 0
IsGone true t = Unit
IsGone false t = t ≡ []

-- The text was typed while the dialog was open for this domain.
abbrev pub IsTyped : List (Text × Text) → Text → Text → Type 0
IsTyped log id t = any (λ e. text_eq e.0 id && text_eq e.1 t) log ≡ true

abbrev pub IsOwn : List (Text × Text) → Text → Text → Type 0
IsOwn log id t = (t ≡ []) ⊎ IsTyped log id t

abbrev pub OwnText : List (Text × Text) → Option Domain → Text → Type 0
OwnText log none t = t ≡ []
OwnText log (some d) t = IsOwn log d.id t

-- What is typed into the dialogs stays with them.
pub record Kept (log : List (Text × Text)) (adding : Bool) (cert key : Text)
    (replacing : Option Domain) (replace_cert replace_key : Text) : Type 0 where
  pub cert_gone : IsGone adding cert
  pub key_gone : IsGone adding key
  pub own_cert : OwnText log replacing replace_cert
  pub own_key : OwnText log replacing replace_key

abbrev pub KeptIn : List (Text × Text) → Panel → Type 0
KeptIn log p = Kept log p.adding p.cert_pem p.key_pem p.replacing p.replace_cert p.replace_key

IsOwn-more :
    (log : List (Text × Text)) (id t other : Text) (u : Text)
    → IsOwn log id t
    → IsOwn ((other, u) ∷ log) id t
IsOwn-more log id t other u (inl empty) = inl empty
IsOwn-more log id t other u (inr typed) = inr (ground (arith, typed))

typed_now : (log : List (Text × Text)) (id t : Text) → IsOwn ((id, t) ∷ log) id t
typed_now log id t = inr (ground (arith, (text_eq_iff id id).1 refl, (text_eq_iff t t).1 refl))

type_replace_cert-Kept :
    (log : List (Text × Text)) (adding : Bool) (cert key : Text) (r : Option Domain)
    (rc rk t : Text)
    → is_some r ≡ true
    → Kept log adding cert key r rc rk
    → Kept (typed_in r t log) adding cert key r t rk
type_replace_cert-Kept log adding cert key none rc rk t h k = absurd (cc h)
type_replace_cert-Kept log adding cert key (some d) rc rk t h k = record {
  cert_gone = k.cert_gone;
  key_gone = k.key_gone;
  own_cert = typed_now log d.id t;
  own_key = IsOwn-more log d.id rk d.id t k.own_key;
}

type_replace_key-Kept :
    (log : List (Text × Text)) (adding : Bool) (cert key : Text) (r : Option Domain)
    (rc rk t : Text)
    → is_some r ≡ true
    → Kept log adding cert key r rc rk
    → Kept (typed_in r t log) adding cert key r rc t
type_replace_key-Kept log adding cert key none rc rk t h k = absurd (cc h)
type_replace_key-Kept log adding cert key (some d) rc rk t h k = record {
  cert_gone = k.cert_gone;
  key_gone = k.key_gone;
  own_cert = IsOwn-more log d.id rc d.id t k.own_cert;
  own_key = typed_now log d.id t;
}

replace-Kept :
    (log : List (Text × Text)) (adding : Bool) (cert key : Text) (r : Option Domain) (rc rk : Text)
    (d : Domain)
    → is_some r ≡ false
    → Kept log adding cert key r rc rk
    → Kept log adding cert key (some d) rc rk
replace-Kept log adding cert key (some _) rc rk d h k = absurd (cc h)
replace-Kept log adding cert key none rc rk d h k = record {
  cert_gone = k.cert_gone;
  key_gone = k.key_gone;
  own_cert = inl k.own_cert;
  own_key = inl k.own_key;
}

opens-Kept :
    (log : List (Text × Text)) (adding : Bool) (cert key : Text) (r : Option Domain) (rc rk : Text)
    → Kept log adding cert key r rc rk
    → Kept log true cert key r rc rk
opens-Kept log adding cert key r rc rk k = record {
  cert_gone = tt;
  key_gone = tt;
  own_cert = k.own_cert;
  own_key = k.own_key;
}

closes-Kept :
    (log : List (Text × Text)) (adding : Bool) (cert key : Text) (r : Option Domain) (rc rk : Text)
    → Kept log adding cert key r rc rk
    → Kept log false [] [] r rc rk
closes-Kept log adding cert key r rc rk k = record {
  cert_gone = refl;
  key_gone = refl;
  own_cert = k.own_cert;
  own_key = k.own_key;
}

-- A text typed into the first dialog.
types-Kept :
    (log : List (Text × Text)) (adding : Bool) (cert key cert' key' : Text) (r : Option Domain)
    (rc rk : Text)
    → adding ≡ true
    → Kept log adding cert key r rc rk
    → Kept log adding cert' key' r rc rk
types-Kept log false cert key cert' key' r rc rk h k = absurd (cc h)
types-Kept log true cert key cert' key' r rc rk h k =
    opens-Kept log true cert' key' r rc rk
      (record { cert_gone = tt; key_gone = tt; own_cert = k.own_cert; own_key = k.own_key })

replace_closed-Kept :
    (log : List (Text × Text)) (adding : Bool) (cert key : Text) (r : Option Domain) (rc rk : Text)
    → Kept log adding cert key r rc rk
    → Kept log adding cert key none [] []
replace_closed-Kept log adding cert key r rc rk k = record {
  cert_gone = k.cert_gone;
  key_gone = k.key_gone;
  own_cert = refl;
  own_key = refl;
}

send-Kept :
    (log : List (Text × Text)) (r : Option Domain) (p : Panel)
    → p.replacing ≡ r
    → KeptIn log p
    → KeptIn log (sent r p).0
send-Kept log none p e k = k
send-Kept log (some d) p e k = k

and_left : (a b : Bool) → (a && b) ≡ true → a ≡ true
and_left a b h = ground arith

not-eq-true : (a : Bool) → not a ≡ true → a ≡ false
not-eq-true a h = ground arith

module _ (project_id : Text) (service : Service) where
  abbrev next : Event → Panel → Panel
  next e p = (step project_id service e p).0

  step-Kept :
      (log : List (Text × Text)) (e : Event) (p : Panel)
      → can e p ≡ true
      → KeptIn log p
      → KeptIn (logged e p log) (next e p)
  unfolding step
  step-Kept log open_add p h k = opens-Kept log p.adding _ _ _ _ _ k
  step-Kept log close_add p h k = elim (Bool-cases p.creating) [
    | inl busy ↦ rw busy k
    | inr free ↦ rw free (closes-Kept log p.adding p.cert_pem p.key_pem _ _ _ k)
  ]
  step-Kept log create p h k = k
  step-Kept log create_failed p h k = k
  step-Kept log (type_hostname t) p h k = k
  step-Kept log (type_cert t) p h k = types-Kept log p.adding p.cert_pem p.key_pem t _ _ _ _ h k
  step-Kept log (type_key t) p h k = types-Kept log p.adding p.cert_pem p.key_pem _ t _ _ _ h k
  step-Kept log (set_port n) p h k = k
  step-Kept log (set_https b) p h k = k
  step-Kept log (set_redirect b) p h k = k
  step-Kept log (set_source s) p h k = k
  step-Kept log (created w) p h k = closes-Kept log p.adding p.cert_pem p.key_pem _ _ _ k
  step-Kept log (replace d) p h k =
      replace-Kept log _ _ _ p.replacing _ _ d
        (not-eq-true (is_some p.replacing) (and_left (not (is_some p.replacing)) (not p.adding) h))
        k
  step-Kept log close_replace p h k = elim (Bool-cases p.sending) [
    | inl busy ↦ rw busy k
    | inr free ↦ rw free (replace_closed-Kept log _ _ _ p.replacing p.replace_cert p.replace_key k)
  ]
  step-Kept log send p h k = send-Kept log p.replacing p refl k
  step-Kept log replaced p h k =
      replace_closed-Kept log _ _ _ p.replacing p.replace_cert p.replace_key k
  step-Kept log send_failed p h k = k
  step-Kept log (type_replace_cert t) p h k =
      type_replace_cert-Kept log _ _ _ p.replacing p.replace_cert _ t h k
  step-Kept log (type_replace_key t) p h k =
      type_replace_key-Kept log _ _ _ p.replacing _ p.replace_key t h k

  pub Run-Kept :
      (log : List (Text × Text)) (p : Panel) → Run project_id service log p → KeptIn log p
  Run-Kept _ _ begin = record { cert_gone = refl; key_gone = refl; own_cert = refl; own_key = refl }
  Run-Kept _ _ (on {log} {p} r e h) = step-Kept log e p h (Run-Kept log p r)
