-- ===== src/Ports/Keys.antt =====
-- `portKey` of apps/web/src/components/service-routing.tsx tells ports apart as their three parts do.
use vexdock.Base.{
  ℕ, ◌≤◌, ◌≡◌, refl, ap, inl, inr, Bool, true, false, ◌&&◌, List, [], ◌∷◌, ◌++◌, map, all, any, All,
  Bool-cases, arith, ◌==◌, ==_iff, leb,
}
use vexdock.Text.{Text, text_eq, text_eq_iff, decimal}
use vexdock.Text.Laws.{Lacks}
use vexdock.Text.Decimal.{all-decimal, decimal-injective}
use vexdock.Api.Call.{Number}
use vexdock.Api.Types.Services.{HostPort, ServicePort}
use vexdock.Bulk.Names.{has}
use vexdock.Ports.{PortRow, port_key, protocol_text, stored_key, live_key}

-- A number that can be a port.
abbrev pub IsPort : Number → Type 0
IsPort n = (n.negative ≡ false) × (n.decimals ≡ 0) × (n.digits ≤ 65535)

abbrev pub HasPorts : ServicePort → Type 0
HasPorts p = IsPort p.published × IsPort p.target

abbrev pub IsOpen : HostPort → Type 0
IsOpen p = IsPort p.published × IsPort p.target

-- The same published port, target and protocol.
abbrev same : Number → Number → Text → Number → Number → Text → Bool
same published target protocol published' target' protocol' =
    published.digits == published'.digits
    && (target.digits == target'.digits && text_eq protocol protocol')

-- A stored port is among the live ones, and the other way about.
abbrev pub is_live : List HostPort → ServicePort → Bool
is_live live p =
    any (λ q. same p.published p.target (protocol_text p.protocol) q.published q.target q.protocol)
      live

abbrev pub is_stored : List ServicePort → HostPort → Bool
is_stored stored q =
    any (λ p. same q.published q.target q.protocol p.published p.target (protocol_text p.protocol))
      stored

text_eq-append :
    (c : ℕ) (s s' t t' : Text)
    → Lacks c s
    → Lacks c s'
    → text_eq (s ++ c ∷ t) (s' ++ c ∷ t') ≡ (text_eq s s' && text_eq t t')
text_eq-append c [] [] t t' h h' = ground arith
text_eq-append c [] (y ∷ s') t t' h h' = ground arith
text_eq-append c (x ∷ s) [] t t' h h' = ground arith
text_eq-append c (x ∷ s) (y ∷ s') t t' h h' = ground (arith, text_eq-append c s s' t t')

Lacks-all : (p : ℕ → Bool) (c : ℕ) (s : Text) → p c ≡ false → all p s ≡ true → Lacks c s
Lacks-all p c [] out h = refl
Lacks-all p c (x ∷ s) out h = elim (Bool-cases (x == c)) [
  | inl eq ↦ absurd (ground (arith, ap p ((==_iff x c).0 eq)))
  | inr ne ↦ rw ne (Lacks-all p c s out (ground arith))
]

Lacks-decimal : (c n : ℕ) → (leb b'0' c && leb c b'9') ≡ false → Lacks c (decimal n)
Lacks-decimal c n out = Lacks-all (λ x. leb b'0' x && leb x b'9') c (decimal n) out (all-decimal n)

text_eq-decimal : (m n : ℕ) → text_eq (decimal m) (decimal n) ≡ (m == n)
text_eq-decimal m n = elim (Bool-cases (text_eq (decimal m) (decimal n))) [
  | inl e ↦ ground (arith, decimal-injective m n ((text_eq_iff (decimal m) (decimal n)).0 e))
  | inr e ↦ elim (Bool-cases (m == n)) [
    | inl eq ↦
        absurd (cc ((text_eq_iff (decimal m) (decimal n)).1 (ap decimal ((==_iff m n).0 eq)), e))
    | inr ne ↦ rw (e, ne) refl
  ]
]

-- `String` of a port is its decimal digits.
module _ (number_text : Number → Text) (after : PortRow → PortRow → Bool)
    (prints : (n : Number) → IsPort n → number_text n ≡ decimal n.digits) where
  text_eq-port_key :
      (a b c d : Number) (p q : Text)
      → IsPort a × IsPort b
      → IsPort c × IsPort d
      → text_eq (port_key number_text after a b p) (port_key number_text after c d q)
        ≡ same a b p c d q
  text_eq-port_key a b c d p q (ha, hb) (hc, hd) = rw (
    prints a ha,
    prints b hb,
    prints c hc,
    prints d hd,
    text_eq-append b':' (decimal a.digits) (decimal c.digits) _ _ (Lacks-decimal b':' a.digits refl)
        (Lacks-decimal b':' c.digits refl),
    text_eq-append b'/' (decimal b.digits) (decimal d.digits) p q (Lacks-decimal b'/' b.digits refl)
        (Lacks-decimal b'/' d.digits refl),
    text_eq-decimal a.digits c.digits,
    text_eq-decimal b.digits d.digits,
  )

  has-live_key :
      (p : ServicePort) (live : List HostPort)
      → HasPorts p
      → All IsOpen live
      → has (stored_key number_text after p) (map (live_key number_text after) live)
        ≡ is_live live p
  has-live_key p [] hp h = refl
  has-live_key p (q ∷ live) hp h = rw (
    text_eq-port_key _ _ _ _ (protocol_text p.protocol) q.protocol hp h.0,
    has-live_key p live hp h.1,
  )

  has-stored_key :
      (q : HostPort) (stored : List ServicePort)
      → IsOpen q
      → All HasPorts stored
      → has (live_key number_text after q) (map (stored_key number_text after) stored)
        ≡ is_stored stored q
  has-stored_key q [] hq h = refl
  has-stored_key q (p ∷ stored) hq h = rw (
    text_eq-port_key _ _ _ _ q.protocol (protocol_text p.protocol) hq h.0,
    has-stored_key q stored hq h.1,
  )

  pub all-live :
      (stored : List ServicePort) (live : List HostPort)
      → All HasPorts stored
      → All IsOpen live
      → all
          (λ p. has (stored_key number_text after p) (map (live_key number_text after) live))
          stored
        ≡ all (is_live live) stored
  all-live [] live hs hl = refl
  all-live (p ∷ stored) live hs hl = rw (has-live_key p live hs.0 hl, all-live stored live hs.1 hl)

  pub all-stored :
      (stored : List ServicePort) (live : List HostPort)
      → All HasPorts stored
      → All IsOpen live
      → all
          (λ q. has (live_key number_text after q) (map (stored_key number_text after) stored))
          live
        ≡ all (is_stored stored) live
  all-stored stored [] hs hl = refl
  all-stored stored (q ∷ live) hs hl =
      rw (has-stored_key q stored hl.0 hs, all-stored stored live hs hl.1)
