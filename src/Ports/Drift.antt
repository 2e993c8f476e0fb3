-- ===== src/Ports/Drift.antt =====
-- When the ports of a service wait for a deploy.
use vexdock.Base.{
  ◌≡◌, refl, ap, ◌∙◌, inl, inr, Bool, true, false, not, ◌&&◌, ◌||◌, none, some, List, [], ◌∷◌, ◌++◌,
  map, all, All, Bool-cases,
}
use vexdock.Text.{Text, decimal}
use vexdock.Api.Call.{Number}
use vexdock.Api.Types.Services.{HostPort, ServicePort}
use vexdock.Bulk.Names.{has}
use vexdock.Ports.Keys.{IsPort, HasPorts, IsOpen, is_live, is_stored, all-live, all-stored}
use vexdock.Ports.{
  PortRow, drifts, stored_key, live_key, stored_row, live_rows, insert_row, sort_rows, port_rows,
  is_pending,
}

or_swap : (a b c : Bool) → (b || (a || c)) ≡ (a || (b || c))
or_swap true true c = refl
or_swap true false c = refl
or_swap false b c = refl

or_not : (a b : Bool) → (not a || not b) ≡ not (a && b)
or_not true b = refl
or_not false b = refl

or_assoc : (a b c : Bool) → (a || (b || c)) ≡ ((a || b) || c)
or_assoc true b c = refl
or_assoc false b c = refl

or_false : (a : Bool) → (a || false) ≡ a
or_false true = refl
or_false false = refl

is_pending-append :
    (xs ys : List PortRow) → is_pending (xs ++ ys) ≡ (is_pending xs || is_pending ys)
is_pending-append [] ys = refl
is_pending-append (x ∷ xs) ys =
    ap (λ b. drifts x.state || b) (is_pending-append xs ys)
    ∙ or_assoc (drifts x.state) (is_pending xs) (is_pending ys)

module _ (number_text : Number → Text) (after : PortRow → PortRow → Bool) where
  is_pending-insert_row :
      (r : PortRow) (rows : List PortRow)
      → is_pending (insert_row number_text after r rows) ≡ is_pending (r ∷ rows)
  unfolding insert_row
  is_pending-insert_row r [] = refl
  is_pending-insert_row r (s ∷ rows) = elim (Bool-cases (after r s)) [
    | inl later ↦
        rw (later, is_pending-insert_row r rows)
          (or_swap (drifts r.state) (drifts s.state) (is_pending rows))
    | inr first ↦ rw first refl
  ]

  is_pending-sort_rows :
      (rows : List PortRow) → is_pending (sort_rows number_text after rows) ≡ is_pending rows
  unfolding sort_rows
  is_pending-sort_rows [] = refl
  is_pending-sort_rows (r ∷ rows) =
      is_pending-insert_row r (sort_rows number_text after rows)
      ∙ ap (λ b. drifts r.state || b) (is_pending-sort_rows rows)

  abbrev key_live : List HostPort → ServicePort → Bool
  key_live live p = has (stored_key number_text after p) (map (live_key number_text after) live)

  abbrev key_stored : List ServicePort → HostPort → Bool
  key_stored stored p =
      has (live_key number_text after p) (map (stored_key number_text after) stored)

  is_pending-stored :
      (live : List HostPort) (stored : List ServicePort)
      → is_pending (map (stored_row number_text after (some live)) stored)
        ≡ not (all (key_live live) stored)
  is_pending-stored live [] = refl
  is_pending-stored live (p ∷ stored) = elim (Bool-cases (key_live live p)) [
    | inl in_use ↦ rw (in_use, is_pending-stored live stored)
    | inr absent ↦ rw absent refl
  ]

  is_pending-live :
      (known seen : List Text) (ports : List HostPort)
      → is_pending (live_rows number_text after known seen ports)
        ≡ not (
            all
              (λ p.
                has (live_key number_text after p) known || has (live_key number_text after p) seen)
              ports)
  unfolding live_rows
  is_pending-live known seen [] = refl
  is_pending-live known seen (p ∷ ports) =
      elim (Bool-cases
        (has (live_key number_text after p) known || has (live_key number_text after p) seen)) [
          | inl passed ↦ rw (passed, is_pending-live known seen ports)
          | inr new ↦ rw new refl
        ]

  none_seen :
      (known : List Text) (ports : List HostPort)
      → all (λ p. has (live_key number_text after p) known || false) ports
        ≡ all (λ p. has (live_key number_text after p) known) ports
  none_seen known [] = refl
  none_seen known (p ∷ ports) =
      rw (or_false (has (live_key number_text after p) known), none_seen known ports)

  never_pending :
      (stored : List ServicePort)
      → is_pending (map (stored_row number_text after none) stored) ≡ false
  never_pending [] = refl
  never_pending (p ∷ stored) = never_pending stored

  -- The card of a running container says that a deploy is due exactly where the stored ports and
  -- those that the container holds open are not the same, each by its published port, target and
  -- protocol; that of a stopped one never does. The order of the rows has no part in it. The numbers
  -- are ports, from 0 to 65535, which `String` writes in decimal.
  pub port_rows-is_pending :
      ((n : Number) → IsPort n → number_text n ≡ decimal n.digits)
      → (stored : List ServicePort) (live : List HostPort) → All HasPorts stored
      → All IsOpen live
      → (is_pending (port_rows number_text after stored (some live))
          ≡ not (all (is_live live) stored && all (is_stored stored) live))
        × (is_pending (port_rows number_text after stored none) ≡ false)
  unfolding port_rows live_rows
  port_rows-is_pending prints stored live hs hl = (
    is_pending-sort_rows _
        ∙ is_pending-append (map (stored_row number_text after (some live)) stored) _
        ∙ rw
            (
              is_pending-stored live stored,
              is_pending-live (map (stored_key number_text after) stored) [] live,
              none_seen (map (stored_key number_text after) stored) live,
              all-live number_text after prints stored live hs hl,
              all-stored number_text after prints stored live hs hl,
            )
            (or_not (all (is_live live) stored) (all (is_stored stored) live)),
    is_pending-sort_rows _
        ∙ is_pending-append (map (stored_row number_text after none) stored) []
        ∙ rw (never_pending stored) refl,
  )
