-- ===== src/Bulk/Duplicates.antt =====
-- The names of the duplicates that one run of `useServiceBulk` asks for.
use vexdock.Base.{◌≡◌, sym, ap, false, none, some, List, [], ◌∷◌}
use mathlib.Core.Option.{some-injective}
use vexdock.Text.{Text}
use vexdock.Api.Services.{ServiceCall, duplicate_service}
use vexdock.Api.Types.Services.{Service}
use vexdock.Bulk.Names.{has}
use vexdock.Bulk.Free.{free_name-found}
use vexdock.Bulk.Run.{Manager, duplicate, call_for}
use vexdock.Bulk.Ran.{Done, one_more}

-- The names in the calls.
abbrev pub asked : List ServiceCall → List Text
asked [] = []
asked (duplicate_service _ d ∷ cs) = d.name ∷ asked cs
asked (_ ∷ cs) = asked cs

-- Each name is new beside `taken` and the names before it.
abbrev pub AllNew : List Text → List Text → Type 0
AllNew taken [] = Unit {0}
AllNew taken (n ∷ ns) = (has n taken ≡ false) × AllNew (n ∷ taken) ns

duplicate_call :
    (row : Service) (taken taken' : List Text) (c : ServiceCall)
    → call_for duplicate row taken ≡ some (c, taken')
    → (name : Text) × (has name taken ≡ false)
      × (c ≡ duplicate_service row.id (record { name = name; environment_id = none }))
      × (taken' ≡ name ∷ taken)
unfolding call_for
duplicate_call row taken taken' c e =
    let (name, found, new, _) = free_name-found row.compose_service_name taken in
    let same = some-injective _ _ (rw found at e) in
    (name, new, sym (ap (λ p. p.0) same), sym (ap (λ p. p.1) same))

module _ {S : Type 0} (ask : Manager S) where
  -- The duplicates of one run are asked for under names that no service of the environment has, and
  -- that differ from each other.
  pub Done-AllNew :
      (s s' : S) (taken taken' : List Text) (rows : List Service) (cs : List ServiceCall)
      → Done ask duplicate s taken rows cs s' taken'
      → AllNew taken (asked cs)
  Done-AllNew s s' taken taken' [] [] d = tt
  Done-AllNew s s' taken taken' [] (c ∷ cs) d = elim d [ ]
  Done-AllNew s s' taken taken' (row ∷ rows) [] d = elim d [ ]
  Done-AllNew s s' taken taken' (row ∷ rows) (c ∷ cs) (one_more {s' = t} {taken' = more} e a rest) =
      let (name, new, call, list) = duplicate_call row taken more c e in
      rw call (new, rw list at (Done-AllNew t s' more taken' rows cs rest))
