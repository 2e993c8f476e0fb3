-- ===== src/Bulk/Ran.antt =====
-- What a run of `useServiceBulk` has done when it ends.
use vexdock.Base.{
  ℕ, suc, ◌+◌, ◌-◌, ◌≡◌, ◌⊎◌, refl, sym, ap, inl, inr, false, Option, none, some, List, [], ◌∷◌,
  ◌++◌, map, length, length-append, append_assoc, append-nil, arith, ◌==◌,
}
use mathlib.Core.Path.{subst}
use vexdock.Text.{Text}
use vexdock.Api.Services.{ServiceCall, duplicate_service}
use vexdock.Api.Types.Services.{Service}
use vexdock.Bulk.Free.{free_name-found}
use vexdock.Bulk.Run.{
  Bulk, Manager, RunEnd, start, stop, deploy, delete, duplicate, move, finished, failed, call_for,
  run_rows, run, failure, targets, chosen,
}

call_for-some :
    (b : Bulk) (row : Service) (taken : List Text)
    → (c : ServiceCall) × (t : List Text) × (call_for b row taken ≡ some (c, t))
unfolding call_for
call_for-some start row taken = (_, _, refl)
call_for-some stop row taken = (_, _, refl)
call_for-some deploy row taken = (_, _, refl)
call_for-some delete row taken = (_, _, refl)
call_for-some (move e) row taken = (_, _, refl)
call_for-some duplicate row taken =
    let (name, found, _, _) = free_name-found row.compose_service_name taken in
    (
      duplicate_service row.id (record { name = name; environment_id = none }),
      name ∷ taken,
      rw found,
    )

abbrev pub names : List Service → List Text
names rows = map (λ r. r.compose_service_name) rows

answer-cases :
    {S : Type 0} (p : S × Option Text)
    → ((s : S) × (p ≡ (s, none))) ⊎ ((s : S) × (m : Text) × (p ≡ (s, some m)))
answer-cases (s, none) = inl (s, refl)
answer-cases (s, some m) = inr (s, m, refl)

counted :
    (done : List Text) (name : Text) (rows : List Service)
    → length (done ++ name ∷ []) + length rows ≡ length done + suc (length rows)
counted done name rows = omega (arith, length-append done (name ∷ []))

plus_none : (done : List Text) → length done + 0 ≡ length done
plus_none done = omega arith

module _ {S : Type 0} (ask : Manager S) (b : Bulk) where
  -- The rows were acted on one after the other, with these calls, and each call was answered.
  pub data Done : S → List Text → List Service → List ServiceCall → S → List Text → Type 0 where
    nothing_left : {s : S} {taken : List Text} → Done s taken [] [] s taken
    one_more :
        {s s' s'' : S} {taken taken' taken'' : List Text} {row : Service} {rows : List Service}
        {c : ServiceCall} {cs : List ServiceCall}
        → call_for b row taken ≡ some (c, taken')
        → ask s c ≡ (s', none)
        → Done s' taken' rows cs s'' taken''
        → Done s taken (row ∷ rows) (c ∷ cs) s'' taken''

  -- A run from `s`, with `done` behind it, either acts on all rows and counts them, or on those
  -- before one whose call fails: the error names that one, then those done.
  pub data Report (skipped : ℕ) (rows : List Service) (s : S) (taken done : List Text)
      : S × RunEnd → Type 0 where
    all_done :
        {s' : S} {taken' : List Text} {cs : List ServiceCall}
        → Done s taken rows cs s' taken'
        → Report skipped rows s taken done (s', finished (length done + length rows) skipped)
    stops_at :
        (before : List Service) (row : Service) (after : List Service) {s' s'' : S}
        {taken' t : List Text} {cs : List ServiceCall} {c : ServiceCall} {message : Text}
        → rows ≡ before ++ row ∷ after
        → Done s taken before cs s' taken'
        → call_for b row taken' ≡ some (c, t)
        → ask s' c ≡ (s'', some message)
        → Report skipped rows s taken done
            (s'', failed (failure row.compose_service_name message (done ++ names before)))

  Report-one_more :
      {skipped : ℕ} {row : Service} {rows : List Service} {s s' : S} {taken taken' done : List Text}
      {c : ServiceCall} {o : S × RunEnd}
      → call_for b row taken ≡ some (c, taken')
      → ask s c ≡ (s', none)
      → Report skipped rows s' taken' (done ++ row.compose_service_name ∷ []) o
      → Report skipped (row ∷ rows) s taken done o
  Report-one_more {row = row} {rows = rows} {done = done} e a (all_done d) =
      rw (counted done row.compose_service_name rows) (all_done (one_more e a d))
  Report-one_more {row = row} {done = done} e a (stops_at before x after split d e' a') =
      rw (append_assoc done (row.compose_service_name ∷ []) (names before))
        (stops_at (row ∷ before) x after (ap (λ l. row ∷ l) split) (one_more e a d) e' a')

  stops_first :
      {skipped : ℕ} {row : Service} {rows : List Service} {s s' : S} {taken t done : List Text}
      {c : ServiceCall} {message : Text}
      → call_for b row taken ≡ some (c, t)
      → ask s c ≡ (s', some message)
      → Report skipped
          (row ∷ rows)
          s
          taken
          done
          (s', failed (failure row.compose_service_name message done))
  stops_first {skipped = skipped} {row = row} {rows = rows} {s = s} {s' = s'} {taken = taken}
        {done = done} {message = message} e a =
      subst
        (λ l.
          Report skipped (row ∷ rows) s taken done
            (s', failed (failure row.compose_service_name message l)))
        (append-nil done) (stops_at [] row rows refl nothing_left e a)

  run_rows-Report :
      (skipped : ℕ) (rows : List Service) (s : S) (taken done : List Text)
      → Report skipped rows s taken done (run_rows ask b skipped rows s taken done)
  unfolding run_rows
  run_rows-Report skipped [] s taken done = rw (sym (plus_none done)) (all_done nothing_left)
  run_rows-Report skipped (row ∷ rows) s taken done =
      let (c, taken', e) = call_for-some b row taken in
      elim (answer-cases (ask s c)) [
        | inl (s', a) ↦
            rw (e, a)
              (Report-one_more e a
                (run_rows-Report skipped rows s' taken' (done ++ row.compose_service_name ∷ [])))
        | inr (s', message, a) ↦ rw (e, a) (stops_first e a)
      ]

  -- A run over a selection in which some row meets the action's need acts on exactly those rows,
  -- one call after the other in their order. It ends: with their number where every call is
  -- answered, and otherwise at the first call that fails, with the rows before it acted on and no
  -- later one, and with an error that names that row and lists those before it. Rows that lack what
  -- the action needs are skipped and counted.
  pub run-Report :
      (services : List Service) (selected : List Text) (s : S)
      → (length (targets b (chosen services selected)) == 0) ≡ false
      → Report
          (length (chosen services selected) - length (targets b (chosen services selected)))
          (targets b (chosen services selected))
          s
          (names services)
          []
          (run ask b services selected s)
  unfolding run
  run-Report services selected s some_row = rw some_row (
      run_rows-Report
        (length (chosen services selected) - length (targets b (chosen services selected)))
        (targets b (chosen services selected)) s (names services) [])
