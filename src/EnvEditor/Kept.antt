-- ===== src/EnvEditor/Kept.antt =====
-- The draft of `VariablesForm` in apps/web/src/components/env-editor.tsx: when it restarts, and what
-- Save sends.
use mathlib.Core.Path.{subst}
use vexdock.Base.{
  ℕ, ◌≡◌, inl, inr, ◌⊎◌, refl, sym, Bool, true, false, Option, none, some, List, [], ◌∷◌, arith,
  ◌==◌, if◌then◌else◌, Bool-cases, any,
}
use vexdock.Text.{Text, text_eq, text_eq_iff}
use vexdock.Dotenv.Vars.{to_dotenv, save_problems}
use vexdock.EnvEditor.Form.{
  Stored, StaleRead, Form, render_stale, render, edit, submit, press_save, on_error, on_fresh,
  on_no_fresh, on_read, Event, edited, pressed, refused, reread, not_reread, read, step, taken_by,
  Run, begin, on,
}

-- The server has taken the text.
abbrev pub IsTaken : List Text → Text → Type 0
IsTaken taken text = any (text_eq text) taken ≡ true

abbrev StaleTaken : List Text → Option StaleRead → Type 0
StaleTaken taken none = Unit
StaleTaken taken (some s) = IsTaken taken s.text

-- The draft stays as it is, or it restarts from what is stored, having been taken.
abbrev pub IsKept : List Text → Text → Form → Type 0
IsKept taken text f = (f.text ≡ text) ⊎ ((f.text ≡ to_dotenv f.stored.vars) × IsTaken taken text)

record Fine (taken : List Text) (text : Text) (f : Form) : Type 0 where
  kept : IsKept taken text f
  stale : StaleTaken taken f.stale_read

IsKept-IsTaken :
    (taken : List Text) (text : Text) (f : Form)
    → IsKept taken text f
    → IsTaken taken f.text
    → IsTaken taken text
IsKept-IsTaken taken text f (inl same) t = subst (λ x. IsTaken taken x) same t
IsKept-IsTaken taken text f (inr (_, was)) t = was

restarted :
    (taken : List Text) (text : Text) (f : Form) (s : StaleRead)
    → IsKept taken text f
    → IsTaken taken s.text
    → Fine taken text (record f {
      stale_read = none;
      text = if text_eq f.text s.text then to_dotenv f.stored.vars else f.text;
    })
restarted taken text f s k t = elim (Bool-cases (text_eq f.text s.text)) [
  | inl unedited ↦ record {
    kept = rw unedited (
        inr (
          refl,
          IsKept-IsTaken taken text f k
              (subst (λ x. IsTaken taken x) (sym ((text_eq_iff f.text s.text).0 unedited)) t),
        ));
    stale = tt;
  }
  | inr typed_on ↦ record { kept = rw typed_on k; stale = tt }
]

render_stale-Fine :
    (taken : List Text) (text : Text) (stale : Option StaleRead) (f : Form)
    → f.stale_read ≡ stale
    → StaleTaken taken stale
    → IsKept taken text f
    → Fine taken text (render_stale stale f)
unfolding render_stale
render_stale-Fine taken text none f e t k = record { kept = k; stale = rw e tt }
render_stale-Fine taken text (some s) f e t k = elim (Bool-cases (f.stored.at == s.stored)) [
  | inl same ↦ rw same record { kept = k; stale = rw e t }
  | inr other ↦ rw other (restarted taken text f s k t)
]

render-Fine :
    (taken : List Text) (text : Text) (f : Form)
    → StaleTaken taken f.stale_read
    → IsKept taken text f
    → Fine taken text (render f)
render-Fine taken text f t k = render_stale-Fine taken text f.stale_read f refl t k

StaleTaken-more :
    (taken : List Text) (sent : Text) (stale : Option StaleRead)
    → StaleTaken taken stale
    → StaleTaken (sent ∷ taken) stale
StaleTaken-more taken sent none t = tt
StaleTaken-more taken sent (some s) t = ground (arith, t)

sent_IsTaken : (taken : List Text) (sent : Text) → IsTaken (sent ∷ taken) sent
sent_IsTaken taken sent = ground (arith, (text_eq_iff sent sent).1 refl)

abbrev pub is_edit : Event → Bool
is_edit (edited next) = true
is_edit _ = false

on_fresh-Fine :
    (taken : List Text) (n : ℕ) (sent : Text) (fresh : Stored) (f : Form)
    → StaleTaken taken f.stale_read
    → Fine (sent ∷ taken) f.text (on_fresh n sent fresh f)
unfolding on_fresh
on_fresh-Fine taken n sent fresh f t =
    render-Fine (sent ∷ taken) f.text _ (StaleTaken-more taken sent f.stale_read t)
      (elim (Bool-cases (text_eq f.text sent)) [
        | inl unedited ↦ rw unedited (inr (refl, ground (arith, unedited)))
        | inr typed_on ↦ rw typed_on (inl refl)
      ])

submit-Fine :
    (taken : List Text) (problems : List Text) (f : Form)
    → StaleTaken taken f.stale_read
    → Fine taken f.text (submit problems f).0
submit-Fine taken [] f t = record { kept = inl refl; stale = t }
submit-Fine taken (message ∷ _) f t = record { kept = inl refl; stale = t }

step-Fine :
    (taken : List Text) (e : Event) (f : Form)
    → is_edit e ≡ false
    → StaleTaken taken f.stale_read
    → Fine (taken_by e taken) f.text (step e f)
unfolding step press_save on_error on_no_fresh on_read
step-Fine taken (edited next) f other t = absurd (cc other)
step-Fine taken pressed f other t = submit-Fine taken (save_problems f.text) f t
step-Fine taken (refused n message) f other t = record { kept = inl refl; stale = t }
step-Fine taken (reread n sent fresh) f other t = on_fresh-Fine taken n sent fresh f t
step-Fine taken (not_reread n sent seen) f other t =
    render-Fine (sent ∷ taken) f.text _ (sent_IsTaken taken sent) (inl refl)
step-Fine taken (read stored) f other t = render-Fine taken f.text _ t (inl refl)

edit-StaleTaken :
    (taken : List Text) (typed : Text) (f : Form)
    → StaleTaken taken f.stale_read
    → StaleTaken taken (edit typed f).stale_read
unfolding edit
edit-StaleTaken taken typed f t = t

step-StaleTaken :
    (taken : List Text) (e : Event) (f : Form)
    → StaleTaken taken f.stale_read
    → StaleTaken (taken_by e taken) (step e f).stale_read
unfolding step
step-StaleTaken taken (edited typed) f t = edit-StaleTaken taken typed f t
step-StaleTaken taken pressed f t = (step-Fine taken pressed f refl t).stale
step-StaleTaken taken (refused n m) f t = (step-Fine taken (refused n m) f refl t).stale
step-StaleTaken taken (reread n sent fresh) f t =
    (step-Fine taken (reread n sent fresh) f refl t).stale
step-StaleTaken taken (not_reread n sent seen) f t =
    (step-Fine taken (not_reread n sent seen) f refl t).stale
step-StaleTaken taken (read stored) f t = (step-Fine taken (read stored) f refl t).stale

Run-StaleTaken :
    (start : Stored) (taken : List Text) (f : Form)
    → Run start taken f
    → StaleTaken taken f.stale_read
Run-StaleTaken start _ _ begin = tt
Run-StaleTaken start _ _ (on {taken} {f} r e) =
    step-StaleTaken taken e f (Run-StaleTaken start taken f r)

-- Whatever has happened to a form, in any order, no event but an edit changes the draft, unless the
-- server has taken that very text: then it may become the text of what is stored.
pub step-IsKept :
    (start : Stored) (taken : List Text) (f : Form) (e : Event)
    → Run start taken f
    → is_edit e ≡ false
    → IsKept (taken_by e taken) f.text (step e f)
step-IsKept start taken f e r other =
    (step-Fine taken e f other (Run-StaleTaken start taken f r)).kept
