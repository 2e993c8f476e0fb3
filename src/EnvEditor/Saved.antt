-- ===== src/EnvEditor/Saved.antt =====
-- A save of `VariablesForm` in apps/web/src/components/env-editor.tsx: what is sent, and how the draft
-- ends up.
use mathlib.Core.Path.{subst}
use vexdock.Base.{
  ℕ, ◌≡◌, ◌≢◌, inl, inr, refl, sym, Bool, true, false, none, some, Option, List, [], ◌∷◌, arith,
  ◌==◌, if◌then◌else◌, Bool-cases, All, ==_iff,
}
use vexdock.Text.{Text, text_eq, text_eq_iff}
use vexdock.Dotenv.Entries.{Entry, entry, problem, entries}
use vexdock.Dotenv.Vars.{EnvVar, vars_of, to_dotenv, from_dotenv, line_problems, save_problems}
use vexdock.Dotenv.RoundTrip.{AllStorable, line_problems-to_dotenv}
use vexdock.Dotenv.Save.{AllValid, IsDistinct, save_problems-eq-nil_iff}
use vexdock.Dotenv.Save.Unsaved.{unsaved-to_dotenv}
use vexdock.EnvEditor.Form.{
  Stored, StaleRead, Form, render_stale, render, submit, press_save, on_fresh, on_no_fresh, on_read,
  dirty,
}

AllValid-vars_of :
    (previous : List EnvVar) (es : List Entry)
    → AllValid (vars_of [] es)
    → AllValid (vars_of previous es)
unfolding vars_of
AllValid-vars_of previous [] h = tt
AllValid-vars_of previous (problem _ ∷ es) h = AllValid-vars_of previous es h
AllValid-vars_of previous (entry key raw ∷ es) h = (h.0, AllValid-vars_of previous es h.1)

apart-vars_of :
    (previous : List EnvVar) (key : Text) (es : List Entry)
    → All (λ w. key ≢ w.key) (vars_of [] es)
    → All (λ w. key ≢ w.key) (vars_of previous es)
unfolding vars_of
apart-vars_of previous key [] h = tt
apart-vars_of previous key (problem _ ∷ es) h = apart-vars_of previous key es h
apart-vars_of previous key (entry _ raw ∷ es) h = (h.0, apart-vars_of previous key es h.1)

IsDistinct-vars_of :
    (previous : List EnvVar) (es : List Entry)
    → IsDistinct (vars_of [] es)
    → IsDistinct (vars_of previous es)
unfolding vars_of
IsDistinct-vars_of previous [] h = tt
IsDistinct-vars_of previous (problem _ ∷ es) h = IsDistinct-vars_of previous es h
IsDistinct-vars_of previous (entry key raw ∷ es) h =
    (apart-vars_of previous key es h.0, IsDistinct-vars_of previous es h.1)

-- What may be sent for a form: the variables of its text, with valid keys, each one once.
pub record IsSendable (f : Form) (vars : List EnvVar) : Type 0 where
  pub is_read : vars ≡ from_dotenv f.text f.stored.vars
  pub parses : line_problems f.text ≡ []
  pub valid : AllValid vars
  pub distinct : IsDistinct vars

accepted-IsSendable :
    (f : Form) → save_problems f.text ≡ [] → IsSendable f (from_dotenv f.text f.stored.vars)
unfolding from_dotenv
accepted-IsSendable f h =
    let (parses, valid, distinct) = (save_problems-eq-nil_iff f.text).0 h in
    record {
      is_read = refl;
      parses = parses;
      valid = AllValid-vars_of f.stored.vars (entries f.text) valid;
      distinct = IsDistinct-vars_of f.stored.vars (entries f.text) distinct;
    }

submit-IsSendable :
    (problems : List Text) (f : Form) (vars : List EnvVar)
    → save_problems f.text ≡ problems
    → (submit problems f).1 ≡ some vars
    → IsSendable f vars
submit-IsSendable [] f vars h e =
    subst (λ v. IsSendable f v) (ground arith) (accepted-IsSendable f h)
submit-IsSendable (message ∷ _) f vars h e = absurd (cc e)

-- Where Save sends anything, it sends the variables of the text, whose lines all parse and whose keys
-- are valid and occur once.
pub press_save-IsSendable :
    (f : Form) (vars : List EnvVar) → (press_save f).1 ≡ some vars → IsSendable f vars
unfolding press_save
press_save-IsSendable f vars e = submit-IsSendable (save_problems f.text) f vars refl e

abbrev IsClean : Form → Type 0
IsClean f = f.text ≡ to_dotenv f.stored.vars

clean-dirty :
    (after : Text → Text → Bool) (f : Form)
    → AllStorable f.stored.vars
    → IsClean f
    → dirty after f ≡ false
clean-dirty after f h c =
    rw (c, line_problems-to_dotenv f.stored.vars h, unsaved-to_dotenv after f.stored.vars h) refl

restarted-clean :
    (same : Bool) (t : Text) (f : Form)
    → IsClean f
    → (if same then to_dotenv f.stored.vars else f.text) ≡ to_dotenv f.stored.vars
restarted-clean true t f c = refl
restarted-clean false t f c = c

-- A render of a clean draft leaves it clean, and its array is the same.
record RendersTo (f g : Form) : Type 0 where
  stored : g.stored ≡ f.stored
  clean : IsClean f → IsClean g

render_stale-RendersTo : (stale : Option StaleRead) (f : Form) → RendersTo f (render_stale stale f)
unfolding render_stale
render_stale-RendersTo none f = record { stored = refl; clean = λ c. c }
render_stale-RendersTo (some s) f = elim (Bool-cases (f.stored.at == s.stored)) [
  | inl same ↦ rw same record { stored = refl; clean = λ c. c }
  | inr other ↦
      rw other
        record { stored = refl; clean = λ c. restarted-clean (text_eq f.text s.text) s.text f c }
]

render-dirty :
    (after : Text → Text → Bool) (f : Form)
    → AllStorable f.stored.vars
    → IsClean f
    → dirty after (render f) ≡ false
render-dirty after f h c =
    let r = render_stale-RendersTo f.stale_read f in
    clean-dirty after (render f) (subst (λ s. AllStorable s.vars) (sym r.stored) h) (r.clean c)

-- The draft that was sent, with nothing typed since.
on_fresh-dirty :
    (after : Text → Text → Bool) (n : ℕ) (fresh : Stored) (f : Form)
    → AllStorable fresh.vars
    → dirty after (on_fresh n f.text fresh f) ≡ false
unfolding on_fresh
on_fresh-dirty after n fresh f h =
    render-dirty after _ h (rw ((text_eq_iff f.text f.text).1 refl) refl)

-- The array of the render is still there, so the failed read is only noted.
on_no_fresh-stale :
    (n : ℕ) (f : Form)
    → on_no_fresh n f.text f.stored.at f ≡ record f {
      stale_read = some (record { stored = f.stored.at; text = f.text });
      write = (on_no_fresh n f.text f.stored.at f).write;
    }
unfolding on_no_fresh render_stale
on_no_fresh-stale n f = rw ((==_iff f.stored.at f.stored.at).1 refl) refl

on_read-dirty :
    (after : Text → Text → Bool) (n : ℕ) (fresh : Stored) (f : Form)
    → AllStorable fresh.vars
    → (fresh.at == f.stored.at) ≡ false
    → dirty after (on_read fresh (on_no_fresh n f.text f.stored.at f)) ≡ false
unfolding on_read render_stale
on_read-dirty after n fresh f h other =
    rw (on_no_fresh-stale n f, other, (text_eq_iff f.text f.text).1 refl)
      (clean-dirty after (record f { stored = fresh; text = to_dotenv fresh.vars }) h refl)

-- A save of the draft on screen leaves nothing unsaved: neither where the re-read lands, nor where
-- it fails and the query reads another array later, for an array of storable keys.
pub saved-dirty :
    (after : Text → Text → Bool) (n : ℕ) (fresh : Stored) (f : Form)
    → AllStorable fresh.vars
    → (fresh.at == f.stored.at) ≡ false
    → (dirty after (on_fresh n f.text fresh f) ≡ false)
      × (dirty after (on_read fresh (on_no_fresh n f.text f.stored.at f)) ≡ false)
saved-dirty after n fresh f h other =
    (on_fresh-dirty after n fresh f h, on_read-dirty after n fresh f h other)
