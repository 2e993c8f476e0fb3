-- ===== src/EnvEditor/Form.antt =====
-- `VariablesForm` of apps/web/src/components/env-editor.tsx: the draft, its saving, and the read that
-- follows a save. The query's array has the number `at`, which stands for its identity: the query
-- keeps an array that was read again unchanged. A mutation has the number of its submission.
use vexdock.Base.{
  ℕ, ◌+◌, Bool, not, ◌||◌, Option, none, some, List, [], ◌∷◌, ◌==◌, any, if◌then◌else◌,
}
use vexdock.Text.{Text, text_eq}
use vexdock.Dotenv.Vars.{EnvVar, to_dotenv, from_dotenv, line_problems, save_problems, unsaved}
use vexdock.EnvEditor.Rows.{is_empty}

pub record Stored : Type 0 where
  pub at : ℕ
  pub vars : List EnvVar

-- `staleRead`: what was stored when a re-read failed, and the text that was saved.
pub record StaleRead : Type 0 where
  pub stored : ℕ
  pub text : Text

-- `useMutation`: what the latest submission has come to.
pub data Write : Type 0 where
  idle saved : Write
  pending : ℕ → Write
  failed : Text → Write

pub record Form : Type 0 where
  pub stored : Stored
  pub text : Text
  pub stale_read : Option StaleRead
  pub write : Write
  pub submitted : ℕ

abbrev pub opened : Stored → Form
opened stored = record {
  stored = stored;
  text = to_dotenv stored.vars;
  stale_read = none;
  write = idle;
  submitted = 0;
}

-- A render, which restarts the draft once another array is there.
unfoldable pub render_stale : Option StaleRead → Form → Form
render_stale none f = f
render_stale (some s) f = if f.stored.at == s.stored then f else record f {
  stale_read = none;
  text = if text_eq f.text s.text then to_dotenv f.stored.vars else f.text;
}

abbrev pub render : Form → Form
render f = render_stale f.stale_read f

-- `onChange`: a refusal stays while the text still has the problem that it named.
unfoldable pub after_edit : Text → Write → Write
after_edit next (failed message) =
    if any (text_eq message) (save_problems next) then failed message else idle
after_edit next w = w

unfoldable pub edit : Text → Form → Form
edit next f = record f { text = next; write = after_edit next f.write }

-- `write.mutate(text)`: the next state, and what is sent, if anything is.
abbrev pub submit : List Text → Form → Form × Option (List EnvVar)
submit (message ∷ _) f = (record f { write = failed message; submitted = f.submitted + 1 }, none)
submit [] f = (
  record f { write = pending f.submitted; submitted = f.submitted + 1 },
  some (from_dotenv f.text f.stored.vars),
)

unfoldable pub press_save : Form → Form × Option (List EnvVar)
press_save f = submit (save_problems f.text) f

-- Only the latest submission is shown.
abbrev settled_as : Write → ℕ → Write → Write
settled_as outcome n (pending m) = if m == n then outcome else pending m
settled_as outcome n w = w

-- The server refused submission `n`.
unfoldable pub on_error : ℕ → Text → Form → Form
on_error n message f = record f { write = settled_as (failed message) n f.write }

-- `onSuccess` of submission `n`, once the re-read has landed, or failed: then `seen` is the array of
-- the render that `onSuccess` was called from.
unfoldable pub on_fresh : ℕ → Text → Stored → Form → Form
on_fresh n sent fresh f = render (record f {
  stored = fresh;
  text = if text_eq f.text sent then to_dotenv fresh.vars else f.text;
  write = settled_as saved n f.write;
})

unfoldable pub on_no_fresh : ℕ → Text → ℕ → Form → Form
on_no_fresh n sent seen f = render (record f {
  stale_read = some (record { stored = seen; text = sent });
  write = settled_as saved n f.write;
})

-- The query reads again for a reason of its own.
unfoldable pub on_read : Stored → Form → Form
on_read stored f = render (record f { stored = stored })

-- `dirty` of the Save button.
abbrev pub dirty : (Text → Text → Bool) → Form → Bool
dirty after f = not (is_empty (line_problems f.text)) || unsaved after f.text f.stored.vars

pub data Event : Type 0 where
  edited : Text → Event
  pressed : Event
  refused : ℕ → Text → Event
  reread : ℕ → Text → Stored → Event
  not_reread : ℕ → Text → ℕ → Event
  read : Stored → Event

unfoldable pub step : Event → Form → Form
step (edited next) f = edit next f
step pressed f = (press_save f).0
step (refused n message) f = on_error n message f
step (reread n sent fresh) f = on_fresh n sent fresh f
step (not_reread n sent seen) f = on_no_fresh n sent seen f
step (read stored) f = on_read stored f

-- The texts that the server has taken, with those of an event.
abbrev pub taken_by : Event → List Text → List Text
taken_by (reread n sent fresh) taken = sent ∷ taken
taken_by (not_reread n sent seen) taken = sent ∷ taken
taken_by _ taken = taken

-- What happens to a form, in any order, with the texts that the server took.
pub data Run (start : Stored) : List Text → Form → Type 0 where
  begin : Run start [] (opened start)
  on :
      {taken : List Text} {f : Form}
      → Run start taken f
      → (e : Event) → Run start (taken_by e taken) (step e f)
