-- ===== src/EnvEditor/Tests.antt =====
-- Runs of apps/web/src/components/env-editor.tsx.
use vexdock.Base.{◌≡◌, refl, Bool, true, false, some, List, [], ◌∷◌, map}
use vexdock.Text.{Text, codes, is_space, is_line_end}
use vexdock.Dotenv.Vars.{EnvVar, from_dotenv, line_problems}
use vexdock.Dotenv.RoundTrip.{AllStorable}
use vexdock.Dotenv.Save.{word-IsStorable}
use vexdock.Dotenv.Tests.{after_units, dotenv_code}
use vexdock.EnvEditor.Rows.{
  key_text, key_typed, value_typed, patched, patch_at, remove_at, type_key, add, remove, patch,
  edit_rows, edit_text, edit_all, no_rows, overriding, Edit,
}
use vexdock.EnvEditor.Table.{edit_all-rows, table_all}
use vexdock.EnvEditor.Line.{comment, plain, pair, color_line}
use vexdock.EnvEditor.Form.{
  Stored, Form, opened, edit, press_save, on_fresh, on_no_fresh, on_read, after_edit, edited,
  pressed, reread, step, Run, begin, on, dirty, idle,
}
use vexdock.EnvEditor.Kept.{step-IsKept, IsKept}
use vexdock.EnvEditor.Saved.{saved-dirty}
use vexdock.Format.Scan.{span}

abbrev var : Text → Text → Bool → EnvVar
var k v secret = record { key = k; value = v; is_secret = secret; updated_at = [] }

abbrev two : List EnvVar
two = var (codes "HOST") (codes "db # main") false ∷ var (codes "PASS") (codes "•") true ∷ []

abbrev two_text : Text
two_text = codes "# note\nHOST=\"db # main\"\nPASS=•"

abbrev sitting : List Edit
sitting =
    type_key (codes "NEW-KEY")
    ∷ add
    ∷ patch 2 (value_typed (codes "a\"b\nc"))
    ∷ patch 0 (key_typed (codes "HOST 2"))
    ∷ remove 1
    ∷ []

two_parses : line_problems two_text ≡ []
unfolding dotenv_code
two_parses = refl

-- The comment is gone, the typed keys are cleaned, and the renamed row counts as secret.
sitting_text :
    (edit_all two sitting (no_rows, two_text)).1
    ≡ codes "HOST2=\"db # main\"\nNEWKEY=\"a\\\"b\\nc\""
unfolding dotenv_code key_text patched patch_at remove_at edit_rows edit_text edit_all
sitting_text = refl

edit_all-rows_example :
    (from_dotenv (edit_all two sitting (no_rows, two_text)).1 two
      ≡ (table_all two sitting (no_rows, from_dotenv two_text two)).1)
    × (line_problems (edit_all two sitting (no_rows, two_text)).1 ≡ [])
edit_all-rows_example = edit_all-rows two sitting two_text two_parses

colors :
    map color_line (codes "  # x" ∷ codes " A=1=2" ∷ codes "A B=1" ∷ codes "=x" ∷ [])
    ≡ comment (codes "  # x")
      ∷ pair (codes " ") (codes "A") (codes "1=2")
      ∷ plain (codes "A B=1")
      ∷ plain (codes "=x")
      ∷ []
unfolding color_line span is_space is_line_end dotenv_code
colors = refl

counted : overriding (some (var (codes "PASS") [] true ∷ [])) two ≡ 1
unfolding overriding
counted = refl

abbrev first_read : Stored
first_read = record { at = 0; vars = two }

abbrev second_read : Stored
second_read = record { at = 1; vars = var (codes "PORT") (codes "80") true ∷ [] }

abbrev port_typed : Form
port_typed = record (opened first_read) { text = codes "PORT=80" }

-- Saved, and typed on before the answer.
abbrev typed_on : Form
typed_on =
    step (edited (codes "PORT=81"))
      (step pressed (step (edited (codes "PORT=80")) (opened first_read)))

typed_on_Run : Run first_read [] typed_on
typed_on_Run = on (on (on begin (edited (codes "PORT=80"))) pressed) (edited (codes "PORT=81"))

step-IsKept_example :
    IsKept
      (codes "PORT=80" ∷ [])
      typed_on.text
      (step (reread 0 (codes "PORT=80") second_read) typed_on)
step-IsKept_example =
    step-IsKept first_read [] typed_on (reread 0 (codes "PORT=80") second_read) typed_on_Run refl

ports_Storable : AllStorable second_read.vars
ports_Storable = (word-IsStorable (codes "PORT") refl, tt)

saved-dirty_example :
    (dirty after_units (on_fresh 0 port_typed.text second_read port_typed) ≡ false)
    × (dirty after_units (on_read second_read (on_no_fresh 0 port_typed.text 0 port_typed)) ≡ false)
saved-dirty_example = saved-dirty after_units 0 second_read port_typed ports_Storable refl

ports_sent : (press_save port_typed).1 ≡ some second_read.vars
unfolding press_save edit dotenv_code
ports_sent = refl

-- A refused Save stays until its problem is gone.
refused_text : Form
refused_text = (press_save (edit (codes "PORT") (opened first_read))).0

stays : (edit (codes "PORT \nA=1") refused_text).write ≡ refused_text.write
unfolding edit press_save after_edit dotenv_code refused_text
stays = refl

goes : (edit (codes "PORT=1") refused_text).write ≡ idle
unfolding edit press_save after_edit dotenv_code refused_text
goes = refl
