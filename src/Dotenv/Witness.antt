-- ===== src/Dotenv/Witness.antt =====
-- The theorems on apps/web/src/lib/dotenv.ts at concrete variables, under the order of code units.
use mathlib.Core.List.{Perm}
use mathlib.Core.List.Perm
use vexdock.Base.{◌≡◌, inl, inr, ◌↔◌, refl, true, false, List, [], ◌∷◌, map, arith, String}
use vexdock.Text.{Text, codes}
use vexdock.Dotenv.Vars.{
  EnvVar, to_dotenv, from_dotenv, line_problems, save_problems, unsaved, insert, to_sorted,
  sorted_dotenv,
}
use vexdock.Dotenv.RoundTrip.{AllStorable, restored, from_dotenv-to_dotenv}
use vexdock.Dotenv.Save.{
  AllValid, IsDistinct, env_key-IsStorable, save_problems-eq-nil_iff, from_dotenv_stable,
}
use vexdock.Dotenv.Save.Unsaved.{saved-perm, pair}
use vexdock.Dotenv.Save.Order.{IsCollation, TellsApart, unsaved-perm}
use vexdock.Dotenv.Tests.{after_units, dotenv_code}

units_asym : (a b : Text) → after_units a b ≡ true → after_units b a ≡ false
unfolding after_units
units_asym [] b h = cc
units_asym (x ∷ a) [] h = refl
units_asym (x ∷ a) (y ∷ b) h = ground (arith, units_asym a b)

units_transitive :
    (a b c : Text) → after_units a b ≡ true → after_units b c ≡ true → after_units a c ≡ true
unfolding after_units
units_transitive [] b c h k = cc
units_transitive (x ∷ a) b [] h k = refl
units_transitive (x ∷ a) [] (z ∷ c) h k = cc
units_transitive (x ∷ a) (y ∷ b) (z ∷ c) h k = ground (arith, units_transitive a b c)

units-IsCollation : IsCollation after_units
units-IsCollation = record { asym = units_asym; transitive = units_transitive }

abbrev plain_var : String → String → EnvVar
plain_var k v = record { key = codes k; value = codes v; is_secret = false; updated_at = [] }

abbrev port : EnvVar
port = plain_var "PORT" "8080"

abbrev dir : EnvVar
dir = plain_var "DIR" "C:\\new\\\nnext # \"x\""

abbrev note : EnvVar
note = plain_var "NOTE" ""

abbrev stored : List EnvVar
stored = port ∷ dir ∷ note ∷ []

abbrev moved : List EnvVar
moved = dir ∷ port ∷ note ∷ []

stored-AllValid : AllValid stored
unfolding dotenv_code
stored-AllValid = (refl, (refl, (refl, tt)))

stored-AllStorable : AllStorable stored
stored-AllStorable = (
  env_key-IsStorable (codes "PORT") stored-AllValid.0,
  (
    env_key-IsStorable (codes "DIR") stored-AllValid.1.0,
    (env_key-IsStorable (codes "NOTE") stored-AllValid.1.1.0, tt),
  ),
)

stored-TellsApart : TellsApart after_units stored
unfolding after_units
stored-TellsApart = ((inl refl, (inl refl, tt)), ((inr refl, tt), (tt, tt)))

moved-perm : Perm stored moved
moved-perm = Perm.swap dir port (note ∷ [])

-- Another quote, another order of lines and a comment.
abbrev edited : Text
edited = codes "# app\nDIR=\"C:\\\\new\\\\\\nnext # \\\"x\\\"\"\n\nNOTE=''\nPORT=\"8080\" # web"

edited_accepted : save_problems edited ≡ []
unfolding dotenv_code
edited_accepted = refl

edited_saved : unsaved after_units edited stored ≡ false
unfolding dotenv_code unsaved sorted_dotenv to_sorted insert after_units
edited_saved = refl

from_dotenv-to_dotenv_example :
    from_dotenv (to_dotenv stored) (port ∷ []) ≡ map (restored (port ∷ [])) stored
from_dotenv-to_dotenv_example = from_dotenv-to_dotenv stored (port ∷ []) stored-AllStorable

save_problems-eq-nil_iff_example : (save_problems edited ≡ []) ↔ (
    (line_problems edited ≡ [])
    × AllValid (from_dotenv edited [])
    × IsDistinct (from_dotenv edited []))
save_problems-eq-nil_iff_example = save_problems-eq-nil_iff edited

from_dotenv_stable_example :
    from_dotenv (to_dotenv (from_dotenv edited stored)) stored ≡ from_dotenv edited stored
from_dotenv_stable_example = from_dotenv_stable edited stored

saved-perm_example : Perm (map pair (from_dotenv edited stored)) (map pair stored)
saved-perm_example = saved-perm after_units edited stored stored-AllStorable edited_saved

unsaved-perm_example : unsaved after_units (to_dotenv moved) stored ≡ false
unsaved-perm_example =
    unsaved-perm after_units units-IsCollation stored moved stored-AllValid stored-TellsApart
      moved-perm
