-- ===== src/Dotenv/Vars.antt =====
-- Variables and text in apps/web/src/lib/dotenv.ts: `toDotenv`, `fromDotenv`, `lineProblems`,
-- `saveProblems`, `unsaved`. `localeCompare` is the collation of the runtime: a parameter.
use vexdock.Base.{
  ℕ, Bool, true, false, not, ◌&&◌, ◌||◌, Option, none, some, List, [], ◌∷◌, ◌++◌, leb, ◌==◌,
  if◌then◌else◌, map, all, any,
}
use vexdock.Text.{Text, codes, text_eq, join}
use vexdock.Dotenv.Value.{quote, unquote}
use vexdock.Dotenv.Entries.{Entry, entry, problem, entries}

pub record EnvVar : Type 0 where
  pub key : Text
  pub value : Text
  pub is_secret : Bool
  pub updated_at : Text

unfoldable pub line_of : EnvVar → Text
line_of v = v.key ++ b'=' ∷ quote v.value

unfoldable pub to_dotenv : List EnvVar → Text
to_dotenv vars = join 10 (map line_of vars)

-- `new Map(previous.map(…)).get(key)`: a later pair replaces an earlier one.
unfoldable pub was_secret : List EnvVar → Text → Option Bool
was_secret [] key = none
was_secret (v ∷ vs) key = elim (was_secret vs key) [
  | some flag ↦ some flag
  | none ↦ if text_eq v.key key then some v.is_secret else none
]

-- `?? true`
abbrev pub or_true : Option Bool → Bool
or_true none = true
or_true (some flag) = flag

unfoldable pub vars_of : List EnvVar → List Entry → List EnvVar
vars_of previous [] = []
vars_of previous (problem _ ∷ rest) = vars_of previous rest
vars_of previous (entry key raw ∷ rest) =
    record {
      key = key;
      value = unquote raw;
      is_secret = or_true (was_secret previous key);
      updated_at = [];
    }
    ∷ vars_of previous rest

unfoldable pub from_dotenv : Text → List EnvVar → List EnvVar
from_dotenv text previous = vars_of previous (entries text)

unfoldable pub problems_of : List Entry → List Text
problems_of [] = []
problems_of (problem p ∷ rest) = p ∷ problems_of rest
problems_of (entry _ _ ∷ rest) = problems_of rest

unfoldable pub line_problems : Text → List Text
line_problems text = problems_of (entries text)

abbrev pub is_key_start : ℕ → Bool
is_key_start c = (leb b'A' c && leb c b'Z') || (leb b'a' c && leb c b'z') || c == b'_'

abbrev pub is_key_char : ℕ → Bool
is_key_char c = is_key_start c || (leb b'0' c && leb c b'9')

-- `/^[A-Za-z_][A-Za-z0-9_]*$/u`
unfoldable pub env_key : Text → Bool
env_key [] = false
env_key (c ∷ cs) = is_key_start c && all is_key_char cs

abbrev key_name : Text → Text
key_name key =
    if text_eq key [] then codes "A key is empty" else b'"' ∷ key ++ codes "\" is not a valid key"

-- What one round of the loop pushes, with the keys seen so far.
unfoldable pub key_problem : List Text → Text → List Text
key_problem seen key =
    if not (env_key key)
    then (key_name key ++ codes ": use letters, digits and _, and do not start with a digit.") ∷ []
    else if any (text_eq key) seen
    then (b'"' ∷ key ++ codes "\" appears twice: keep one.") ∷ []
    else []

unfoldable pub key_problems : List Text → List EnvVar → List Text
key_problems seen [] = []
key_problems seen (v ∷ vs) = key_problem seen v.key ++ key_problems (v.key ∷ seen) vs

unfoldable pub save_problems : Text → List Text
save_problems text = line_problems text ++ key_problems [] (from_dotenv text [])

-- `after a b` is `a.localeCompare(b) > 0`.
module _ (after : Text → Text → Bool) where
  unfoldable pub insert : EnvVar → List EnvVar → List EnvVar
  insert v [] = v ∷ []
  insert v (w ∷ ws) = if after v.key w.key then w ∷ insert v ws else v ∷ w ∷ ws

  -- `toSorted`, which is stable.
  unfoldable pub to_sorted : List EnvVar → List EnvVar
  to_sorted [] = []
  to_sorted (v ∷ vs) = insert v (to_sorted vs)

  unfoldable pub sorted_dotenv : List EnvVar → Text
  sorted_dotenv vars = to_dotenv (to_sorted vars)

  unfoldable pub unsaved : Text → List EnvVar → Bool
  unsaved text stored =
      not (text_eq (sorted_dotenv (from_dotenv text stored)) (sorted_dotenv stored))
