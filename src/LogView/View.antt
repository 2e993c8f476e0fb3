-- ===== src/LogView/View.antt =====
-- The lines that LogViewer in apps/web/src/components/log-viewer.tsx shows of those it has, and
-- `outputLines`.
use vexdock.Base.{
  ℕ, suc, Bool, true, false, not, ◌&&◌, ◌||◌, Option, none, some, List, [], ◌∷◌, ◌==◌, any, map,
  if◌then◌else◌,
}
use vexdock.Text.{Text, codes, text_eq, split, has_prefix}
use vexdock.LogView.Buffer.{Line}
use vexdock.LogView.Severity.{Severity, is_error, is_warn, severity_of}
use vexdock.LogView.Steps.{Steps, build_steps}

pub data LevelFilter : Type 0 where
  all_levels warn_levels error_levels : LevelFilter

-- What the reader has set, and how the log is shown.
pub record View : Type 0 where
  pub build : Bool
  pub plain : Bool
  pub filter : Text
  pub level : LevelFilter

-- `includes`
unfoldable pub includes : Text → Text → Bool
includes part [] = text_eq part []
includes part (c ∷ cs) = has_prefix part (c ∷ cs) || includes part cs

abbrev loud : LevelFilter → Option Severity → Bool
loud all_levels s = true
loud error_levels (some is_error) = true
loud warn_levels (some is_error) = true
loud warn_levels (some is_warn) = true
loud _ _ = false

abbrev pub hides : View → Steps → ℕ → Bool
hides v steps at = v.build && not v.plain && any (λ n. n == at) steps.closing

-- `clock` and `toLowerCase` are the runtime's.
module _ (clock : Text → Option Text) (lower : Text → Text) (v : View) where
  abbrev pub shows : Steps → ℕ → Line → Bool
  shows steps at line =
      if hides v steps at
      then false
      else if not (text_eq (lower v.filter) []) && not (includes (lower v.filter) (lower line.text))
      then false
      else loud v.level (severity_of clock line)

  unfoldable pub visible_from : Steps → ℕ → List Line → List (ℕ × Line)
  visible_from steps at [] = []
  visible_from steps at (line ∷ lines) =
      let rest = visible_from steps (suc at) lines in
      if shows steps at line then (at, line) ∷ rest else rest

  -- The lines that are shown, each with its place.
  unfoldable pub visible : List Line → List (ℕ × Line)
  visible lines = visible_from (build_steps clock lines) 0 lines

-- `replace(/\n$/u, '')`
abbrev drop_newline : Text → Text
drop_newline [] = []
drop_newline (c ∷ []) = if c == 10 then [] else c ∷ []
drop_newline (c ∷ d ∷ ds) = c ∷ drop_newline (d ∷ ds)

unfoldable pub output_lines : Text → List Line
output_lines [] = []
output_lines (c ∷ cs) =
    map (λ text. record { stream = codes "stdout"; text = text; seq = none })
      (split 10 (drop_newline (c ∷ cs)))
