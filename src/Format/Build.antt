-- ===== src/Format/Build.antt =====
-- BuildKit's plain progress in apps/web/src/lib/format.ts: `parseBuildLine` and `parseBuildResult`.
pub mod Steps
use vexdock.Base.{
  ℕ, Bool, true, false, not, ◌&&◌, ◌||◌, Option, none, some, List, [], ◌∷◌, ◌++◌, leb, ◌==◌,
  if◌then◌else◌, any, drop,
}
use vexdock.Text.{Text, codes, is_line_end, has_prefix}
use vexdock.Format.Scan.{◌>>=◌, Taken, is_digit, eat, span, span_one, each_of}

pub data BuildLine : Type 0 where
  step : Text → Text → Text → BuildLine
  output : Text → Text → Text → BuildLine

-- `.*$`: what holds no line end.
abbrev pub to_end : Text → Option Text
to_end s = if any is_line_end s then none else some s

-- `.+$`
abbrev pub some_to_end : Text → Option Text
some_to_end [] = none
some_to_end (c ∷ cs) = to_end (c ∷ cs)

-- `#(?<id>\d+) `
unfoldable pub id_at : Text → Option Taken
id_at s = do
  number ← eat b'#' s
  (id, end) ← span_one is_digit number
  rest ← eat b' ' end
  some (id, rest)

-- The rest of `BUILD_STEP`.
unfoldable pub step_at : Text → Text → Option BuildLine
step_at id s = do
  opened ← eat b'[' s
  (inner, end) ← span_one (λ c. not (c == b']')) opened
  close ← eat b']' end
  behind ← eat b' ' close
  command ← some_to_end behind
  some (step id (b'[' ∷ inner ++ b']' ∷ []) command)

-- `(?<elapsed>\d+\.\d+) `
unfoldable pub elapsed_at : Text → Option Taken
elapsed_at s = do
  (whole, point) ← span_one is_digit s
  decimals ← eat b'.' point
  (part, end) ← span_one is_digit decimals
  rest ← eat b' ' end
  some (whole ++ b'.' ∷ part, rest)

-- The rest of `BUILD_OUTPUT`.
abbrev pub output_after : Text → Text → Option Taken → Option BuildLine
output_after id s none = to_end s >>= λ text. some (output id [] text)
output_after id s (some (elapsed, rest)) = to_end rest >>= λ text. some (output id elapsed text)

abbrev pub or_output : Option BuildLine → Option BuildLine → Option BuildLine
or_output (some line) other = some line
or_output none other = other

unfoldable pub parse_build_line : Text → Option BuildLine
parse_build_line text = do
  (id, rest) ← id_at text
  or_output (step_at id rest) (output_after id rest (elapsed_at rest))

pub record BuildResult : Type 0 where
  pub failed : Bool
  pub label : Text

-- `DONE (?<seconds>[\d.]+s)`
unfoldable pub done_at : Text → Option Text
done_at s = do
  (word, rest) ←
      each_of
        ((λ c. c == b'D')
          ∷ (λ c. c == b'O')
          ∷ (λ c. c == b'N')
          ∷ (λ c. c == b'E')
          ∷ (λ c. c == b' ')
          ∷ [])
        s
  (seconds, end) ← span_one (λ c. is_digit c || c == b'.') rest
  behind ← eat b's' end
  some (seconds ++ b's' ∷ [])

-- `\w`
abbrev pub is_word_char : ℕ → Bool
is_word_char c = is_digit c || (leb b'A' c && leb c b'Z') || (leb b'a' c && leb c b'z') || c == b'_'

abbrev pub at_boundary : Text → Bool
at_boundary [] = true
at_boundary (c ∷ cs) = not (is_word_char c)

-- `ERROR\b`
abbrev pub is_error : Text → Bool
is_error s = has_prefix (codes "ERROR") s && at_boundary (drop 5 s)

abbrev pub closed : Option Text → Text → Option BuildResult
closed (some seconds) s = some (record { failed = false; label = seconds })
closed none s =
    if has_prefix (codes "CACHED") s
    then some (record { failed = false; label = codes "cached" })
    else if is_error s
    then some (record { failed = true; label = codes "failed" })
    else none

unfoldable pub parse_build_result : Text → Option BuildResult
parse_build_result s = closed (done_at s) s
