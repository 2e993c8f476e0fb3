-- ===== src/Format/Build/Steps.antt =====
-- What `parseBuildLine` of apps/web/src/lib/format.ts reads from the lines that BuildKit writes.
use vexdock.Base.{◌≡◌, ◌≢◌, refl, true, false, not, some, [], ◌∷◌, ◌++◌, all, any, ◌==◌}
use vexdock.Text.{Text, is_line_end}
use vexdock.Format.Scan.{is_digit, filled, span-stops}
use vexdock.Format.Build.{step, some_to_end, id_at, step_at, parse_build_line}

-- The number of a step, what its brackets hold, and its command, as BuildKit writes them.
pub record IsStep (id inner command : Text) : Type 0 where
  pub id_digits : all is_digit id ≡ true
  pub id_some : id ≢ []
  pub inner_free : all (λ c. not (c == b']')) inner ≡ true
  pub inner_some : inner ≢ []
  pub one_line : any is_line_end command ≡ false
  pub command_some : command ≢ []

abbrev pub step_line : Text → Text → Text → Text
step_line id inner command = b'#' ∷ (id ++ b' ' ∷ b'[' ∷ (inner ++ b']' ∷ b' ' ∷ command))

filled-some : (s rest : Text) → s ≢ [] → filled (s, rest) ≡ some (s, rest)
filled-some [] rest h = absurd (h refl)
filled-some (c ∷ s) rest h = refl

to_end-some :
    (command : Text)
    → command ≢ []
    → any is_line_end command ≡ false
    → some_to_end command ≡ some command
to_end-some [] h k = absurd (h refl)
to_end-some (c ∷ s) h k = rw k refl

id_at-line :
    (id rest : Text)
    → all is_digit id ≡ true
    → id ≢ []
    → id_at (b'#' ∷ (id ++ b' ' ∷ rest)) ≡ some (id, rest)
unfolding id_at
id_at-line id rest digits filled_id =
    rw (span-stops is_digit id rest b' ' digits refl)
      (rw (filled-some id (b' ' ∷ rest) filled_id) refl)

step_at-line :
    (id inner command : Text)
    → IsStep id inner command
    → step_at id (b'[' ∷ (inner ++ b']' ∷ b' ' ∷ command))
      ≡ some (step id (b'[' ∷ inner ++ b']' ∷ []) command)
unfolding step_at
step_at-line id inner command h =
    rw (span-stops (λ c. not (c == b']')) inner (b' ' ∷ command) b']' h.inner_free refl) (
      rw (filled-some inner (b']' ∷ b' ' ∷ command) h.inner_some)
        (rw (to_end-some command h.command_some h.one_line) refl))

-- A line that opens a step is read back whole, its number, its stage in brackets and its command.
pub parse_build_line-step :
    (id inner command : Text)
    → IsStep id inner command
    → parse_build_line (step_line id inner command)
      ≡ some (step id (b'[' ∷ inner ++ b']' ∷ []) command)
unfolding parse_build_line
parse_build_line-step id inner command h =
    rw (id_at-line id (b'[' ∷ (inner ++ b']' ∷ b' ' ∷ command)) h.id_digits h.id_some)
      (rw (step_at-line id inner command h) refl)
