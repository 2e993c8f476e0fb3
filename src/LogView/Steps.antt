-- ===== src/LogView/Steps.antt =====
-- `buildSteps` of apps/web/src/components/log-viewer.tsx. A line is its place in the list, as the
-- source keeps lines by identity.
use vexdock.Base.{ℕ, suc, Option, none, some, List, [], ◌∷◌, if◌then◌else◌, ◌==◌}
use vexdock.Text.{Text, text_eq}
use vexdock.Format.Build.{
  BuildLine, BuildResult, step, output, parse_build_line, parse_build_result,
}
use vexdock.Format.LogLine.{parse_log_line}
use vexdock.LogView.Buffer.{Line}

-- The maps, the latest entry first, and the set.
pub record Steps : Type 0 where
  pub opened : List (Text × ℕ)
  pub results : List (ℕ × BuildResult)
  pub closing : List ℕ

abbrev pub no_steps : Steps
no_steps = record { opened = []; results = []; closing = [] }

-- `opened.get(id)`
unfoldable pub opened_at : Text → List (Text × ℕ) → Option ℕ
opened_at id [] = none
opened_at id ((key, at) ∷ rest) =
    let more = opened_at id rest in if text_eq key id then some at else more

-- `results.get(line)`
unfoldable pub result_at : ℕ → List (ℕ × BuildResult) → Option BuildResult
result_at at [] = none
result_at at ((key, r) ∷ rest) = let more = result_at at rest in if key == at then some r else more

abbrev close_step : ℕ → Steps → Option ℕ → Option BuildResult → Steps
close_step at s none result = s
close_step at s (some from) none = s
close_step at s (some from) (some r) = record {
  opened = s.opened;
  results = (from, r) ∷ s.results;
  closing = if r.failed then s.closing else at ∷ s.closing;
}

abbrev pub meet : ℕ → Steps → Option BuildLine → Steps
meet at s none = s
meet at s (some (step id stage command)) = record {
  opened = (id, at) ∷ s.opened;
  results = s.results;
  closing = s.closing;
}
meet at s (some (output id elapsed text)) =
    close_step at s (opened_at id s.opened) (parse_build_result text)

module _ (clock : Text → Option Text) where
  abbrev pub build_line : Line → Option BuildLine
  build_line line = parse_build_line (parse_log_line clock line.text).colored_body

  unfoldable pub steps_from : ℕ → List Line → Steps → Steps
  steps_from at [] s = s
  steps_from at (line ∷ lines) s = steps_from (suc at) lines (meet at s (build_line line))

  unfoldable pub build_steps : List Line → Steps
  build_steps lines = steps_from 0 lines no_steps
