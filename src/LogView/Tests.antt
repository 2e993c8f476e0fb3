-- ===== src/LogView/Tests.antt =====
-- The buffer of LogViewer in apps/web/src/components/log-viewer.tsx on a stream that reconnects
-- while the viewer is paused.
use vexdock.Base.{◌≡◌, refl, true, false, Option, none, some, List, [], ◌∷◌, String, map}
use vexdock.Text.{Text, codes, is_line_end, is_space, split}
use vexdock.Format.AccessLine.{parse_access_line, word_at}
use vexdock.Format.Ansi.{escape_at, final_at, strip_ansi, strip_from}
use vexdock.Format.Build.{done_at, elapsed_at, id_at, parse_build_line, parse_build_result, step_at}
use vexdock.Format.LogLine.{level_at, level_from, parse_log_line, stamp_at}
use vexdock.Format.Scan.{each_of, span}
use vexdock.LogView.Last.{last}
use vexdock.LogView.Buffer.{
  Line, Buffer, Run, empty, numbered_line, cap_of, initial_limit, lines_100, flush, on_open, on_log,
  on_pause, on_clear, starts, opens, logs, flushes, pauses,
}
use vexdock.LogView.Hidden.{IsCleanClose, shows-IsCleanClose}
use vexdock.LogView.Severity.{is_error, is_warn, level_severity, severity_from, severity_of}
use vexdock.LogView.Steps.{Steps, build_steps, opened_at, steps_from}
use vexdock.LogView.View.{View, all_levels, output_lines, shows, visible, visible_from}
use vexdock.LogView.Ideal.{ideal, show, Run-ideal}

abbrev started : Line
started = record { stream = codes "stdout"; text = codes "started"; seq = none }

abbrev again : Line
again = record { stream = codes "stdout"; text = codes "started again"; seq = none }

abbrev shown : Buffer
shown = flush 100 (on_log 100 started (on_open 100 empty))

abbrev resumed : Buffer
resumed = on_pause 100 (on_log 100 again (on_open 100 (on_pause 100 shown)))

resumed_screen : resumed.streamed ≡ numbered_line again 2 ∷ []
unfolding flush on_log on_open on_pause last
resumed_screen = refl

resumed-Run : Run 100 resumed
unfolding on_log on_open
resumed-Run =
    pauses _
      (logs _ again (opens _ (pauses _ (flushes _ refl (logs _ started (opens empty starts))))))

Run-ideal_example :
    (resumed.streamed ≡ last 100 (ideal 100 resumed resumed-Run).shown)
    × ((flush 100 resumed).streamed ≡ last 100 (show (ideal 100 resumed resumed-Run)).shown)
Run-ideal_example = Run-ideal 100 resumed resumed-Run

initial_test : cap_of initial_limit ≡ 1000
initial_test = refl

cleared_test : (on_clear 100 shown).streamed ≡ []
unfolding on_clear
cleared_test = refl

smallest_test : cap_of lines_100 ≡ 100
smallest_test = refl

abbrev said : String → Line
said text = record { stream = codes "stdout"; text = codes text; seq = none }

abbrev build_log : List Line
build_log =
    said "#5 [web 2/3] RUN bun install"
    ∷ said "#6 [web 3/3] RUN bun test"
    ∷ said "#5 DONE 0.7s"
    ∷ said "#6 ERROR: failed"
    ∷ []

abbrev no_clock : Text → Option Text
no_clock _ = none

abbrev as_build : View
as_build = record { build = true; plain = false; filter = []; level = all_levels }

abbrev steps : Steps
steps = build_steps no_clock build_log

shown_build : map (λ (at, line). at) (visible no_clock (λ s. s) as_build build_log) ≡ 0 ∷ 1 ∷ 3 ∷ []
unfolding visible visible_from build_steps steps_from parse_log_line stamp_at parse_build_line id_at
    step_at elapsed_at parse_build_result done_at opened_at span each_of is_line_end
shown_build = refl

second_hidden : shows no_clock (λ s. s) as_build steps 2 (said "#5 DONE 0.7s") ≡ false
unfolding build_steps steps_from parse_log_line stamp_at parse_build_line id_at step_at elapsed_at
    parse_build_result done_at opened_at span each_of is_line_end
second_hidden = refl

shows-IsCleanClose_example :
    (as_build.build ≡ true) × (as_build.plain ≡ false) × IsCleanClose no_clock build_log 2
shows-IsCleanClose_example =
    shows-IsCleanClose no_clock build_log (λ s. s) as_build 2 (said "#5 DONE 0.7s") refl refl
      second_hidden

severity_test :
    (severity_of no_clock (said "level=warn slow") ≡ some is_warn)
    × (severity_of no_clock (record { stream = codes "stderr"; text = codes "boom"; seq = none })
        ≡ some is_error)
unfolding severity_of severity_from level_severity parse_access_line word_at parse_log_line stamp_at
    level_at level_from strip_ansi strip_from escape_at final_at span each_of is_space
severity_test = (refl, refl)

output_test : output_lines (codes "a\n\nb\n") ≡ said "a" ∷ said "" ∷ said "b" ∷ []
unfolding output_lines split
output_test = refl
