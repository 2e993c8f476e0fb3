-- ===== src/Format/Tests.antt =====
-- The examples of apps/web/src/lib/format.test.ts, and the theorems at concrete values.
use vexdock.Base.{ℕ, ◌*◌, any, ◌≡◌, refl, true, false, Option, none, some, [], ◌∷◌, ◌++◌, String}
use vexdock.Text.Laws.{text_eq-ne}
use vexdock.Text.{Text, codes, is_line_end, split, join, decimal}
use vexdock.Format.Sgr.{rgb, channels_of, xterm256, apply_codes, apply_sgr}
use vexdock.Format.Ansi.{
  final_at, escape_at, matches, segments_from, ansi_segments, strip_from, strip_ansi,
}
use vexdock.Format.Ansi.Laws.{shown}
use vexdock.Format.Scan.{span, each_of}
use vexdock.Format.LogLine.{stamp_at, level_at, level_from, parse_log_line}
use vexdock.Format.LogLine.Parts.{colored-body}
use vexdock.Format.Build.{
  output, id_at, step_at, elapsed_at, parse_build_line, done_at, parse_build_result,
}
use vexdock.Format.Build.Steps.{IsStep}
use vexdock.Format.Mask.{
  index_of_text, last_index_of, mask_url_password, user_part, at_host, bullets,
}
use vexdock.Format.Mask.Laws.{mask_url_password-hides}
use vexdock.Format.Bytes.{rounded, tenths, unit_from, unit_of, bytes, count, below_zero, print_size}
use vexdock.Format.Bytes.Laws.{Fits, bytes-Fits}
use vexdock.Format.Times.{
  instant, since, since_seconds, until, until_seconds, duration, duration_seconds,
}

-- Unfolds all of the code.
format_code : Unit {0}
unfolding is_line_end split join decimal rgb channels_of xterm256 apply_codes apply_sgr final_at
    escape_at matches segments_from ansi_segments strip_from strip_ansi span each_of stamp_at
    level_at level_from parse_log_line id_at step_at elapsed_at parse_build_line done_at
    parse_build_result index_of_text last_index_of mask_url_password rounded tenths unit_from
    unit_of bytes instant since since_seconds until until_seconds duration duration_seconds
format_code = tt

abbrev esc : String → Text
esc s = 27 ∷ codes s

abbrev noon : Text → Option Text
noon s = some (codes "12:00:00")

abbrev warning : Text
warning = esc "[1;33m[WARN]" ++ esc "[0m " ++ esc "[38;5;240m|" ++ esc "[39m" ++ esc "[2K done"

abbrev segment : String → Option Text → Text × Option Text
segment s color = (codes s, color)

colored_runs :
    ansi_segments warning
    ≡ record {
      text = codes "[WARN]";
      style = record { color = some (codes "#fbbf24"); bold = true };
    }
      ∷ record { text = codes " "; style = record { color = none; bold = false } }
      ∷ record {
        text = codes "|";
        style = record { color = some (codes "rgb(88 88 88)"); bold = false };
      }
      ∷ record { text = codes " done"; style = record { color = none; bold = false } }
      ∷ []
unfolding format_code
colored_runs = refl

abbrev stamped : Text
stamped = codes "2026-08-18T10:33:13Z " ++ esc "[31mERROR" ++ esc "[0m connection refused"

severity_read : parse_log_line noon stamped ≡ record {
  time = some (codes "12:00:00");
  timestamp = some (codes "2026-08-18T10:33:13Z");
  body = codes "ERROR connection refused";
  colored_body = esc "[31mERROR" ++ esc "[0m connection refused";
  level = some (codes "error");
}
unfolding format_code
severity_read = refl

whole_words :
    ((parse_log_line noon (codes "[warn] disk almost full")).level ≡ some (codes "warn"))
    × ((parse_log_line noon (codes "information about the run")).level ≡ none)
unfolding format_code
whole_words = (refl, refl)

build_lines :
    (parse_build_line (codes "#18 0.740 migrate.cjs  253.6kb")
      ≡ some (output (codes "18") (codes "0.740") (codes "migrate.cjs  253.6kb")))
    × (parse_build_line (codes "#24 exporting layers")
        ≡ some (output (codes "24") [] (codes "exporting layers")))
    × (parse_build_line (codes " web  Built") ≡ none)
unfolding format_code
build_lines = (refl, refl, refl)

build_results :
    (parse_build_result (codes "DONE 0.7s")
      ≡ some (record { failed = false; label = codes "0.7s" }))
    × (parse_build_result (codes "CACHED")
        ≡ some (record { failed = false; label = codes "cached" }))
    × (parse_build_result (codes "ERROR: process")
        ≡ some (record { failed = true; label = codes "failed" }))
    × (parse_build_result (codes "exporting layers 0.3s done") ≡ none)
unfolding format_code
build_results = (refl, refl, refl, refl)

sizes :
    (bytes (some below_zero) ≡ codes "-")
    × (bytes (some (count 0)) ≡ codes "0 B")
    × (bytes (some (count 1536)) ≡ codes "1.5 KB")
    × (bytes (some (count 1048500)) ≡ codes "1.0 MB")
    × (bytes (some (count 10199)) ≡ codes "10 KB")
unfolding format_code
sizes = (refl, refl, refl, refl, refl)

masked :
    (mask_url_password (codes "redis://s3cr@t:x@cache:6379/0") [] (codes "cache")
      ≡ codes "redis://" ++ bullets ++ codes "@cache:6379/0")
    × (mask_url_password (codes "mysql://app:a@db:b@db:3306/app") (codes "app") (codes "db")
        ≡ codes "mysql://app:" ++ bullets ++ codes "@db:3306/app")
unfolding format_code
masked = (refl, refl)

-- Texts are their own seconds here.
abbrev at_second : Text → Option ℕ
at_second [] = none
at_second (c ∷ cs) = some (c * 1000)

durations :
    (duration at_second 0 (1 ∷ []) (43 ∷ []) ≡ codes "42s")
    × (duration at_second 0 (1 ∷ []) (3600 ∷ []) ≡ codes "59m 59s")
    × (duration at_second 0 (1 ∷ []) (4504 ∷ []) ≡ codes "1h 15m")
unfolding format_code
durations = (refl, refl, refl)

shown_line : shown (ansi_segments warning) ≡ codes "[WARN] | done"
unfolding format_code
shown_line = refl

colored-body_example :
    shown (ansi_segments (parse_log_line noon stamped).colored_body)
    ≡ (parse_log_line noon stamped).body
colored-body_example = colored-body noon stamped

bytes-Fits_example :
    (unit : ℕ) × (bytes (some (count 1048500)) ≡ print_size 1048500 unit) × Fits 1048500 0 4 unit
bytes-Fits_example = bytes-Fits 1048500

host_once : last_index_of (at_host (codes "db")) (at_host (codes "db") ++ codes "3306/app") ≡ some 0
unfolding format_code
host_once = refl

mask_url_password-hides_example :
    mask_url_password
      (codes "mysql"
        ++ codes "://"
        ++ (user_part (codes "app") ++ codes "a@db:b")
        ++ (at_host (codes "db") ++ codes "3306/app"))
      (codes "app")
      (codes "db")
    ≡ codes "mysql"
      ++ codes "://"
      ++ user_part (codes "app")
      ++ bullets
      ++ (at_host (codes "db") ++ codes "3306/app")
mask_url_password-hides_example =
    mask_url_password-hides (codes "mysql") (codes "app") (codes "a@db:b") (codes "db")
      (codes "3306/app") refl host_once

no_line_end : any is_line_end (codes "RUN bun run build") ≡ false
unfolding is_line_end
no_line_end = refl

run-IsStep : IsStep (codes "18") (codes "web builder 7/7") (codes "RUN bun run build")
run-IsStep = record {
  id_digits = refl;
  id_some = text_eq-ne _ _ refl;
  inner_free = refl;
  inner_some = text_eq-ne _ _ refl;
  one_line = no_line_end;
  command_some = text_eq-ne _ _ refl;
}
