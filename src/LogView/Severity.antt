-- ===== src/LogView/Severity.antt =====
-- How loud a line is, in apps/web/src/components/log-viewer.tsx, and which lines a viewer shows.
use vexdock.Base.{◌&&◌, Option, none, some, List, [], ◌∷◌, if◌then◌else◌}
use vexdock.Text.{Text, codes, text_eq, starts_with}
use vexdock.Format.AccessLine.{AccessLine, parse_access_line}
use vexdock.Format.LogLine.{parse_log_line}
use vexdock.LogView.Buffer.{Line}

pub data Severity : Type 0 where
  is_error is_warn is_info is_debug : Severity

-- `levelSeverity`
abbrev level_table : List (Text × Severity)
level_table =
    (codes "emerg", is_error)
    ∷ (codes "alert", is_error)
    ∷ (codes "crit", is_error)
    ∷ (codes "fatal", is_error)
    ∷ (codes "panic", is_error)
    ∷ (codes "error", is_error)
    ∷ (codes "err", is_error)
    ∷ (codes "warning", is_warn)
    ∷ (codes "warn", is_warn)
    ∷ (codes "notice", is_info)
    ∷ (codes "info", is_info)
    ∷ (codes "debug", is_debug)
    ∷ (codes "trace", is_debug)
    ∷ []

abbrev level_in : List (Text × Severity) → Text → Option Severity
level_in [] level = none
level_in ((word, severity) ∷ rows) level =
    let rest = level_in rows level in if text_eq word level then some severity else rest

unfoldable pub level_severity : Text → Option Severity
level_severity level = level_in level_table level

abbrev by_status : Text → Option Text → Option Severity
by_status stream none = if text_eq stream (codes "stderr") then some is_error else none
by_status stream (some status) =
    if starts_with b'5' status
    then some is_error
    else if starts_with b'4' status
    then some is_warn
    else if text_eq stream (codes "stderr") && text_eq status []
    then some is_error
    else none

unfoldable pub severity_from : Text → Option Text → Option Text → Option Severity
severity_from stream (some (c ∷ cs)) status = level_severity (c ∷ cs)
severity_from stream _ status = by_status stream status

abbrev status_of : Option AccessLine → Option Text
status_of none = none
status_of (some a) = some a.status

-- `severityOf`; `clock` is the runtime's.
unfoldable pub severity_of : (Text → Option Text) → Line → Option Severity
severity_of clock line =
    let parsed = parse_log_line clock line.text in
    severity_from line.stream parsed.level (status_of (parse_access_line parsed.body))
