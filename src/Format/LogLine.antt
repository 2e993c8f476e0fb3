-- ===== src/Format/LogLine.antt =====
-- `parseLogLine` of apps/web/src/lib/format.ts: the engine's timestamp, the body and the severity
-- word of a line. The wall clock, `clock`, is the runtime's: a parameter, `none` for a date that it
-- cannot parse.
pub mod Parts
use vexdock.Base.{
  ℕ, ◌+◌, Bool, true, false, not, ◌&&◌, ◌||◌, Option, none, some, List, [], ◌∷◌, ◌++◌, leb, ◌==◌,
  if◌then◌else◌, length, drop, map,
}
use vexdock.Text.{Text, codes, starts_with}
use vexdock.Format.Scan.{◌>>=◌, Taken, is_digit, eat, span_one, each_of}
use vexdock.Format.Ansi.{strip_ansi}

-- `\d{4}-\d{2}-\d{2}T`
abbrev pub date_classes : List (ℕ → Bool)
date_classes =
    let dash : ℕ → Bool = λ c. c == b'-' in
    is_digit
    ∷ is_digit
    ∷ is_digit
    ∷ is_digit
    ∷ dash
    ∷ is_digit
    ∷ is_digit
    ∷ dash
    ∷ is_digit
    ∷ is_digit
    ∷ (λ c. c == b'T')
    ∷ []

-- `[\d:.]`
abbrev pub is_clock : ℕ → Bool
is_clock c = is_digit c || c == b':' || c == b'.'

-- `LOG_TIMESTAMP` up to the space that may follow.
unfoldable pub stamp_at : Text → Option Taken
stamp_at s = do
  (date, behind) ← each_of date_classes s
  (time, end) ← span_one is_clock behind
  rest ← eat b'Z' end
  some (date ++ time ++ b'Z' ∷ [], rest)

-- ` ?`
abbrev pub skip_space : Text → Text
skip_space [] = []
skip_space (c ∷ cs) = if c == b' ' then cs else c ∷ cs

-- `\w` where case is folded: the long s and the kelvin sign fold to letters.
abbrev pub is_word : ℕ → Bool
is_word c =
    is_digit c
    || (leb b'A' c && leb c b'Z')
    || (leb b'a' c && leb c b'z')
    || c == b'_'
    || c == 0x17f
    || c == 0x212a

abbrev pub lower : ℕ → ℕ
lower c = if leb b'A' c && leb c b'Z' then c + 32 else c

abbrev pub starts_word : Text → Bool
starts_word [] = false
starts_word (c ∷ cs) = is_word c

-- A word in either case; no letter of the words below has another folding.
abbrev pub prefix_fold : Text → Text → Bool
prefix_fold [] s = true
prefix_fold (w ∷ ws) [] = false
prefix_fold (w ∷ ws) (c ∷ cs) = lower c == w && prefix_fold ws cs

abbrev pub levels : List Text
levels =
    codes "emerg"
    ∷ codes "alert"
    ∷ codes "crit"
    ∷ codes "fatal"
    ∷ codes "panic"
    ∷ codes "error"
    ∷ codes "err"
    ∷ codes "warning"
    ∷ codes "warn"
    ∷ codes "notice"
    ∷ codes "info"
    ∷ codes "debug"
    ∷ codes "trace"
    ∷ []

-- The first alternative that matches here and ends at a word boundary.
unfoldable pub level_at : List Text → Text → Option Text
level_at [] s = none
level_at (w ∷ ws) s =
    let other = level_at ws s in
    if prefix_fold w s && not (starts_word (drop (length w) s)) then some w else other

abbrev pub or_else : Option Text → Option Text → Option Text
or_else none other = other
or_else (some w) other = some w

-- The leftmost match of `LOG_LEVEL`, in lower case; the flag says that a word character is in front.
unfoldable pub level_from : Bool → Text → Option Text
level_from inside [] = none
level_from inside (c ∷ cs) =
    let later = level_from (is_word c) cs in
    if inside then later else or_else (level_at levels (c ∷ cs)) later

pub record LogLine : Type 0 where
  pub time : Option Text
  pub timestamp : Option Text
  pub body : Text
  pub colored_body : Text
  pub level : Option Text

-- `clock(timestamp) || null`
abbrev pub shown_time : Option Text → Option Text
shown_time (some (c ∷ cs)) = some (c ∷ cs)
shown_time _ = none

abbrev pub line_of_body : Option Text → Option Text → Text → LogLine
line_of_body time timestamp colored = record {
  time = time;
  timestamp = timestamp;
  body = strip_ansi colored;
  colored_body = colored;
  level = level_from false (strip_ansi colored);
}

abbrev pub line_after : (Text → Option Text) → Text → Option Taken → LogLine
line_after clock text none = line_of_body none none text
line_after clock text (some (at, rest)) =
    line_of_body (shown_time (clock at)) (some at) (skip_space rest)

unfoldable pub parse_log_line : (Text → Option Text) → Text → LogLine
parse_log_line clock text = line_after clock text (stamp_at text)
