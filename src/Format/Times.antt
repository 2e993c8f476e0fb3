-- ===== src/Format/Times.antt =====
-- Times in apps/web/src/lib/format.ts: `since`, `until`, `duration`. `Date.parse` and `Date.now` are
-- parameters, in milliseconds since 1970; no instant lies before that.
pub mod Laws
use vexdock.Base.{
  ℕ, ◌+◌, ◌-◌, ◌*◌, ◌/◌, ◌%◌, Bool, Option, none, some, [], ◌∷◌, ◌++◌, ltb, if◌then◌else◌,
}
use vexdock.Text.{Text, codes, decimal}

-- `string | number`: an ISO text, or seconds since 1970.
pub data Stamp : Type 0 where
  iso : Text → Stamp
  unix : ℕ → Stamp

-- `!iso` and `Number.isNaN(then)` are `none`.
unfoldable pub instant : (Text → Option ℕ) → Option Stamp → Option ℕ
instant parse none = none
instant parse (some (iso [])) = none
instant parse (some (iso (c ∷ cs))) = parse (c ∷ cs)
instant parse (some (unix seconds)) = if ltb 0 seconds then some (seconds * 1000) else none

abbrev pub ago : ℕ → Text → Text
ago n unit = decimal n ++ unit ++ codes " ago"

unfoldable pub since_seconds : ℕ → Text
since_seconds seconds =
    let minutes = seconds / 60 in
    let hours = minutes / 60 in
    if ltb seconds 60
    then ago seconds (codes "s")
    else if ltb minutes 60
    then ago minutes (codes "m")
    else if ltb hours 24
    then ago hours (codes "h")
    else ago (hours / 24) (codes "d")

-- What is not over yet counts as zero seconds.
abbrev pub since_instant : ℕ → Option ℕ → Text
since_instant now none = codes "-"
since_instant now (some at) = since_seconds ((now - at) / 1000)

unfoldable pub since : (Text → Option ℕ) → ℕ → Option Stamp → Text
since parse now stamp = since_instant now (instant parse stamp)

abbrev pub ahead : ℕ → Text → Text
ahead n unit = codes "in " ++ decimal n ++ unit

unfoldable pub until_seconds : ℕ → Text
until_seconds seconds =
    let minutes = seconds / 60 in
    let hours = minutes / 60 in
    if ltb seconds 60
    then ahead seconds (codes "s")
    else if ltb minutes 60
    then ahead minutes (codes "m")
    else if ltb hours 24
    then ahead hours (codes "h")
    else ahead (hours / 24) (codes "d")

abbrev pub until_instant : ℕ → Option ℕ → Text
until_instant now none = codes "-"
until_instant now (some at) = until_seconds ((at - now) / 1000)

unfoldable pub until : (Text → Option ℕ) → ℕ → Option Stamp → Text
until parse now stamp = until_instant now (instant parse stamp)

unfoldable pub duration_seconds : ℕ → Text
duration_seconds seconds =
    if ltb seconds 60
    then decimal seconds ++ codes "s"
    else if ltb seconds 3600
    then decimal (seconds / 60) ++ codes "m " ++ decimal (seconds % 60) ++ codes "s"
    else decimal (seconds / 3600) ++ codes "h " ++ decimal ((seconds % 3600) / 60) ++ codes "m"

-- `Math.round` of a half goes up.
abbrev pub between : Option ℕ → Option ℕ → Text
between none to = codes "-"
between (some from) none = codes "-"
between (some from) (some to) = duration_seconds ((to - from + 500) / 1000)

-- `end ? Date.parse(end) : Date.now()`
abbrev pub end_of : (Text → Option ℕ) → ℕ → Text → Option ℕ
end_of parse now [] = some now
end_of parse now (c ∷ cs) = parse (c ∷ cs)

unfoldable pub duration : (Text → Option ℕ) → ℕ → Text → Text → Text
duration parse now [] end = codes "-"
duration parse now (c ∷ cs) end = between (parse (c ∷ cs)) (end_of parse now end)
