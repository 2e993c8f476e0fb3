-- ===== src/Dotenv/Entries.antt =====
-- The lines of apps/web/src/lib/dotenv.ts: `entries`.
use vexdock.Base.{
  ℕ, suc, Bool, true, false, ◌&&◌, ◌||◌, Option, none, some, List, [], ◌∷◌, ◌++◌, if◌then◌else◌,
  take, drop,
}
use vexdock.Text.{Text, codes, text_eq, trim_end, trim, starts_with, index_of, split}
use vexdock.Dotenv.Value.{closing_quote, without_comment}

pub data Entry : Type 0 where
  entry : Text → Text → Entry
  problem : Text → Entry

-- A double-quoted value that runs on to a later line.
pub record OpenValue : Type 0 where
  pub key : Text
  pub raw : Text

abbrev pub is_none : Option ℕ → Bool
is_none none = true
is_none (some _) = false

abbrev pub Step : Type 0
Step = List Entry × Option OpenValue

-- The trimmed line is split at its first `=`.
unfoldable pub read_pair : Text → Text → Step
read_pair key raw =
    if starts_with b'"' raw && is_none (closing_quote raw)
    then ([], some (record { key = key; raw = raw }))
    else (entry key (without_comment raw) ∷ [], none)

unfoldable pub read_trimmed : Text → Step
read_trimmed trimmed =
    if text_eq trimmed [] || starts_with b'#' trimmed
    then ([], none)
    else elim (index_of b'=' trimmed) [
      | none ↦ (
        problem (b'"' ∷ trimmed ++ codes "\" is not KEY=value: fix the line or delete it.") ∷ [],
        none,
      )
      | some separator ↦
          read_pair (trim (take separator trimmed)) (trim (drop (suc separator) trimmed))
    ]

-- One round of the loop: what it pushes, and the value that stays open.
unfoldable pub read_line : Option OpenValue → Text → Step
read_line none line = read_trimmed (trim line)
read_line (some open_value) line =
    let raw = open_value.raw ++ 10 ∷ trim_end line in
    if is_none (closing_quote raw)
    then ([], some (record open_value { raw = raw }))
    else (entry open_value.key (without_comment raw) ∷ [], none)

unfoldable pub read_lines : Option OpenValue → List Text → List Entry
read_lines none [] = []
read_lines (some open_value) [] =
    problem (open_value.key ++ codes " opens a quote that never closes: add the closing \".") ∷ []
read_lines state (line ∷ lines) =
    let (found, next) = read_line state line in found ++ read_lines next lines

unfoldable pub entries : Text → List Entry
entries text = read_lines none (split 10 text)
