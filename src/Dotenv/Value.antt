-- ===== src/Dotenv/Value.antt =====
-- One value of apps/web/src/lib/dotenv.ts: `quote`, `unquote`, `closingQuote`, `withoutComment`.
pub mod Laws
use vexdock.Base.{
  ℕ, zero, suc, ◌+◌, Bool, true, false, not, ◌&&◌, ◌||◌, Option, none, some, [], ◌∷◌, ◌++◌, leb,
  ◌==◌, if◌then◌else◌, length, take, drop, any,
}
use vexdock.Text.{
  Text, codes, text_eq, is_space, is_line_end, starts_with, ends_with, slice_inner, index_of,
  replace_all,
}

-- The class `[\s"'#$\\]`.
unfoldable pub needs_quotes : ℕ → Bool
needs_quotes c = is_space c || c == b'"' || c == b'\'' || c == b'#' || c == b'$' || c == b'\\'

-- The three `replaceAll` calls of `quote`, the backslash first.
unfoldable pub escape : Text → Text
escape value =
    replace_all 10 (b'\\' ∷ b'n' ∷ [])
      (replace_all b'"' (b'\\' ∷ b'"' ∷ []) (replace_all b'\\' (b'\\' ∷ b'\\' ∷ []) value))

unfoldable pub quote : Text → Text
quote value =
    if text_eq value []
    then b'"' ∷ b'"' ∷ []
    else if not (any needs_quotes value)
    then value
    else b'"' ∷ (escape value ++ b'"' ∷ [])

-- The class `[n"\\]` behind a backslash, and what it stands for.
abbrev pub is_escaped : ℕ → Bool
is_escaped c = c == b'n' || c == b'"' || c == b'\\'

abbrev pub unescaped : ℕ → ℕ
unescaped c = if c == b'n' then 10 else c

-- `replaceAll(/\\(?<escaped>[n"\\])/gu, …)`: one pass from the left.
unfoldable pub unescape : Text → Text
unescape [] = []
unescape (c ∷ []) = c ∷ []
unescape (c ∷ d ∷ cs) = elim (c == b'\\' && is_escaped d) [
  | true ↦ unescaped d ∷ unescape cs
  | false ↦ c ∷ unescape (d ∷ cs)
]

unfoldable pub unquote : Text → Text
unquote value =
    if leb 2 (length value) && starts_with b'\'' value && ends_with b'\'' value
    then slice_inner value
    else if not (leb 2 (length value)) || not (starts_with b'"' value) || not (ends_with b'"' value)
    then value
    else unescape (slice_inner value)

-- The loop of `closingQuote` at `index`; the flag says that a backslash has just been passed.
unfoldable pub closing_from : ℕ → Bool → Text → Option ℕ
closing_from index skip [] = none
closing_from index skip (c ∷ cs) =
    let next = closing_from (index + 1) (not skip && c == b'\\') cs in
    if not skip && c == b'"' then some index else next

-- `none` is -1.
unfoldable pub closing_quote : Text → Option ℕ
closing_quote raw = closing_from 1 false (drop 1 raw)

-- `#.*$` at the start of a text.
abbrev pub note_to_end : Text → Bool
note_to_end [] = false
note_to_end (c ∷ cs) = c == b'#' && not (any is_line_end cs)

-- `\s+#.*$` at the start of a text: the spaces, all taken, then the note.
unfoldable pub comment_at : Text → Bool
comment_at [] = false
comment_at (c ∷ cs) = is_space c && (note_to_end cs || comment_at cs)

-- `replace(/\s+#.*$/u, '')`: cut at the leftmost match.
unfoldable pub drop_comment : Text → Text
drop_comment [] = []
drop_comment (c ∷ cs) = let rest = c ∷ drop_comment cs in if comment_at (c ∷ cs) then [] else rest

-- `/^\s+#/u`
unfoldable pub opens_comment : Text → Bool
opens_comment [] = false
opens_comment (c ∷ cs) = is_space c && (starts_with b'#' cs || opens_comment cs)

-- The quoted part ends before `end`: what follows must be nothing or a comment.
abbrev pub cut_after : Option ℕ → Text → Text
cut_after none raw = raw
cut_after (some end) raw =
    let rest = drop (end + 1) raw in
    if text_eq rest [] || opens_comment rest then take (end + 1) raw else raw

-- `raw.indexOf("'", 1)`
abbrev pub quote_from_one : Text → Option ℕ
quote_from_one [] = none
quote_from_one (c ∷ cs) = elim (index_of b'\'' cs) [ none ↦ none | some i ↦ some (suc i) ]

unfoldable pub without_comment : Text → Text
without_comment raw =
    if starts_with b'"' raw
    then cut_after (closing_quote raw) raw
    else if starts_with b'\'' raw
    then cut_after (quote_from_one raw) raw
    else drop_comment raw
