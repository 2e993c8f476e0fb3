-- ===== src/Dotenv/RoundTrip.antt =====
-- What apps/web/src/lib/dotenv.ts reads back from the text that it wrote.
use vexdock.Base.{
  ℕ, suc, ◌≡◌, ◌≢◌, refl, ap, ◌∙◌, false, ◌||◌, none, List, [], ◌∷◌, ◌++◌, arith, length, drop,
  take-append_length, map, All, any, inl, inr,
}
use vexdock.Text.{Text, text_eq, is_space, trim_start, trim_end, trim, starts_with, split, join}
use vexdock.Text.Laws.{Lacks, Lacks-append, trim_end-append, trim-head, index_of-append, split-join}
use vexdock.Dotenv.Value.{needs_quotes, quote}
use vexdock.Dotenv.Value.Laws.{
  quote_cases, IsPlain-head, closing_quote-quoted, without_comment-quote, trim-quote,
  trim_end-quote, quote-Lacks_newline, quote-ne-nil, unquote-quote,
}
use vexdock.Dotenv.Entries.{Entry, entry, read_pair, read_trimmed, read_line, read_lines, entries}
use vexdock.Dotenv.Vars.{
  EnvVar, line_of, to_dotenv, was_secret, or_true, vars_of, from_dotenv, problems_of, line_problems,
}

-- A key that the text form can hold.
pub record IsStorable (key : Text) : Type 0 where
  pub trimmed : trim key ≡ key
  pub no_equals : Lacks b'=' key
  pub no_newline : Lacks 10 key
  pub no_hash : starts_with b'#' key ≡ false

read_pair-bare :
    (key v : Text)
    → any needs_quotes v ≡ false
    → quote v ≡ v
    → read_pair key (quote v) ≡ (entry key (quote v) ∷ [], none)
unfolding read_pair
read_pair-bare key [] bare q = ground (arith, q, without_comment-quote [])
read_pair-bare key (c ∷ s) bare q =
    ground (arith, q, (IsPlain-head c s bare).no_quote, without_comment-quote (c ∷ s))

read_pair-quote : (key v : Text) → read_pair key (quote v) ≡ (entry key (quote v) ∷ [], none)
unfolding read_pair
read_pair-quote key v = elim (quote_cases v) [
  | inl q ↦ ground (arith, q, closing_quote-quoted v, without_comment-quote v)
  | inr (q, _, bare) ↦ read_pair-bare key v bare q
]

trim_end-cons : (c : ℕ) (q : Text) → q ≢ [] → trim_end q ≡ q → trim_end (c ∷ q) ≡ c ∷ q
unfolding trim_end
trim_end-cons c [] ne h = absurd (ne refl)
trim_end-cons c (d ∷ q) ne h = rw h

equals_solid : is_space b'=' ≡ false
unfolding is_space
equals_solid = refl

trim_start-line : (key q : Text) → trim key ≡ key → trim_start (key ++ b'=' ∷ q) ≡ key ++ b'=' ∷ q
unfolding trim_start
trim_start-line [] q h = rw equals_solid
trim_start-line (c ∷ key) q h = rw (trim-head c key h)

trim-line_of : (v : EnvVar) → IsStorable v.key → trim (line_of v) ≡ line_of v
unfolding trim line_of
trim-line_of v s = rw (trim_start-line v.key (quote v.value) s.trimmed) (
    trim_end-append v.key (quote v.value) b'='
      (trim_end-cons b'=' (quote v.value) (quote-ne-nil v.value) (trim_end-quote v.value)))

not_skipped :
    (key q : Text)
    → starts_with b'#' key ≡ false
    → (text_eq (key ++ b'=' ∷ q) [] || starts_with b'#' (key ++ b'=' ∷ q)) ≡ false
not_skipped [] q h = refl
not_skipped (c ∷ key) q h = ground arith

drop-past : (s t : Text) (c : ℕ) → drop (suc (length s)) (s ++ c ∷ t) ≡ t
drop-past [] t c = refl
drop-past (x ∷ s) t c = drop-past s t c

read_trimmed-line :
    (key q : Text) → IsStorable key → trim q ≡ q → read_trimmed (key ++ b'=' ∷ q) ≡ read_pair key q
unfolding read_trimmed
read_trimmed-line key q s h = ground (
  arith,
  not_skipped key q s.no_hash,
  index_of-append b'=' key q s.no_equals,
  take-append_length key (b'=' ∷ q),
  drop-past key q b'=',
  h,
  s.trimmed,
)

read_line-line_of :
    (v : EnvVar)
    → IsStorable v.key
    → read_line none (line_of v) ≡ (entry v.key (quote v.value) ∷ [], none)
unfolding read_line
read_line-line_of v s =
    ap read_trimmed (trim-line_of v s)
    ∙ unfold line_of in
      read_trimmed-line v.key (quote v.value) s (trim-quote v.value) ∙ read_pair-quote v.key v.value

abbrev pub written : EnvVar → Entry
written v = entry v.key (quote v.value)

abbrev pub AllStorable : List EnvVar → Type 0
AllStorable = All (λ v. IsStorable v.key)

read_lines-line_of :
    (vars : List EnvVar) → AllStorable vars → read_lines none (map line_of vars) ≡ map written vars
unfolding read_lines
read_lines-line_of [] h = refl
read_lines-line_of (v ∷ vars) h = rw (read_line-line_of v h.0, read_lines-line_of vars h.1)

line_of-Lacks_newline : (v : EnvVar) → IsStorable v.key → Lacks 10 (line_of v)
unfolding line_of
line_of-Lacks_newline v s =
    Lacks-append 10 v.key (b'=' ∷ quote v.value) s.no_newline (quote-Lacks_newline v.value)

lines-Lacks_newline : (vars : List EnvVar) → AllStorable vars → All (Lacks 10) (map line_of vars)
lines-Lacks_newline [] h = tt
lines-Lacks_newline (v ∷ vars) h = (line_of-Lacks_newline v h.0, lines-Lacks_newline vars h.1)

entries_nil : entries [] ≡ []
unfolding entries split read_lines read_line read_trimmed trim trim_start trim_end
entries_nil = refl

-- The lines of a written text are read as the variables that were written, and nothing else.
pub entries-to_dotenv :
    (vars : List EnvVar) → AllStorable vars → entries (to_dotenv vars) ≡ map written vars
unfolding to_dotenv
entries-to_dotenv [] h = unfold join in entries_nil
entries-to_dotenv (v ∷ vars) h =
    unfold entries in
    ap (read_lines none)
      (split-join 10 (line_of v) (map line_of vars) (lines-Lacks_newline (v ∷ vars) h))
    ∙ read_lines-line_of (v ∷ vars) h

-- What reading back makes of a stored variable: the flag comes from `previous`, and the time is dropped.
abbrev pub restored : List EnvVar → EnvVar → EnvVar
restored previous v = record v { is_secret = or_true (was_secret previous v.key); updated_at = [] }

vars_of-written :
    (previous vars : List EnvVar)
    → vars_of previous (map written vars) ≡ map (restored previous) vars
unfolding vars_of
vars_of-written previous [] = refl
vars_of-written previous (v ∷ vars) = rw (unquote-quote, vars_of-written previous vars)

-- Whatever the values hold, newlines, quotes, backslashes and comment signs included, reading the
-- text of storable variables gives the same keys and values in the same order, each with the
-- secret flag that `previous` has for its key, and `true` where it has none.
pub from_dotenv-to_dotenv :
    (vars previous : List EnvVar)
    → AllStorable vars
    → from_dotenv (to_dotenv vars) previous ≡ map (restored previous) vars
unfolding from_dotenv
from_dotenv-to_dotenv vars previous h =
    ap (vars_of previous) (entries-to_dotenv vars h) ∙ vars_of-written previous vars

problems_of-written : (vars : List EnvVar) → problems_of (map written vars) ≡ []
unfolding problems_of
problems_of-written [] = refl
problems_of-written (v ∷ vars) = problems_of-written vars

-- The text that the editor starts from has no line problem.
pub line_problems-to_dotenv :
    (vars : List EnvVar) → AllStorable vars → line_problems (to_dotenv vars) ≡ []
unfolding line_problems
line_problems-to_dotenv vars h = rw (entries-to_dotenv vars h) (problems_of-written vars)
