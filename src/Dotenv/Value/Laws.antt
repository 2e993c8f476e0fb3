-- ===== src/Dotenv/Value/Laws.antt =====
-- What one value of the text form keeps: `unquote` undoes `quote`, and a written value is one
-- trimmed line whose closing quote is its last character.
use vexdock.Base.{
  ℕ, ◌+◌, ◌≡◌, ◌≢◌, ◌⊎◌, refl, ap, true, false, ◌||◌, some, [], ◌∷◌, ◌++◌, arith, ◌==◌,
  if◌then◌else◌, length, length-append, any, drop, take, Bool-cases, inl, inr,
}
use vexdock.Text.{Text, is_space, trim_start, trim_end, trim, replace_all, ends_with, slice_last}
use vexdock.Text.Laws.{Lacks, Lacks-append, trim_end-append, trim_end-solid, replace_all-append}
use vexdock.Dotenv.Value.{
  needs_quotes, escape, quote, unescape, unquote, closing_from, closing_quote, comment_at,
  drop_comment, without_comment,
}

-- The escaped form, character by character.
abbrev escape_char : ℕ → Text
escape_char c =
    if c == b'\\'
    then b'\\' ∷ b'\\' ∷ []
    else if c == b'"'
    then b'\\' ∷ b'"' ∷ []
    else if c == 10
    then b'\\' ∷ b'n' ∷ []
    else c ∷ []

abbrev escaped : Text → Text
escaped [] = []
escaped (c ∷ cs) = escape_char c ++ escaped cs

three_passes : ℕ → Text
three_passes c =
    replace_all 10 (b'\\' ∷ b'n' ∷ [])
      (replace_all b'"' (b'\\' ∷ b'"' ∷ []) (if c == b'\\' then b'\\' ∷ b'\\' ∷ [] else c ∷ []))

three_passes_lem : (c : ℕ) → three_passes c ≡ escape_char c
unfolding three_passes replace_all
three_passes_lem c = ground arith

escape-cons : (c : ℕ) (s : Text) → escape (c ∷ s) ≡ three_passes c ++ escape s
unfolding escape three_passes replace_all
escape-cons c s = simp replace_all-append

pub escape-escaped : (s : Text) → escape s ≡ escaped s
escape-escaped [] = unfold escape replace_all in refl
escape-escaped (c ∷ s) = rw (escape-cons, three_passes_lem, escape-escaped s)

unescape-plain : (c : ℕ) (s : Text) → (c == b'\\') ≡ false → unescape (c ∷ s) ≡ c ∷ unescape s
unfolding unescape
unescape-plain c [] h = refl
unescape-plain c (d ∷ s) h = ground arith

unescape-escaped : (s : Text) → unescape (escaped s) ≡ s
unfolding unescape
unescape-escaped [] = refl
unescape-escaped (c ∷ s) = elim (Bool-cases (c == b'\\' || c == b'"' || c == 10)) [
  | inl special ↦ ground (arith, unescape-escaped s)
  | inr plain ↦ ground (arith, unescape-escaped s, unescape-plain c (escaped s))
]

closing_from-escaped :
    (i : ℕ) (s rest : Text)
    → closing_from i false (escaped s ++ b'"' ∷ rest) ≡ some (i + length (escaped s))
unfolding closing_from
closing_from-escaped i [] rest = ground arith
closing_from-escaped i (c ∷ s) rest =
    ground (arith, closing_from-escaped (i + 1) s rest, closing_from-escaped (i + 1 + 1) s rest)

escaped-Lacks : (s : Text) → Lacks 10 (escaped s)
escaped-Lacks [] = refl
escaped-Lacks (c ∷ s) = ground (arith, escaped-Lacks s)

abbrev pub quoted : Text → Text
quoted v = b'"' ∷ (escaped v ++ b'"' ∷ [])

pub record IsPlain (c : ℕ) : Type 0 where
  pub solid : is_space c ≡ false
  pub no_quote : (c == b'"') ≡ false
  pub no_single : (c == b'\'') ≡ false
  pub no_hash : (c == b'#') ≡ false
  pub no_newline : (c == 10) ≡ false

pub space_newline : (c : ℕ) → is_space c ≡ false → (c == 10) ≡ false
unfolding is_space
space_newline c h = ground arith

IsPlain-char : (c : ℕ) → needs_quotes c ≡ false → IsPlain c
unfolding needs_quotes
IsPlain-char c h = record {
  solid = ground arith;
  no_quote = ground arith;
  no_single = ground arith;
  no_hash = ground arith;
  no_newline = ground (arith, space_newline c);
}

quote_needed : (v : Text) → any needs_quotes v ≡ true → quote v ≡ quoted v
unfolding quote
quote_needed [] h = cc
quote_needed (c ∷ v) h = rw (h, escape-escaped)

quote_bare : (c : ℕ) (v : Text) → any needs_quotes (c ∷ v) ≡ false → quote (c ∷ v) ≡ c ∷ v
unfolding quote
quote_bare c v h = rw h

pub quote_cases :
    (v : Text) → (quote v ≡ quoted v) ⊎ ((quote v ≡ v) × (v ≢ []) × (any needs_quotes v ≡ false))
quote_cases [] = inl (unfold quote in refl)
quote_cases (c ∷ v) = elim (Bool-cases (any needs_quotes (c ∷ v))) [
  | inl needed ↦ inl (quote_needed (c ∷ v) needed)
  | inr bare ↦ inr (quote_bare c v bare, ground arith, bare)
]

pub IsPlain-head : (c : ℕ) (s : Text) → any needs_quotes (c ∷ s) ≡ false → IsPlain c
IsPlain-head c s h = IsPlain-char c (ground arith)

plain_solid : (s : Text) → any needs_quotes s ≡ false → any is_space s ≡ false
plain_solid [] h = refl
plain_solid (c ∷ s) h = ground (arith, (IsPlain-head c s h).solid, plain_solid s)

plain-Lacks_hash : (s : Text) → any needs_quotes s ≡ false → Lacks b'#' s
plain-Lacks_hash [] h = refl
plain-Lacks_hash (c ∷ s) h = ground (arith, (IsPlain-head c s h).no_hash, plain-Lacks_hash s)

plain-Lacks_newline : (s : Text) → any needs_quotes s ≡ false → Lacks 10 s
plain-Lacks_newline [] h = refl
plain-Lacks_newline (c ∷ s) h =
    ground (arith, (IsPlain-head c s h).no_newline, plain-Lacks_newline s)

ends_with-append : (c : ℕ) (s : Text) → ends_with c (s ++ c ∷ []) ≡ true
ends_with-append c [] = ground arith
ends_with-append c (x ∷ []) = ground arith
ends_with-append c (x ∷ y ∷ s) = ends_with-append c (y ∷ s)

slice_last-append : (c : ℕ) (s : Text) → slice_last (s ++ c ∷ []) ≡ s
slice_last-append c [] = refl
slice_last-append c (x ∷ []) = refl
slice_last-append c (x ∷ y ∷ s) = ap (λ r. x ∷ r) (slice_last-append c (y ∷ s))

unquote-quoted : (v : Text) → unquote (quoted v) ≡ v
unfolding unquote
unquote-quoted v = ground (
  arith,
  length-append (escaped v) (b'"' ∷ []),
  ends_with-append b'"' (b'"' ∷ escaped v),
  slice_last-append b'"' (escaped v),
  unescape-escaped v,
)

unquote-plain : (v : Text) → any needs_quotes v ≡ false → unquote v ≡ v
unfolding unquote
unquote-plain [] h = refl
unquote-plain (c ∷ s) h =
    ground (arith, (IsPlain-head c s h).no_quote, (IsPlain-head c s h).no_single)

-- Reading a written value gives the value back, whatever characters it holds.
pub unquote-quote : (v : Text) → unquote (quote v) ≡ v
unquote-quote v = elim (quote_cases v) [
  | inl q ↦ rw q (unquote-quoted v)
  | inr (q, _, bare) ↦ rw q (unquote-plain v bare)
]

length-quoted_cut : (s : Text) → (take (length s) s ≡ s) × (drop (length s) s ≡ [])
length-quoted_cut [] = (refl, refl)
length-quoted_cut (c ∷ s) = let (t, d) = length-quoted_cut s in (ap (λ r. c ∷ r) t, d)

-- The closing quote of a quoted value is its last character.
pub closing_quote-quoted : (v : Text) → closing_quote (quoted v) ≡ some (1 + length (escaped v))
unfolding closing_quote
closing_quote-quoted v = closing_from-escaped 1 v []

comment_at-Lacks : (s : Text) → Lacks b'#' s → comment_at s ≡ false
unfolding comment_at
comment_at-Lacks [] h = refl
comment_at-Lacks (c ∷ []) h = ground arith
comment_at-Lacks (c ∷ d ∷ s) h = ground (arith, comment_at-Lacks (d ∷ s))

drop_comment-Lacks : (s : Text) → Lacks b'#' s → drop_comment s ≡ s
unfolding drop_comment
drop_comment-Lacks [] h = refl
drop_comment-Lacks (c ∷ s) h = ground (arith, comment_at-Lacks (c ∷ s), drop_comment-Lacks s)

without_comment-quoted : (v : Text) → without_comment (quoted v) ≡ quoted v
unfolding without_comment
without_comment-quoted v =
    let (t, d) = length-quoted_cut (quoted v) in
    ground (arith, closing_quote-quoted v, length-append (escaped v) (b'"' ∷ []), t, d)

without_comment-plain : (v : Text) → any needs_quotes v ≡ false → without_comment v ≡ v
unfolding without_comment
without_comment-plain [] h = unfold drop_comment in refl
without_comment-plain (c ∷ s) h = ground (
  arith,
  (IsPlain-head c s h).no_quote,
  (IsPlain-head c s h).no_single,
  drop_comment-Lacks (c ∷ s) (plain-Lacks_hash (c ∷ s) h),
)

-- A written value holds no inline comment.
pub without_comment-quote : (v : Text) → without_comment (quote v) ≡ quote v
without_comment-quote v = elim (quote_cases v) [
  | inl q ↦ rw q (without_comment-quoted v)
  | inr (q, _, bare) ↦ rw q (without_comment-plain v bare)
]

trim_end_quote : trim_end (b'"' ∷ []) ≡ b'"' ∷ []
unfolding trim_end is_space
trim_end_quote = refl

trim_start-solid : (c : ℕ) (s : Text) → is_space c ≡ false → trim_start (c ∷ s) ≡ c ∷ s
unfolding trim_start
trim_start-solid c s h = rw h

-- A written value is not empty and ends in no space.
pub trim_end-quote : (v : Text) → trim_end (quote v) ≡ quote v
trim_end-quote v = elim (quote_cases v) [
  | inl q ↦ rw q (trim_end-append (b'"' ∷ escaped v) [] b'"' trim_end_quote)
  | inr (q, _, bare) ↦ rw q (trim_end-solid v (plain_solid v bare))
]

quote_solid : is_space b'"' ≡ false
unfolding is_space
quote_solid = refl

pub trim_start-quote : (v : Text) → trim_start (quote v) ≡ quote v
trim_start-quote v = elim (quote_cases v) [
  | inl q ↦ rw q (trim_start-solid b'"' _ quote_solid)
  | inr (q, ne, bare) ↦ rw q (bare_start v bare)
]
  where
    bare_start : (s : Text) → any needs_quotes s ≡ false → trim_start s ≡ s
    bare_start [] h = unfold trim_start in refl
    bare_start (c ∷ s) h = trim_start-solid c s (IsPlain-head c s h).solid

pub trim-quote : (v : Text) → trim (quote v) ≡ quote v
unfolding trim
trim-quote v = rw (trim_start-quote, trim_end-quote)

-- A written value stays on one line.
pub quote-Lacks_newline : (v : Text) → Lacks 10 (quote v)
quote-Lacks_newline v = elim (quote_cases v) [
  | inl q ↦ rw q (Lacks-append 10 (escaped v) (b'"' ∷ []) (escaped-Lacks v) refl)
  | inr (q, _, bare) ↦ rw q (plain-Lacks_newline v bare)
]

pub quote-ne-nil : (v : Text) → quote v ≢ []
quote-ne-nil v = elim (quote_cases v) [ inl q ↦ rw q (ground arith) | inr (q, ne, _) ↦ rw q ne ]
