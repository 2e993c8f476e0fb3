-- ===== src/Format/AccessLine/Printed.antt =====
-- `parseAccessLine` reads back what nginx's combined format prints.
use vexdock.Base.{
  ℕ, suc, ◌^◌, ltb, ◌≤◌, ◌≡◌, ◌≢◌, inl, inr, Bool-cases, refl, ap, ◌∙◌, Bool, true, false, not,
  ◌&&◌, none, some, [], ◌∷◌, ◌++◌, ◌==◌, all, append_assoc, arith,
}
use vexdock.Text.{Text, text_eq, text_eq_iff, is_space, decimal}
use vexdock.Text.Decimal.{number-decimal, all-decimal, decimal-ne-nil}
use vexdock.Format.Scan.{is_digit, filled, span_one, each_of, span-stops}
use vexdock.Format.AccessLine.{
  is_solid, word_at, skip_time, tail_at, path_from, to_double, exponent, parse_access_line,
}

-- A text that is not empty and whose characters are all of a class.
abbrev pub IsOf : (ℕ → Bool) → Text → Type 0
IsOf p s = (s ≢ []) × (all p s ≡ true)

abbrev pub not_bracket : ℕ → Bool
not_bracket c = not (c == b']')

abbrev pub not_quote : ℕ → Bool
not_quote c = not (c == b'"')

filled-some : (s rest : Text) → s ≢ [] → filled (s, rest) ≡ some (s, rest)
filled-some [] rest ne = elim (ne refl) [ ]
filled-some (c ∷ s) rest ne = refl

span_one-stops :
    (p : ℕ → Bool) (s rest : Text) (c : ℕ)
    → IsOf p s
    → p c ≡ false
    → span_one p (s ++ c ∷ rest) ≡ some (s, c ∷ rest)
span_one-stops p s rest c (ne, of) stop =
    ap filled (span-stops p s rest c of stop) ∙ filled-some s (c ∷ rest) ne

space-ends : is_solid b' ' ≡ false
unfolding is_space
space-ends = refl

word_at-append : (s rest : Text) → IsOf is_solid s → word_at (s ++ b' ' ∷ rest) ≡ some (s, rest)
unfolding word_at
word_at-append s rest word = rw (span_one-stops is_solid s rest b' ' word space-ends)

skip_time-append :
    (time rest : Text)
    → IsOf not_bracket time
    → skip_time (b'[' ∷ time ++ b']' ∷ b' ' ∷ rest) ≡ some rest
unfolding skip_time
skip_time-append time rest h = rw (span_one-stops not_bracket time (b' ' ∷ rest) b']' h refl)

-- The end of the line from the space behind the path.
abbrev pub line_end : Text → ℕ → ℕ → ℕ → ℕ → Text → Text
line_end proto a b c sent rest =
    b' ' ∷ proto ++ (b'"' ∷ b' ' ∷ a ∷ b ∷ c ∷ b' ' ∷ (decimal sent ++ b' ' ∷ rest))

tail_at-end :
    (proto rest : Text) (a b c sent : ℕ)
    → all not_quote proto ≡ true
    → is_digit a ≡ true
    → is_digit b ≡ true
    → is_digit c ≡ true
    → tail_at (line_end proto a b c sent rest) ≡ some (a ∷ b ∷ c ∷ [], decimal sent)
unfolding tail_at each_of
tail_at-end proto rest a b c sent quiet ha hb hc = rw (
  span-stops not_quote (b' ' ∷ proto) (b' ' ∷ a ∷ b ∷ c ∷ b' ' ∷ (decimal sent ++ b' ' ∷ rest)) b'"'
      quiet refl,
  ha,
  hb,
  hc,
  span_one-stops is_digit (decimal sent) rest b' ' (decimal-ne-nil sent, all-decimal sent) refl,
)

solid_parts : (space more : Bool) → (not space && more) ≡ true → (space ≡ false) × (more ≡ true)
solid_parts false more h = (refl, h)
solid_parts true more h = ground arith

not_space : (c : ℕ) (s : Text) → all is_solid (c ∷ s) ≡ true → is_space c ≡ false
not_space c s h = (solid_parts (is_space c) (all is_solid s) h).0

others : (c : ℕ) (s : Text) → all is_solid (c ∷ s) ≡ true → all is_solid s ≡ true
others c s h = (solid_parts (is_space c) (all is_solid s) h).1

cons-ne : (c : ℕ) (s : Text) → c ∷ s ≢ []
cons-ne c s e = absurd (cc)

path_from-space : (taken rest : Text) → path_from taken (b' ' ∷ rest) ≡ none
unfolding path_from is_space
path_from-space taken rest = refl

path_from-append :
    (taken path rest status sent : Text)
    → IsOf is_solid path
    → tail_at (b' ' ∷ rest) ≡ some (status, sent)
    → path_from taken (path ++ b' ' ∷ rest) ≡ some (taken ++ path, status, sent)
unfolding path_from
path_from-append taken [] rest status sent (ne, of) e = elim (ne refl) [ ]
path_from-append taken (c ∷ []) rest status sent (ne, of) e =
    rw (not_space c [] of, path_from-space (taken ++ c ∷ []) rest, e)
path_from-append taken (c ∷ d ∷ path) rest status sent (ne, of) e = rw (
  not_space c (d ∷ path) of,
  path_from-append (taken ++ c ∷ []) (d ∷ path) rest status sent
      (cons-ne d path, others c (d ∷ path) of) e,
  append_assoc taken (c ∷ []) (d ∷ path),
)

-- What the format prints: the address, two words, the time in brackets, the quoted request, the
-- three digits of the status, the number of bytes, and the rest.
abbrev pub printed : Text → Text → Text → Text → Text → Text → Text → ℕ → ℕ → ℕ → ℕ → Text → Text
printed client ident user time method path proto a b c sent rest =
    client
    ++ b' '
      ∷ (ident
          ++ b' '
            ∷ (user
                ++ b' '
                  ∷ (b'[' ∷ time
                      ++ b']'
                        ∷ b' '
                        ∷ (b'"' ∷ (method ++ b' ' ∷ (path ++ line_end proto a b c sent rest))))))

-- The largest integer up to which each has a double of its own, `Number.MAX_SAFE_INTEGER`.
abbrev pub max_safe : ℕ
max_safe = 9007199254740991

exponent-small : (fuel n : ℕ) → ltb n (2 ^ 53) ≡ true → exponent (suc fuel) n ≡ 0
unfolding exponent
exponent-small fuel n h = rw h refl

-- A double is exact on the integers that have a double of their own.
pub to_double-exact : (n : ℕ) → n ≤ max_safe → to_double n ≡ n
unfolding to_double
to_double-exact n h = rw (exponent-small 1023 n (ground arith)) (ground arith)

dash-ne-decimal : (n : ℕ) → text_eq (decimal n) (b'-' ∷ []) ≡ false
dash-ne-decimal n = elim (Bool-cases (text_eq (decimal n) (b'-' ∷ []))) [
  | inl e ↦
      absurd (cc (ap (all is_digit) ((text_eq_iff (decimal n) (b'-' ∷ [])).0 e), all-decimal n))
  | inr e ↦ e
]

-- An access line is read back: the address, the method, the path, the status and the number of
-- bytes of a printed line, where the words hold no space, the time no closing bracket, the rest of
-- the request no quote, the status is three digits, and the number of bytes is at most 2 ^ 53 - 1,
-- up to which a double is exact. The path may hold quotes.
pub parse_access_line-printed :
    (client ident user time method path proto : Text) (a b c sent : ℕ) (rest : Text)
    → IsOf is_solid client
    → IsOf is_solid ident
    → IsOf is_solid user
    → IsOf not_bracket time
    → IsOf is_solid method
    → IsOf is_solid path
    → all not_quote proto ≡ true
    → (is_digit a ≡ true) × (is_digit b ≡ true) × (is_digit c ≡ true)
    → sent ≤ max_safe
    → parse_access_line (printed client ident user time method path proto a b c sent rest)
      ≡ some (record {
        client = client;
        method = method;
        path = path;
        status = a ∷ b ∷ c ∷ [];
        bytes = sent;
      })
unfolding parse_access_line
parse_access_line-printed client ident user time method path proto a b c sent rest hc hi hu ht hm hp
      quiet (ha, hb, hd) safe =
    rw (
      word_at-append client _ hc,
      word_at-append ident _ hi,
      word_at-append user _ hu,
      skip_time-append time _ ht,
      word_at-append method _ hm,
      path_from-append [] path _ (a ∷ b ∷ c ∷ []) (decimal sent) hp
          (tail_at-end proto rest a b c sent quiet ha hb hd),
      dash-ne-decimal sent,
      number-decimal sent,
      to_double-exact sent safe,
    )
