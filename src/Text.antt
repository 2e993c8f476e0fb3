-- ===== src/Text.antt =====
-- JavaScript strings as lists of UTF-16 code units, and the string methods that the sources call.
pub mod Laws
pub mod Decimal
use Prim.Native.Char.{code}
use vexdock.Base.{
  ℕ, zero, suc, ◌+◌, ◌-◌, ◌*◌, ◌/◌, ◌%◌, ◌≡◌, refl, ◌↔◌, Bool, true, false, not, ◌&&◌, ◌||◌, Option,
  none, some, List, [], ◌∷◌, ◌++◌, String, arith, leb, ◌==◌, if◌then◌else◌, length, drop,
}

abbrev pub Text : Type 0
Text = List ℕ

-- A literal of the source; every literal here lies in the basic plane.
abbrev pub codes : String → Text
codes String.[] = []
codes (String.◌∷◌ c s) = code c ∷ codes s

-- `===` on strings.
abbrev pub text_eq : Text → Text → Bool
text_eq [] [] = true
text_eq [] (_ ∷ _) = false
text_eq (_ ∷ _) [] = false
text_eq (x ∷ xs) (y ∷ ys) = x == y && text_eq xs ys

pub text_eq_iff : (s t : Text) → (text_eq s t ≡ true) ↔ (s ≡ t)
text_eq_iff [] [] = ground arith
text_eq_iff [] (_ ∷ _) = ground arith
text_eq_iff (_ ∷ _) [] = ground arith
text_eq_iff (x ∷ xs) (y ∷ ys) = ground (arith, text_eq_iff xs ys)

-- `\s` of a regular expression, which is also what `trim` removes.
unfoldable pub is_space : ℕ → Bool
is_space c =
    (leb 9 c && leb c 13)
    || c == 32
    || c == 160
    || c == 0x1680
    || (leb 0x2000 c && leb c 0x200a)
    || c == 0x2028
    || c == 0x2029
    || c == 0x202f
    || c == 0x205f
    || c == 0x3000
    || c == 0xfeff

-- What `.` of a regular expression does not match.
unfoldable pub is_line_end : ℕ → Bool
is_line_end c = c == 10 || c == 13 || c == 0x2028 || c == 0x2029

unfoldable pub trim_start : Text → Text
trim_start [] = []
trim_start (c ∷ cs) = let rest = trim_start cs in if is_space c then rest else c ∷ cs

-- Puts `c` in front of an end that has been trimmed already.
abbrev pub trim_before : ℕ → Text → Text
trim_before c [] = if is_space c then [] else c ∷ []
trim_before c (d ∷ ds) = c ∷ d ∷ ds

unfoldable pub trim_end : Text → Text
trim_end [] = []
trim_end (c ∷ cs) = trim_before c (trim_end cs)

unfoldable pub trim : Text → Text
trim s = trim_end (trim_start s)

-- `startsWith` and `endsWith`, on one character.
abbrev pub starts_with : ℕ → Text → Bool
starts_with c [] = false
starts_with c (x ∷ xs) = x == c

abbrev pub ends_with : ℕ → Text → Bool
ends_with c [] = false
ends_with c (x ∷ []) = x == c
ends_with c (x ∷ y ∷ ys) = ends_with c (y ∷ ys)

-- `slice(1, -1)`: without the first and the last character.
abbrev pub slice_last : Text → Text
slice_last [] = []
slice_last (x ∷ []) = []
slice_last (x ∷ y ∷ ys) = x ∷ slice_last (y ∷ ys)

abbrev pub slice_inner : Text → Text
slice_inner [] = []
slice_inner (x ∷ xs) = slice_last xs

-- `indexOf` on one character; `none` is -1.
abbrev pub index_after : Option ℕ → Option ℕ
index_after none = none
index_after (some i) = some (suc i)

unfoldable pub index_of : ℕ → Text → Option ℕ
index_of c [] = none
index_of c (x ∷ xs) = let rest = index_after (index_of c xs) in if x == c then some 0 else rest

-- `split` at one character.
abbrev pub split_before : ℕ → List Text → List Text
split_before x [] = (x ∷ []) ∷ []
split_before x (l ∷ ls) = (x ∷ l) ∷ ls

unfoldable pub split : ℕ → Text → List Text
split c [] = [] ∷ []
split c (x ∷ xs) = let rest = split c xs in if x == c then [] ∷ rest else split_before x rest

-- `join` with one character.
unfoldable pub join : ℕ → List Text → Text
join c [] = []
join c (s ∷ []) = s
join c (s ∷ t ∷ ts) = s ++ c ∷ join c (t ∷ ts)

-- `replaceAll` of one character.
unfoldable pub replace_all : ℕ → Text → Text → Text
replace_all c by [] = []
replace_all c by (x ∷ xs) = (if x == c then by else x ∷ []) ++ replace_all c by xs

-- A natural number in decimal, as a template literal prints it. The fuel is one more than the
-- number, which has no more digits than that.
decimal_onto : ℕ → ℕ → Text → Text
decimal_onto zero n out = out
decimal_onto (suc fuel) n out =
    let more = decimal_onto fuel (n / 10) ((b'0' + n % 10) ∷ out) in
    if n / 10 == 0 then (b'0' + n % 10) ∷ out else more

unfoldable pub decimal : ℕ → Text
unfolding decimal_onto
decimal n = decimal_onto (suc n) n []

-- The number that decimal digits write, `n` being read already.
unfoldable pub number : ℕ → Text → ℕ
number n [] = n
number n (c ∷ cs) = number (n * 10 + (c - b'0')) cs

-- `startsWith` with a longer text.
abbrev pub has_prefix : Text → Text → Bool
has_prefix [] s = true
has_prefix (x ∷ xs) [] = false
has_prefix (x ∷ xs) (y ∷ ys) = x == y && has_prefix xs ys

-- `split(…)[0]`
abbrev pub before : ℕ → Text → Text
before c [] = []
before c (x ∷ xs) = let rest = x ∷ before c xs in if x == c then [] else rest

-- `replaceAll` of a text that is not empty, by one without `$`: `skip` characters of an occurrence
-- are still to be passed.
abbrev pub replace_from : ℕ → Text → Text → Text → Text
replace_from skip from to [] = []
replace_from (suc skip) from to (x ∷ xs) = replace_from skip from to xs
replace_from zero from to (x ∷ xs) =
    let found = to ++ replace_from (length (drop 1 from)) from to xs in
    let missed = x ∷ replace_from zero from to xs in
    if has_prefix from (x ∷ xs) then found else missed

-- An empty text occurs before every character and at the end.
abbrev pub interleave : Text → Text → Text
interleave to [] = to
interleave to (x ∷ xs) = to ++ x ∷ interleave to xs

unfoldable pub replace_text : Text → Text → Text → Text
replace_text [] to s = interleave to s
replace_text (c ∷ cs) to s = replace_from zero (c ∷ cs) to s
