-- ===== src/Format/AccessLine.antt =====
-- `parseAccessLine` of apps/web/src/lib/format.ts: nginx's combined access line.
mod Printed
mod Tests
use vexdock.Base.{
  ℕ, zero, suc, ◌*◌, ◌/◌, ◌%◌, ◌^◌, ltb, ◌||◌, ◌&&◌, Bool, true, false, not, Option, none, some,
  List, [], ◌∷◌, ◌++◌, ◌==◌, if◌then◌else◌,
}
use vexdock.Text.{Text, text_eq, is_space, number}
use vexdock.Format.Scan.{◌>>=◌, Taken, is_digit, eat, span, span_one, each_of}

pub record AccessLine : Type 0 where
  pub client : Text
  pub method : Text
  pub path : Text
  pub status : Text
  pub bytes : ℕ

-- `\S`
abbrev pub is_solid : ℕ → Bool
is_solid c = not (is_space c)

-- `\S+ `
unfoldable pub word_at : Text → Option Taken
word_at s = do (word, end) ← span_one is_solid s; rest ← eat b' ' end; some (word, rest)

-- `\[[^\]]+\] `
unfoldable pub skip_time : Text → Option Text
skip_time s = do
  opened ← eat b'[' s
  (time, end) ← span_one (λ c. not (c == b']')) opened
  close ← eat b']' end
  eat b' ' close

-- `\d+|-`
abbrev sent_from : Option Taken → Text → Option Text
sent_from (some (digits, rest)) s = some digits
sent_from none s = eat b'-' s >>= λ _. some (b'-' ∷ [])

-- `[^"]*" (?<status>\d{3}) (?<sent>\d+|-)`
unfoldable pub tail_at : Text → Option (Text × Text)
tail_at s = do
  end ← eat b'"' (span (λ c. not (c == b'"')) s).1
  behind ← eat b' ' end
  (status, more) ← each_of (is_digit ∷ is_digit ∷ is_digit ∷ []) behind
  last ← eat b' ' more
  sent ← sent_from (span_one is_digit last) last
  some (status, sent)

-- `(?<path>\S+)` and what follows it: the longest path whose end reads on.
abbrev with_path : Text → Option (Text × Text) → Option (Text × Text × Text)
with_path path none = none
with_path path (some (status, sent)) = some (path, status, sent)

abbrev or_shorter :
    Option (Text × Text × Text) → Option (Text × Text × Text) → Option (Text × Text × Text)
or_shorter (some found) shorter = some found
or_shorter none shorter = shorter

unfoldable pub path_from : Text → Text → Option (Text × Text × Text)
path_from taken [] = none
path_from taken (c ∷ cs) =
    let path = taken ++ c ∷ [] in
    let found = or_shorter (path_from path cs) (with_path path (tail_at cs)) in
    if is_space c then none else found

-- How often a number is halved until it has 53 bits.
unfoldable pub exponent : ℕ → ℕ → ℕ
exponent zero n = 0
exponent (suc fuel) n = let more = suc (exponent fuel (n / 2)) in if ltb n (2 ^ 53) then 0 else more

-- The double nearest to a whole number, of two the one whose last bit is 0. From 2 ^ 1024 on
-- JavaScript has Infinity.
unfoldable pub to_double : ℕ → ℕ
to_double n =
    let unit = 2 ^ exponent 1024 n in
    let units = n / unit in
    let rest = 2 * (n % unit) in
    (if ltb unit rest || (unit == rest && not (units % 2 == 0)) then suc units else units) * unit

-- `sent === '-' ? 0 : Number(sent)`
abbrev bytes_of : Text → ℕ
bytes_of sent = if text_eq sent (b'-' ∷ []) then 0 else to_double (number 0 sent)

unfoldable pub parse_access_line : Text → Option AccessLine
parse_access_line text = do
  (client, behind) ← word_at text
  (ident, after_ident) ← word_at behind
  (user, after_user) ← word_at after_ident
  request ← skip_time after_user
  quoted ← eat b'"' request
  (method, rest) ← word_at quoted
  (path, status, sent) ← path_from [] rest
  some (record {
    client = client;
    method = method;
    path = path;
    status = status;
    bytes = bytes_of sent;
  })
