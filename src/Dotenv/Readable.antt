-- ===== src/Dotenv/Readable.antt =====
-- The keys that `entries` of apps/web/src/lib/dotenv.ts reads, from whatever text.
use vexdock.Base.{
  ℕ, zero, suc, ◌≡◌, inl, inr, refl, ap, ◌∙◌, true, false, ◌||◌, ◌&&◌, Option, none, some, List, [],
  ◌∷◌, ◌++◌, arith, ◌==◌, take, drop, All, Bool-cases, Option-cases,
}
use vexdock.Text.{
  Text, text_eq, is_space, trim_start, trim_end, trim, starts_with, index_of, split, trim_before,
  split_before,
}
use vexdock.Text.Laws.{Lacks, trim-head}
use vexdock.Dotenv.Value.{closing_quote}
use vexdock.Dotenv.Entries.{
  Entry, entry, problem, OpenValue, is_none, Step, read_pair, read_trimmed, read_line, read_lines,
  entries,
}
use vexdock.Dotenv.Vars.{EnvVar, vars_of, from_dotenv}
use vexdock.Dotenv.RoundTrip.{IsStorable, AllStorable}

trim_before_idem :
    (c : ℕ) (r : Text) → trim_end r ≡ r → trim_end (trim_before c r) ≡ trim_before c r
unfolding trim_end
trim_before_idem c [] h = ground arith
trim_before_idem c (d ∷ r) h = rw h

trim_end_idem : (s : Text) → trim_end (trim_end s) ≡ trim_end s
unfolding trim_end
trim_end_idem [] = refl
trim_end_idem (c ∷ s) = trim_before_idem c (trim_end s) (trim_end_idem s)

trim_before-solid : (c : ℕ) (r : Text) → is_space c ≡ false → trim_before c r ≡ c ∷ r
trim_before-solid c [] h = rw h
trim_before-solid c (d ∷ r) h = refl

trim-solid : (c : ℕ) (s : Text) → is_space c ≡ false → trim (c ∷ s) ≡ c ∷ trim_end s
unfolding trim trim_start trim_end
trim-solid c s h = rw h (trim_before-solid c (trim_end s) h)

trim-space : (c : ℕ) (s : Text) → is_space c ≡ true → trim (c ∷ s) ≡ trim s
unfolding trim trim_start
trim-space c s h = rw h

trim-nil : trim [] ≡ []
unfolding trim trim_start trim_end
trim-nil = refl

trim_idem : (s : Text) → trim (trim s) ≡ trim s
trim_idem [] = ap trim trim-nil
trim_idem (c ∷ s) = elim (Bool-cases (is_space c)) [
  | inl space ↦ rw (trim-space c s space) (trim_idem s)
  | inr solid ↦
      rw (trim-solid c s solid)
        (trim-solid c (trim_end s) solid ∙ ap (λ r. c ∷ r) (trim_end_idem s))
]

trim_before-Lacks : (x c : ℕ) (r : Text) → (c == x) ≡ false → Lacks x r → Lacks x (trim_before c r)
trim_before-Lacks x c [] h l = ground arith
trim_before-Lacks x c (d ∷ r) h l = ground arith

trim_end-Lacks : (x : ℕ) (s : Text) → Lacks x s → Lacks x (trim_end s)
unfolding trim_end
trim_end-Lacks x [] l = l
trim_end-Lacks x (c ∷ s) l =
    trim_before-Lacks x c (trim_end s) (ground arith) (trim_end-Lacks x s (ground arith))

trim-Lacks : (x : ℕ) (s : Text) → Lacks x s → Lacks x (trim s)
trim-Lacks x [] l = rw trim-nil l
trim-Lacks x (c ∷ s) l = elim (Bool-cases (is_space c)) [
  | inl space ↦ rw (trim-space c s space) (trim-Lacks x s (ground arith))
  | inr solid ↦ rw (trim-solid c s solid) (ground (arith, trim_end-Lacks x s (ground arith)))
]

index_of-Lacks : (c i : ℕ) (s : Text) → index_of c s ≡ some i → Lacks c (take i s)
unfolding index_of
index_of-Lacks c zero s h = refl
index_of-Lacks c (suc i) [] h = absurd (cc h)
index_of-Lacks c (suc i) (x ∷ s) h = elim (Option-cases (index_of c s)) [
  | inl missing ↦ ground (arith, missing)
  | inr (j, found) ↦ ground (arith, found, index_of-Lacks c i s)
]

take-Lacks : (c i : ℕ) (s : Text) → Lacks c s → Lacks c (take i s)
take-Lacks c zero s h = refl
take-Lacks c (suc i) [] h = refl
take-Lacks c (suc i) (x ∷ s) h = ground (arith, take-Lacks c i s)

split_before-Lacks :
    (c x : ℕ) (ls : List Text)
    → (x == c) ≡ false
    → All (Lacks c) ls
    → All (Lacks c) (split_before x ls)
split_before-Lacks c x [] h l = (ground arith, tt)
split_before-Lacks c x (s ∷ ls) h l = (ground arith, l.1)

split-AllLack : (c : ℕ) (s : Text) → All (Lacks c) (split c s)
unfolding split
split-AllLack c [] = (refl, tt)
split-AllLack c (x ∷ s) = elim (Bool-cases (x == c)) [
  | inl here ↦ rw here (refl, split-AllLack c s)
  | inr other ↦ rw other (split_before-Lacks c x (split c s) other (split-AllLack c s))
]

-- The part in front of the `=`, of a line that is no comment.
head_no_hash :
    (i : ℕ) (l : Text)
    → trim l ≡ l
    → starts_with b'#' l ≡ false
    → starts_with b'#' (trim (take i l)) ≡ false
head_no_hash zero l t h = rw trim-nil refl
head_no_hash (suc i) [] t h = rw trim-nil refl
head_no_hash (suc i) (c ∷ s) t h = rw (trim-solid c (take i s) (trim-head c s t)) h

key-IsStorable :
    (i : ℕ) (l : Text)
    → trim l ≡ l
    → Lacks 10 l
    → starts_with b'#' l ≡ false
    → index_of b'=' l ≡ some i
    → IsStorable (trim (take i l))
key-IsStorable i l t n h found = record {
  trimmed = trim_idem (take i l);
  no_equals = trim-Lacks b'=' (take i l) (index_of-Lacks b'=' i l found);
  no_newline = trim-Lacks 10 (take i l) (take-Lacks 10 i l n);
  no_hash = head_no_hash i l t h;
}

abbrev KeyStorable : Entry → Type 0
KeyStorable (entry key raw) = IsStorable key
KeyStorable (problem p) = Unit

abbrev OpenStorable : Option OpenValue → Type 0
OpenStorable none = Unit
OpenStorable (some o) = IsStorable o.key

abbrev StepStorable : Step → Type 0
StepStorable (found, next) = All KeyStorable found × OpenStorable next

read_pair-StepStorable : (key raw : Text) → IsStorable key → StepStorable (read_pair key raw)
unfolding read_pair
read_pair-StepStorable key raw s =
    elim (Bool-cases (starts_with b'"' raw && is_none (closing_quote raw))) [
      | inl runs_on ↦ rw runs_on (tt, s)
      | inr ends ↦ rw ends ((s, tt), tt)
    ]

read_trimmed-StepStorable : (l : Text) → trim l ≡ l → Lacks 10 l → StepStorable (read_trimmed l)
unfolding read_trimmed
read_trimmed-StepStorable l t n = elim (Bool-cases (text_eq l [] || starts_with b'#' l)) [
  | inl skipped ↦ rw skipped (tt, tt)
  | inr kept ↦ elim (Option-cases (index_of b'=' l)) [
    | inl missing ↦ rw (kept, missing) ((tt, tt), tt)
    | inr (i, found) ↦
        rw (kept, found)
          (read_pair-StepStorable (trim (take i l)) (trim (drop (suc i) l))
            (key-IsStorable i l t n (ground arith) found))
  ]
]

read_line-StepStorable :
    (state : Option OpenValue) (l : Text)
    → OpenStorable state
    → Lacks 10 l
    → StepStorable (read_line state l)
unfolding read_line
read_line-StepStorable none l s n =
    read_trimmed-StepStorable (trim l) (trim_idem l) (trim-Lacks 10 l n)
read_line-StepStorable (some o) l s n =
    elim (Bool-cases (is_none (closing_quote (o.raw ++ 10 ∷ trim_end l)))) [
      | inl runs_on ↦ rw runs_on (tt, s)
      | inr ends ↦ rw ends ((s, tt), tt)
    ]

All-append : {A : Type 0} (P : A → Type 0) (xs ys : List A) → All P xs → All P ys → All P (xs ++ ys)
All-append P [] ys hx hy = hy
All-append P (x ∷ xs) ys hx hy = (hx.0, All-append P xs ys hx.1 hy)

read_lines-AllStorable :
    (state : Option OpenValue) (ls : List Text)
    → OpenStorable state
    → All (Lacks 10) ls
    → All KeyStorable (read_lines state ls)
unfolding read_lines
read_lines-AllStorable none [] s n = tt
read_lines-AllStorable (some o) [] s n = (tt, tt)
read_lines-AllStorable none (l ∷ ls) s n =
    let (found, next) = read_line-StepStorable none l s n.0 in
    All-append KeyStorable (read_line none l).0 _ found
      (read_lines-AllStorable (read_line none l).1 ls next n.1)
read_lines-AllStorable (some o) (l ∷ ls) s n =
    let (found, next) = read_line-StepStorable (some o) l s n.0 in
    All-append KeyStorable (read_line (some o) l).0 _ found
      (read_lines-AllStorable (read_line (some o) l).1 ls next n.1)

vars_of-AllStorable :
    (previous : List EnvVar) (es : List Entry)
    → All KeyStorable es
    → AllStorable (vars_of previous es)
unfolding vars_of
vars_of-AllStorable previous [] h = tt
vars_of-AllStorable previous (problem p ∷ es) h = vars_of-AllStorable previous es h.1
vars_of-AllStorable previous (entry key raw ∷ es) h = (h.0, vars_of-AllStorable previous es h.1)

-- Every key that is read, from whatever text, can be written and read back.
pub read-AllStorable :
    (text : Text) (previous : List EnvVar) → AllStorable (from_dotenv text previous)
unfolding from_dotenv entries
read-AllStorable text previous =
    vars_of-AllStorable previous (entries text)
      (read_lines-AllStorable none (split 10 text) tt (split-AllLack 10 text))
