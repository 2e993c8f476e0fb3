-- ===== src/Dotenv/Save.antt =====
-- What the Save button of the environment editor checks, in apps/web/src/lib/dotenv.ts.
pub mod Unsaved
pub mod Order
use mathlib.Core.Bool.{and-eq-true_iff}
use mathlib.Core.List.{append-eq-nil_iff}
use vexdock.Base.{
  ℕ, ◌≡◌, ◌≢◌, ◌↔◌, refl, sym, ap, ◌∙◌, Bool, true, false, not, ◌&&◌, ◌||◌, Option, none, some,
  List, [], ◌∷◌, ◌++◌, arith, leb, ◌==◌, if◌then◌else◌, map, All, any, all,
}
use vexdock.Text.{Text, text_eq, text_eq_iff, is_space, trim_start, trim_end, trim, starts_with}
use vexdock.Text.Laws.{Lacks, trim_end-solid}
use vexdock.Dotenv.Entries.{Entry, entry, problem, entries}
use vexdock.Dotenv.Vars.{
  EnvVar, to_dotenv, was_secret, or_true, vars_of, from_dotenv, line_problems, is_key_start,
  is_key_char, env_key, key_problem, key_problems, save_problems,
}
use vexdock.Dotenv.Readable.{read-AllStorable}
use vexdock.Dotenv.RoundTrip.{IsStorable, AllStorable, restored, from_dotenv-to_dotenv}

record IsWordChar (c : ℕ) : Type 0 where
  solid : is_space c ≡ false
  no_equals : (c == b'=') ≡ false
  no_hash : (c == b'#') ≡ false
  no_newline : (c == 10) ≡ false

key_char : (c : ℕ) → is_key_char c ≡ true → IsWordChar c
unfolding is_space
key_char c h = record {
  solid = ground arith;
  no_equals = ground arith;
  no_hash = ground arith;
  no_newline = ground arith;
}

word_head :
    (c : ℕ) (s : Text)
    → all is_key_char (c ∷ s) ≡ true
    → (is_key_char c ≡ true) × (all is_key_char s ≡ true)
word_head c s h = (and-eq-true_iff _ _).0 h

word_solid : (s : Text) → all is_key_char s ≡ true → any is_space s ≡ false
word_solid [] h = refl
word_solid (c ∷ s) h =
    let (here, later) = word_head c s h in rw ((key_char c here).solid, word_solid s later)

word-Lacks_equals : (s : Text) → all is_key_char s ≡ true → Lacks b'=' s
word-Lacks_equals [] h = refl
word-Lacks_equals (c ∷ s) h =
    let (here, later) = word_head c s h in
    rw ((key_char c here).no_equals, word-Lacks_equals s later)

word-Lacks_newline : (s : Text) → all is_key_char s ≡ true → Lacks 10 s
word-Lacks_newline [] h = refl
word-Lacks_newline (c ∷ s) h =
    let (here, later) = word_head c s h in
    rw ((key_char c here).no_newline, word-Lacks_newline s later)

env_key-word : (key : Text) → env_key key ≡ true → all is_key_char key ≡ true
unfolding env_key
env_key-word [] h = refl
env_key-word (c ∷ s) h =
    let (start, later) = (and-eq-true_iff (is_key_start c) (all is_key_char s)).0 h in
    rw (start, later)

trim-word : (s : Text) → all is_key_char s ≡ true → trim s ≡ s
unfolding trim trim_start
trim-word [] h = unfold trim_end in refl
trim-word (c ∷ s) h =
    rw (key_char c (word_head c s h).0).solid (trim_end-solid (c ∷ s) (word_solid (c ∷ s) h))

word_no_hash : (s : Text) → all is_key_char s ≡ true → starts_with b'#' s ≡ false
word_no_hash [] h = refl
word_no_hash (c ∷ s) h = (key_char c (word_head c s h).0).no_hash

-- A key of letters, digits and underscores can be written and read back.
pub word-IsStorable : (key : Text) → all is_key_char key ≡ true → IsStorable key
word-IsStorable key w = record {
  trimmed = trim-word key w;
  no_equals = word-Lacks_equals key w;
  no_newline = word-Lacks_newline key w;
  no_hash = word_no_hash key w;
}

-- A key that Save accepts can be written and read back.
pub env_key-IsStorable : (key : Text) → env_key key ≡ true → IsStorable key
env_key-IsStorable key h = word-IsStorable key (env_key-word key h)

abbrev pub AllValid : List EnvVar → Type 0
AllValid = All (λ v. env_key v.key ≡ true)

abbrev pub IsDistinct : List EnvVar → Type 0
IsDistinct [] = Unit
IsDistinct (v ∷ vs) = All (λ w. v.key ≢ w.key) vs × IsDistinct vs

abbrev Unseen : List Text → EnvVar → Type 0
Unseen seen v = any (text_eq v.key) seen ≡ false

key_problem-eq-nil_iff :
    (seen : List Text) (v : EnvVar)
    → (key_problem seen v.key ≡ []) ↔ ((env_key v.key ≡ true) × Unseen seen v)
unfolding key_problem
key_problem-eq-nil_iff seen v = ground arith

Unseen-cons :
    (seen : List Text) (k : Text) (v : EnvVar) → Unseen (k ∷ seen) v ↔ ((k ≢ v.key) × Unseen seen v)
Unseen-cons seen k v = ground (arith, text_eq_iff v.key k)

All-Unseen_cons :
    (seen : List Text) (k : Text) (vs : List EnvVar)
    → All (Unseen (k ∷ seen)) vs ↔ (All (λ w. k ≢ w.key) vs × All (Unseen seen) vs)
All-Unseen_cons seen k [] = (λ _. (tt, tt), λ _. tt)
All-Unseen_cons seen k (v ∷ vs) =
    let (here, there) = Unseen-cons seen k v in
    let (to, from) = All-Unseen_cons seen k vs in
    (
      λ h. (((here h.0).0, (to h.1).0), ((here h.0).1, (to h.1).1)),
      λ h. (there (h.0.0, h.1.0), from (h.0.1, h.1.1)),
    )

key_problems-eq-nil_iff :
    (seen : List Text) (vs : List EnvVar)
    → (key_problems seen vs ≡ []) ↔ (AllValid vs × All (Unseen seen) vs × IsDistinct vs)
unfolding key_problems
key_problems-eq-nil_iff seen [] = (λ _. (tt, tt, tt), λ _. refl)
key_problems-eq-nil_iff seen (v ∷ vs) =
    let (one, one_back) = key_problem-eq-nil_iff seen v in
    let (more, more_back) = key_problems-eq-nil_iff (v.key ∷ seen) vs in
    let (unseen, unseen_back) = All-Unseen_cons seen v.key vs in
    (
      λ h.
          let (p, q) = append-eq-nil_iff.0 h in
          let (valid, ok) = one p in
          let (valids, oks, distinct) = more q in
          let (apart, oks') = unseen oks in ((valid, valids), (ok, oks'), (apart, distinct)),
      λ h.
          append-eq-nil_iff.1
            (one_back (h.0.0, h.1.0), more_back (h.0.1, unseen_back (h.2.0, h.1.1), h.2.1)),
    )

All-Unseen_nil : (vs : List EnvVar) → All (Unseen []) vs
All-Unseen_nil [] = tt
All-Unseen_nil (v ∷ vs) = (refl, All-Unseen_nil vs)

-- Save finds nothing to refuse exactly when every line parses, every key matches the manager's
-- rule, and no key occurs twice.
pub save_problems-eq-nil_iff :
    (text : Text)
    → (save_problems text ≡ []) ↔ (
        (line_problems text ≡ [])
        × AllValid (from_dotenv text [])
        × IsDistinct (from_dotenv text []))
unfolding save_problems
save_problems-eq-nil_iff text =
    let vars = from_dotenv text [] in
    let (to, from) = key_problems-eq-nil_iff [] vars in
    (
      λ h.
          let (p, q) = append-eq-nil_iff.0 h in
          let (valid, _, distinct) = to q in (p, valid, distinct),
      λ h. append-eq-nil_iff.1 (h.0, from (h.1, All-Unseen_nil vars, h.2)),
    )

vars_of-restored :
    (previous : List EnvVar) (es : List Entry)
    → map (restored previous) (vars_of previous es) ≡ vars_of previous es
unfolding vars_of
vars_of-restored previous [] = refl
vars_of-restored previous (problem _ ∷ es) = vars_of-restored previous es
vars_of-restored previous (entry key raw ∷ es) = rw (vars_of-restored previous es)

pub from_dotenv-restored :
    (text : Text) (previous : List EnvVar)
    → map (restored previous) (from_dotenv text previous) ≡ from_dotenv text previous
unfolding from_dotenv
from_dotenv-restored text previous = vars_of-restored previous (entries text)

-- Whatever the text is, writing the variables that were read from it and reading them again gives
-- the same variables.
pub from_dotenv_stable :
    (text : Text) (previous : List EnvVar)
    → from_dotenv (to_dotenv (from_dotenv text previous)) previous ≡ from_dotenv text previous
from_dotenv_stable text previous =
    from_dotenv-to_dotenv (from_dotenv text previous) previous (read-AllStorable text previous)
    ∙ from_dotenv-restored text previous
