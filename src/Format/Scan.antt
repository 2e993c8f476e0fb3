-- ===== src/Format/Scan.antt =====
-- What the regular expressions of apps/web/src/lib/format.ts are matched with: steps that take a
-- part off the front of a text, and chains of them.
use vexdock.Base.{
  ℕ, Bool, true, false, ◌&&◌, ◌≡◌, refl, sym, ap, ==_iff, arith, Option, none, some, List, [], ◌∷◌,
  ◌++◌, leb, ◌==◌, if◌then◌else◌, Bool-cases, inl, inr, all,
}
use mathlib.Core.Path.{subst}
use vexdock.Text.{Text}

infixl 5 ◌>>=◌
abbrev pub ◌>>=◌ {ℓ κ} : {A : Type ℓ} {B : Type κ} → Option A → (A → Option B) → Option B
none >>= f = none
some a >>= f = f a

-- What has been taken, and the rest.
abbrev pub Taken : Type 0
Taken = Text × Text

abbrev pub is_digit : ℕ → Bool
is_digit c = leb b'0' c && leb c b'9'

-- One character.
abbrev pub eat : ℕ → Text → Option Text
eat c [] = none
eat c (x ∷ xs) = if x == c then some xs else none

abbrev pub cons_taken : ℕ → Taken → Taken
cons_taken c (taken, rest) = (c ∷ taken, rest)

-- `[class]*`, as many as there are.
unfoldable pub span : (ℕ → Bool) → Text → Taken
span p [] = ([], [])
span p (c ∷ cs) = let more = cons_taken c (span p cs) in if p c then more else ([], c ∷ cs)

-- `[class]+`, where what follows in the expression is not of the class.
abbrev pub filled : Taken → Option Taken
filled ([], rest) = none
filled (c ∷ taken, rest) = some (c ∷ taken, rest)

abbrev pub span_one : (ℕ → Bool) → Text → Option Taken
span_one p s = filled (span p s)

-- One character of each class in turn.
unfoldable pub each_of : List (ℕ → Bool) → Text → Option Taken
each_of [] s = some ([], s)
each_of (p ∷ ps) [] = none
each_of (p ∷ ps) (c ∷ cs) = if p c then (each_of ps cs >>= λ t. some (cons_taken c t)) else none

pub span-append : (p : ℕ → Bool) (s : Text) → (span p s).0 ++ (span p s).1 ≡ s
unfolding span
span-append p [] = refl
span-append p (c ∷ s) = elim (Bool-cases (p c)) [
  | inl e ↦ rw e (ap (λ r. c ∷ r) (span-append p s))
  | inr e ↦ rw e refl
]

abbrev pub Covers : Text → Option Taken → Type 0
Covers s none = Unit
Covers s (some (taken, rest)) = taken ++ rest ≡ s

Covers-cons :
    (c : ℕ) (s : Text) (t : Option Taken)
    → Covers s t
    → Covers (c ∷ s) (t >>= λ u. some (cons_taken c u))
Covers-cons c s none h = tt
Covers-cons c s (some (taken, rest)) h = ap (λ r. c ∷ r) h

pub Covers-each_of : (ps : List (ℕ → Bool)) (s : Text) → Covers s (each_of ps s)
unfolding each_of
Covers-each_of [] s = refl
Covers-each_of (p ∷ ps) [] = tt
Covers-each_of (p ∷ ps) (c ∷ s) = elim (Bool-cases (p c)) [
  | inl e ↦ rw e (Covers-cons c s (each_of ps s) (Covers-each_of ps s))
  | inr e ↦ rw e tt
]

Covers-filled : (s : Text) (t : Taken) → t.0 ++ t.1 ≡ s → Covers s (filled t)
Covers-filled s ([], rest) h = tt
Covers-filled s (c ∷ taken, rest) h = h

pub Covers-span_one : (p : ℕ → Bool) (s : Text) → Covers s (span_one p s)
Covers-span_one p s = Covers-filled s (span p s) (span-append p s)

pub Covers-some :
    (s : Text) (o : Option Taken) (taken rest : Text)
    → Covers s o
    → o ≡ some (taken, rest)
    → taken ++ rest ≡ s
Covers-some s o taken rest covers e = subst (Covers s) e covers

pub eat-eq-some : (c : ℕ) (s rest : Text) → eat c s ≡ some rest → c ∷ rest ≡ s
eat-eq-some c [] rest e = absurd (cc)
eat-eq-some c (x ∷ s) rest e = elim (Bool-cases (x == c)) [
  | inl same ↦ rw (sym ((==_iff x c).0 same)) (ground arith)
  | inr other ↦ absurd (ground arith)
]

-- A chain ends in `P` where its failures do, and its results after each first step.
pub bind-each {ℓ κ μ} :
    {A : Type ℓ} {B : Type κ} (P : Option B → Type μ) (o : Option A) (f : A → Option B)
    → P none
    → ((a : A) → o ≡ some a → P (f a))
    → P (o >>= f)
bind-each P none f fails goes = fails
bind-each P (some a) f fails goes = goes a refl

and_true : (a b : Bool) → (a && b) ≡ true → (a ≡ true) × (b ≡ true)
and_true true b h = (refl, h)
and_true false b h = absurd (cc)

-- What has been written for a class, and ends at a character outside it, is taken whole.
pub span-stops :
    (p : ℕ → Bool) (s rest : Text) (c : ℕ)
    → all p s ≡ true
    → p c ≡ false
    → span p (s ++ c ∷ rest) ≡ (s, c ∷ rest)
unfolding span
span-stops p [] rest c h stop = rw stop refl
span-stops p (x ∷ s) rest c h stop =
    rw (and_true (p x) (all p s) h).0
      (ap (cons_taken x) (span-stops p s rest c (and_true (p x) (all p s) h).1 stop))
