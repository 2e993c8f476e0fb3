-- ===== src/Format/Ansi/Laws.antt =====
-- What `ansiSegments` of apps/web/src/lib/format.ts shows of a line.
use vexdock.Base.{
  ℕ, zero, suc, ◌+◌, ◌-◌, ◌≤◌, ◌<◌, ◌≡◌, ◌⊎◌, inl, inr, refl, sym, ap, ◌∙◌, none, some, List, [],
  ◌∷◌, ◌++◌, arith, ltb, length, take, drop, append_assoc, append-nil, Option-cases, Bool-cases,
  length-append, take-append_length,
}
use vexdock.Text.{Text}
use vexdock.Format.Sgr.{Style}
use vexdock.Format.Ansi.{
  Segment, final_at, escape_at, matches, slice, run, segments_from, ansi_segments, strip_from,
  strip_ansi, style_after,
}

-- The texts of the segments, one behind the other.
abbrev pub shown : List Segment → Text
shown [] = []
shown (s ∷ ss) = s.text ++ shown ss

shown-append : (a b : List Segment) → shown (a ++ b) ≡ shown a ++ shown b
shown-append [] b = refl
shown-append (s ∷ a) b =
    ap (λ r. s.text ++ r) (shown-append a b) ∙ sym (append_assoc s.text (shown a) (shown b))

drop-beyond : (n : ℕ) (s : Text) → length s ≤ n → drop n s ≡ []
drop-beyond zero [] h = refl
drop-beyond zero (c ∷ s) h = absurd (omega (arith, h))
drop-beyond (suc n) [] h = refl
drop-beyond (suc n) (c ∷ s) h = drop-beyond n s (omega (arith, h))

drop-append : (n : ℕ) (s t : Text) → n ≤ length s → drop n (s ++ t) ≡ drop n s ++ t
drop-append zero s t h = refl
drop-append (suc n) [] t h = absurd (omega (arith, h))
drop-append (suc n) (c ∷ s) t h = drop-append n s t (omega (arith, h))

length-take : (n : ℕ) (s : Text) → n ≤ length s → length (take n s) ≡ n
length-take zero s h = refl
length-take (suc n) [] h = absurd (omega (arith, h))
length-take (suc n) (c ∷ s) h = ap suc (length-take n s (omega (arith, h)))

shown-run :
    (from : ℕ) (s : Text) (size : ℕ) (style : Style)
    → length s ≡ size
    → shown (run (ltb from size) (drop from s) style) ≡ drop from s
shown-run from s size style h = elim (Bool-cases (ltb from size)) [
  | inl less ↦ rw less (append-nil (drop from s))
  | inr more ↦ rw more (sym (drop-beyond from s (ground arith)))
]

final_at-bounds :
    (before : ℕ) (s : Text) (n : ℕ)
    → final_at before s ≡ some n
    → (before < n) × (n ≤ before + length s)
unfolding final_at
final_at-bounds before [] n h = absurd (cc)
final_at-bounds before (c ∷ s) n h = ground (arith, final_at-bounds (suc before) s n)

escape_at-bounds : (s : Text) (n : ℕ) → escape_at s ≡ some n → (0 < n) × (n ≤ length s)
unfolding escape_at
escape_at-bounds [] n h = absurd (cc)
escape_at-bounds (c ∷ []) n h = absurd (cc)
escape_at-bounds (c ∷ d ∷ s) n h = ground (arith, final_at-bounds 2 s n)

take-before :
    (text before s : Text) (index : ℕ)
    → text ≡ before ++ s
    → length before ≡ index
    → take index text ≡ before
take-before text before s index e l = rw (e, sym l) (take-append_length before s)

snoc-append : (before s : Text) (c : ℕ) → before ++ c ∷ s ≡ (before ++ c ∷ []) ++ s
snoc-append before s c = sym (append_assoc before (c ∷ []) s)

length-snoc : (before : Text) (c : ℕ) → length (before ++ c ∷ []) ≡ suc (length before)
length-snoc before c = omega (arith, length-append before (c ∷ []))

drop-passed :
    (last : ℕ) (before : Text) (c : ℕ) (t : Text)
    → length before < last
    → drop last (before ++ c ∷ []) ++ t ≡ drop last before ++ t
drop-passed last before c t h =
    ap (λ r. r ++ t)
      (drop-beyond last (before ++ c ∷ []) (omega (arith, length-snoc before c))
        ∙ sym (drop-beyond last before (omega arith)))

drop-plain :
    (last : ℕ) (before : Text) (c : ℕ) (t : Text)
    → last ≤ length before
    → drop last (before ++ c ∷ []) ++ t ≡ drop last before ++ c ∷ t
drop-plain last before c t h =
    ap (λ r. r ++ t) (drop-append last before (c ∷ []) h)
    ∙ append_assoc (drop last before) (c ∷ []) t

-- Where the loop stands: behind an escape, or inside the one that ends at `last`.
abbrev Stands : ℕ → ℕ → ℕ → Type 0
Stands index taken last = ((taken ≡ 0) × (last ≤ index)) ⊎ (last ≡ index + taken)

Stands-zero : (index last : ℕ) → Stands index 0 last → last ≤ index
Stands-zero index last (inl (_, h)) = h
Stands-zero index last (inr h) = omega arith

Stands-suc : (index taken last : ℕ) → Stands index (suc taken) last → last ≡ suc index + taken
Stands-suc index taken last (inl (e, _)) = absurd (omega arith)
Stands-suc index taken last (inr h) = omega arith

module _ (c : ℕ) (s : Text) where
  matches-none :
      (index : ℕ) → escape_at (c ∷ s) ≡ none → matches index 0 (c ∷ s) ≡ matches (suc index) 0 s
  unfolding matches
  matches-none index e = rw (e, matches)

  matches-some :
      (index n : ℕ)
      → escape_at (c ∷ s) ≡ some n
      → matches index 0 (c ∷ s) ≡ (index, take n (c ∷ s)) ∷ matches (suc index) (n - 1) s
  unfolding matches
  matches-some index n e = rw (e, matches)

  strip_from-none : escape_at (c ∷ s) ≡ none → strip_from 0 (c ∷ s) ≡ c ∷ strip_from 0 s
  unfolding strip_from
  strip_from-none e = rw (e, strip_from)

  strip_from-some :
      (n : ℕ) → escape_at (c ∷ s) ≡ some n → strip_from 0 (c ∷ s) ≡ strip_from (n - 1) s
  unfolding strip_from
  strip_from-some n e = ground arith

-- The loop of `ansiSegments`, where `before` has been passed.
shown-segments :
    (text before s : Text) (index taken last : ℕ) (style : Style)
    → text ≡ before ++ s
    → length before ≡ index
    → taken ≤ length s
    → Stands index taken last
    → shown (segments_from text last style (matches index taken s))
      ≡ drop last before ++ strip_from taken s
unfolding segments_from matches strip_from
shown-segments text before [] index taken last style e l fits place =
    shown-run last text (length text) style refl
    ∙ ap (drop last) (e ∙ append-nil before)
    ∙ sym (append-nil (drop last before))
shown-segments text before (c ∷ s) index (suc taken) last style e l fits place =
    let at = Stands-suc index taken last place in
    shown-segments text (before ++ c ∷ []) s (suc index) taken last style
      (e ∙ snoc-append before s c) (length-snoc before c ∙ ap suc l) (omega arith) (inr at)
    ∙ drop-passed last before c (strip_from taken s) (omega arith)
shown-segments text before (c ∷ s) index zero last style e l fits place =
    let at = Stands-zero index last place in
    elim (Option-cases (escape_at (c ∷ s))) [
      | inl none_here ↦
          rw (matches-none c s index none_here, strip_from-none c s none_here)
            (shown-segments text (before ++ c ∷ []) s (suc index) 0 last style
                (e ∙ snoc-append before s c) (length-snoc before c ∙ ap suc l) (omega arith)
                (inl (refl, omega arith))
              ∙ drop-plain last before c (strip_from 0 s) (omega arith))
      | inr (n, here) ↦
          let (some_of_it, fits_here) = escape_at-bounds (c ∷ s) n here in
          let next = index + length (take n (c ∷ s)) in
          let next_at : next ≡ suc index + (n - 1) =
            omega (arith, length-take n (c ∷ s) fits_here) in
          let style' = style_after style (take n (c ∷ s)) in
          rw (matches-some c s index n here, strip_from-some c s n here)
            (shown-append (run (ltb last index) (slice last index text) style)
                (segments_from text next style' (matches (suc index) (n - 1) s))
              ∙ ap
                  (λ r.
                    shown (run (ltb last index) (drop last r) style)
                    ++ shown (segments_from text next style' (matches (suc index) (n - 1) s)))
                  (take-before text before (c ∷ s) index e l)
              ∙ ap
                  (λ r. r ++ shown (segments_from text next style' (matches (suc index) (n - 1) s)))
                  (shown-run last before index style l)
              ∙ ap (λ r. drop last before ++ r)
                  (shown-segments text (before ++ c ∷ []) s (suc index) (n - 1) next style'
                      (e ∙ snoc-append before s c) (length-snoc before c ∙ ap suc l) (omega arith)
                      (inr next_at)
                    ∙ ap (λ r. r ++ strip_from (n - 1) s)
                        (drop-beyond next (before ++ c ∷ [])
                          (omega (arith, length-snoc before c)))))
    ]

-- The segments of a line, one behind the other, are the line without its escapes: nothing is lost,
-- added or moved by coloring it.
pub shown-ansi_segments : (text : Text) → shown (ansi_segments text) ≡ strip_ansi text
unfolding ansi_segments strip_ansi
shown-ansi_segments text =
    shown-segments text [] text 0 0 0 _ refl refl (omega arith) (inl (refl, omega arith))
