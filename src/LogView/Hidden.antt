-- ===== src/LogView/Hidden.antt =====
-- What LogViewer hides of a build by itself.
use vexdock.Base.{
  ℕ, suc, ◌+◌, ◌<◌, ◌≡◌, ◌≢◌, refl, sym, ap, ◌∙◌, inl, inr, Bool, true, false, not, ◌&&◌, Option,
  none, some, List, [], ◌∷◌, ◌==◌, ==_iff, any, All, get_elem?, arith, Bool-cases, Option-cases,
}
use mathlib.Core.Path.{subst}
use mathlib.Core.Option.{some-injective}
use vexdock.Text.{Text, text_eq, text_eq_iff}
use vexdock.Format.Build.{BuildLine, BuildResult, step, output, parse_build_result}
use vexdock.LogView.Buffer.{Line}
use vexdock.LogView.Steps.{Steps, no_steps, opened_at, meet, build_line, steps_from, build_steps}
use vexdock.LogView.View.{View, all_levels, shows, hides}

all_three : (a b c : Bool) → (a && not b && c) ≡ true → (a ≡ true) × (b ≡ false) × (c ≡ true)
all_three true false true h = (refl, refl, refl)
all_three true false false h = ground arith
all_three true true c h = ground arith
all_three false b c h = ground arith

true-ne-false : true ≢ false
true-ne-false e = absurd (cc)

module _ (clock : Text → Option Text) (lines : List Line) where
  -- The line at `from` opens the step `id`.
  abbrev pub Opens : ℕ → Text → Type 0
  Opens from id =
      (line : Line) × (stage : Text) × (command : Text) × (get_elem? lines from ≡ some line)
      × (build_line clock line ≡ some (step id stage command))

  -- The line at `at` closes a step that was opened above it, and does not say that it failed.
  abbrev pub IsCleanClose : ℕ → Type 0
  IsCleanClose at =
      (line : Line) × (id : Text) × (elapsed : Text) × (text : Text) × (r : BuildResult)
      × (from : ℕ) × (get_elem? lines at ≡ some line)
      × (build_line clock line ≡ some (output id elapsed text))
      × (parse_build_result text ≡ some r)
      × (r.failed ≡ false)
      × (from < at)
      × Opens from id

  abbrev OpensAbove : ℕ → Text × ℕ → Type 0
  OpensAbove at (id, from) = (from < at) × Opens from id

  abbrev IsSound : ℕ → Steps → Type 0
  IsSound at s = All (OpensAbove at) s.opened × All IsCleanClose s.closing

  still_above :
      (at : ℕ) (opened : List (Text × ℕ))
      → All (OpensAbove at) opened
      → All (OpensAbove (suc at)) opened
  still_above at [] h = tt
  still_above at ((id, from) ∷ rest) ((l, o), h) = ((omega (arith, l), o), still_above at rest h)

  opened_at-Opens :
      (at : ℕ) (id : Text) (opened : List (Text × ℕ)) (from : ℕ)
      → All (OpensAbove at) opened
      → opened_at id opened ≡ some from
      → OpensAbove at (id, from)
  unfolding opened_at
  opened_at-Opens at id [] from h e = ground arith
  opened_at-Opens at id ((key, j) ∷ rest) from (o, h) e = elim (Bool-cases (text_eq key id)) [
    | inl same ↦
        subst (λ k. OpensAbove at (k, from)) ((text_eq_iff key id).0 same)
          (subst (λ n. OpensAbove at (key, n)) (some-injective j from (rw same at e)) o)
    | inr other ↦ opened_at-Opens at id rest from h (rw other at e)
  ]

  meet-IsSound :
      (at : ℕ) (s : Steps) (line : Line) (b : Option BuildLine)
      → get_elem? lines at ≡ some line
      → build_line clock line ≡ b
      → IsSound at s
      → IsSound (suc at) (meet at s b)
  meet-IsSound at s line none here parsed (opened, closing) =
      (still_above at s.opened opened, closing)
  meet-IsSound at s line (some (step id stage command)) here parsed (opened, closing) = (
    ((omega arith, (line, stage, command, here, parsed)), still_above at s.opened opened),
    closing,
  )
  meet-IsSound at s line (some (output id elapsed text)) here parsed (opened, closing) =
      elim (Option-cases (opened_at id s.opened)) [
        | inl e ↦ rw e (still_above at s.opened opened, closing)
        | inr (from, e) ↦ elim (Option-cases (parse_build_result text)) [
          | inl f ↦ rw (e, f) (still_above at s.opened opened, closing)
          | inr (r, f) ↦ elim (Bool-cases r.failed) [
            | inl bad ↦ rw (e, f, bad) (still_above at s.opened opened, closing)
            | inr fine ↦
                (let (above, opens) = opened_at-Opens at id s.opened from opened e in
                  rw (e, f, fine)
                    (
                      still_above at s.opened opened,
                      (
                        (line, id, elapsed, text, r, from, here, parsed, f, fine, above, opens),
                        closing,
                      ),
                    ))
          ]
        ]
      ]

  steps_from-IsSound :
      (rest : List Line) (at : ℕ) (s : Steps)
      → ((k : ℕ) → get_elem? rest k ≡ get_elem? lines (at + k))
      → IsSound at s
      → All IsCleanClose (steps_from clock at rest s).closing
  unfolding steps_from
  steps_from-IsSound [] at s same sound = sound.1
  steps_from-IsSound (line ∷ rest) at s same sound =
      steps_from-IsSound rest (suc at) (meet at s (build_line clock line))
        (λ k. same (suc k) ∙ ap (get_elem? lines) (omega arith))
        (meet-IsSound at s line (build_line clock line)
          (ap (get_elem? lines) (omega arith) ∙ sym (same 0)) refl sound)

  build_steps-IsCleanClose : All IsCleanClose (build_steps clock lines).closing
  unfolding build_steps
  build_steps-IsCleanClose =
      steps_from-IsSound lines 0 no_steps (λ k. ap (get_elem? lines) (omega arith)) (tt, tt)

  any-All : (P : ℕ → Type 0) (l : List ℕ) (at : ℕ) → All P l → any (λ n. n == at) l ≡ true → P at
  any-All P [] at h e = ground arith
  any-All P (n ∷ l) at (p, h) e = elim (Bool-cases (n == at)) [
    | inl same ↦ subst P ((==_iff n at).0 same) p
    | inr other ↦ any-All P l at h (rw other at e)
  ]

  -- Where the reader filters nothing, every line of a log is shown, but for those of a build, not
  -- shown as plain text, that close a step which was opened above and did not fail: an error is
  -- never hidden.
  pub shows-IsCleanClose :
      (lower : Text → Text) (v : View) (at : ℕ) (line : Line)
      → lower v.filter ≡ []
      → v.level ≡ all_levels
      → shows clock lower v (build_steps clock lines) at line ≡ false
      → (v.build ≡ true) × (v.plain ≡ false) × IsCleanClose at
  shows-IsCleanClose lower v at line blank every e =
      elim (Bool-cases (hides v (build_steps clock lines) at)) [
        | inl hidden ↦
            (let (build, plain, closing) = all_three v.build v.plain _ hidden in
              (
                build,
                plain,
                any-All IsCleanClose (build_steps clock lines).closing at build_steps-IsCleanClose
                    closing,
              ))
        | inr shown ↦ absurd (true-ne-false (rw (shown, blank, every) at e))
      ]
