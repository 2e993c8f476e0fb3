-- ===== src/Crumbs/Race.antt =====
-- The last of several switches wins in apps/web/src/components/crumb-picker.tsx.
use vexdock.Base.{
  ◌+◌, ◌≤◌, ◌≡◌, inl, inr, refl, ◌∙◌, true, false, Option, none, some, List, [], ◌∷◌, ◌++◌, arith,
  ◌==◌, All, any, ==_iff, Bool-cases,
}
use vexdock.Text.{Text, text_eq_iff}
use vexdock.Api.Types.Projects.{Environment}
use vexdock.Api.Types.Services.{Service}
use vexdock.Crumbs.Picker.{or_none}
use vexdock.Crumbs.Switch.{
  Target, Lookup, Crumb, switch_from, twin_in, target_of, arrive, switches, Answer, arrivals,
}

-- The answer belongs to one of the lookups.
abbrev pub Answers : List Lookup → Answer → Type 0
Answers ls a = any (λ l. l.attempt == a.0.attempt) ls ≡ true

switches-latest :
    (environments : Option (List Environment)) (ids : List Text) (c : Crumb)
    → c.latest_switch ≤ (switches environments ids c).0.latest_switch
unfolding switches
switches-latest environments [] c = omega arith
switches-latest environments (id ∷ ids) c =
    omega (arith, switches-latest environments ids (switch_from id environments c).0)

switches-attempts :
    (environments : Option (List Environment)) (ids : List Text) (c : Crumb) (a : Answer)
    → Answers (switches environments ids c).1 a
    → a.0.attempt ≤ (switches environments ids c).0.latest_switch
unfolding switches
switches-attempts environments [] c a h = absurd (cc h)
switches-attempts environments (id ∷ ids) c a h =
    elim (Bool-cases (c.latest_switch + 1 == a.0.attempt)) [
      | inl here ↦ omega (
        arith,
        (==_iff (c.latest_switch + 1) a.0.attempt).0 here,
        switches-latest environments ids (switch_from id environments c).0,
      )
      | inr later ↦
          switches-attempts environments ids (switch_from id environments c).0 a (rw later at h)
    ]

-- An answer to an earlier switch changes nothing.
arrivals-old :
    (name : Option Text) (answers : List Answer) (c : Crumb)
    → All (λ a. (a.0.attempt == c.latest_switch) ≡ false) answers
    → arrivals name answers c ≡ (c, [])
unfolding arrivals arrive
arrivals-old name [] c h = refl
arrivals-old name ((l, services) ∷ answers) c h = rw h.0 (rw (arrivals-old name answers c h.1) refl)

arrivals-append_old :
    (name : Option Text) (early rest : List Answer) (c : Crumb)
    → All (λ a. (a.0.attempt == c.latest_switch) ≡ false) early
    → arrivals name (early ++ rest) c ≡ arrivals name rest c
unfolding arrivals arrive
arrivals-append_old name [] rest c h = refl
arrivals-append_old name ((l, services) ∷ early) rest c h =
    rw h.0 (rw (arrivals-append_old name early rest c h.1) refl)

arrivals-cons :
    (name : Option Text) (l : Lookup) (services : Option (List Service)) (late : List Answer)
    (c : Crumb) {c' : Crumb} {t : Target}
    → arrive name l services c ≡ (c', some t)
    → arrivals name late c' ≡ (c', [])
    → arrivals name ((l, services) ∷ late) c ≡ (c', t ∷ [])
unfolding arrivals
arrivals-cons name l services late c now later = rw now (rw later refl)

old_attempts :
    (environments : Option (List Environment)) (ids : List Text) (c : Crumb) (answers : List Answer)
    → All (Answers (switches environments ids c).1) answers
    → All (λ a. (a.0.attempt == (switches environments ids c).0.latest_switch + 1) ≡ false) answers
old_attempts environments ids c [] h = tt
old_attempts environments ids c (a ∷ answers) h = (
  ground (arith, switches-attempts environments ids c a h.0),
  old_attempts environments ids c answers h.1,
)

arrive-latest :
    (name : Option Text) (l : Lookup) (services : Option (List Service)) (c : Crumb)
    → l.attempt ≡ c.latest_switch
    → c.href ≡ l.from
    → arrive name l services c ≡ (
      record c { switching = none },
      some (target_of l.environment (twin_in name (or_none services))),
    )
unfolding arrive
arrive-latest name l services c latest here =
    rw ((==_iff l.attempt c.latest_switch).1 latest, (text_eq_iff c.href l.from).1 here) refl

-- However many environments are picked on a service page before the first of their services is read,
-- and in whatever order these are read, there is one navigation while the page stays: to the
-- environment picked last, and to the service of the same name there, or to the project page where it
-- has none or the read failed.
pub arrivals-last :
    (name : Option Text) (environments : Option (List Environment)) (ids : List Text) (id : Text)
    (c : Crumb) (early late : List Answer) (services : Option (List Service))
    → All (Answers (switches environments ids c).1) early
    → All (Answers (switches environments ids c).1) late
    → arrivals name
        (early
          ++ ((switch_from id environments (switches environments ids c).0).1, services) ∷ late)
        (switch_from id environments (switches environments ids c).0).0
      ≡ (
        record (switch_from id environments (switches environments ids c).0).0 { switching = none },
        target_of id (twin_in name (or_none services)) ∷ [],
      )
arrivals-last name environments ids id c early late services he hl =
    let c1 = (switches environments ids c).0 in
    let c2 = (switch_from id environments c1).0 in
    let l = (switch_from id environments c1).1 in
    arrivals-append_old name early ((l, services) ∷ late) c2
      (old_attempts environments ids c early he)
    ∙ arrivals-cons name l services late c2 (arrive-latest name l services c2 refl refl) (
        arrivals-old name late (record c2 { switching = none })
          (old_attempts environments ids c late hl))
