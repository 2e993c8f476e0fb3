-- ===== src/Format/LogLine/Parts.antt =====
-- How `parseLogLine` of apps/web/src/lib/format.ts takes a line apart.
use vexdock.Base.{
  ◌≡◌, refl, sym, ap, ◌∙◌, ◌⊎◌, inl, inr, Option, none, some, [], ◌∷◌, ◌++◌, Bool-cases, ◌==◌,
  ==_iff, append_assoc,
}
use vexdock.Text.{Text}
use vexdock.Format.Scan.{
  Taken, Covers, Covers-each_of, Covers-span_one, Covers-some, eat-eq-some, bind-each, eat, each_of,
  span_one,
}
use vexdock.Format.Ansi.{ansi_segments}
use vexdock.Format.Ansi.Laws.{shown, shown-ansi_segments}
use vexdock.Format.LogLine.{
  LogLine, date_classes, is_clock, stamp_at, skip_space, line_after, parse_log_line,
}

colored-after :
    (clock : Text → Option Text) (text : Text) (t : Option Taken)
    → shown (ansi_segments (line_after clock text t).colored_body) ≡ (line_after clock text t).body
colored-after clock text none = shown-ansi_segments text
colored-after clock text (some (at, rest)) = shown-ansi_segments (skip_space rest)

-- The three parts of a timestamp and the rest, put together again.
stamp-joined :
    (s date behind time end rest : Text)
    → date ++ behind ≡ s
    → time ++ end ≡ behind
    → b'Z' ∷ rest ≡ end
    → date ++ time ++ b'Z' ∷ [] ++ rest ≡ s
stamp-joined s date behind time end rest a b c =
    append_assoc (date ++ time) (b'Z' ∷ []) rest
    ∙ append_assoc date time (b'Z' ∷ rest)
    ∙ ap (λ r. date ++ (time ++ r)) c
    ∙ ap (λ r. date ++ r) b
    ∙ a

stamp_at-Covers : (s : Text) → Covers s (stamp_at s)
unfolding stamp_at
stamp_at-Covers s = bind-each (Covers s) (each_of date_classes s) _ tt λ (date, behind) a.
    bind-each (Covers s) (span_one is_clock behind) _ tt λ (time, end) b.
      bind-each (Covers s) (eat b'Z' end) _ tt λ rest c.
        stamp-joined s date behind time end rest
          (Covers-some s (each_of date_classes s) date behind (Covers-each_of date_classes s) a)
          (Covers-some behind (span_one is_clock behind) time end (Covers-span_one is_clock behind)
            b)
          (eat-eq-some b'Z' end rest c)

skip_space-gap :
    (rest : Text) → (gap : Text) × (gap ≡ [] ⊎ gap ≡ b' ' ∷ []) × (gap ++ skip_space rest ≡ rest)
skip_space-gap [] = ([], inl refl, refl)
skip_space-gap (c ∷ rest) = elim (Bool-cases (c == b' ')) [
  | inl space ↦ (b' ' ∷ [], inr refl, rw space (ap (λ x. x ∷ rest) (sym ((==_iff c b' ').0 space))))
  | inr solid ↦ ([], inl refl, rw solid refl)
]

-- How a line is split by its timestamp.
abbrev pub Parts : Text → LogLine → Type 0
Parts text line =
    ((line.timestamp ≡ none) × (line.colored_body ≡ text))
    ⊎ ((at gap : Text) × (line.timestamp ≡ some at)
        × (gap ≡ [] ⊎ gap ≡ b' ' ∷ [])
        × (at ++ gap ++ line.colored_body ≡ text))

Parts-line_after :
    (clock : Text → Option Text) (text : Text) (t : Option Taken)
    → Covers text t
    → Parts text (line_after clock text t)
Parts-line_after clock text none covers = inl (refl, refl)
Parts-line_after clock text (some (at, rest)) covers =
    let (gap, small, joined) = skip_space-gap rest in
    inr (
      at,
      gap,
      refl,
      small,
      append_assoc at gap (skip_space rest) ∙ ap (λ r. at ++ r) joined ∙ covers,
    )

-- The body and its colored form agree: the segments that are drawn, one behind the other, are the
-- body that is searched and copied, whatever escapes stand in the line.
pub colored-body :
    (clock : Text → Option Text) (text : Text)
    → shown (ansi_segments (parse_log_line clock text).colored_body)
      ≡ (parse_log_line clock text).body
unfolding parse_log_line
colored-body clock text = colored-after clock text (stamp_at text)

-- The timestamp is the line's beginning, of the form that the engine writes, and `gap`, at most one
-- space, is all that is lost between it and the colored body; without a timestamp the colored body
-- is the line.
pub parse_log_line-Parts :
    (clock : Text → Option Text) (text : Text) → Parts text (parse_log_line clock text)
unfolding parse_log_line
parse_log_line-Parts clock text = Parts-line_after clock text (stamp_at text) (stamp_at-Covers text)
