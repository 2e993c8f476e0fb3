-- ===== src/LogView/Ideal.antt =====
-- The buffer of LogViewer against a console that keeps every line.
use vexdock.Base.{
  ℕ, suc, ◌*◌, ◌≡◌, refl, sym, ap, ◌∙◌, inl, inr, Bool, true, false, not, ◌||◌, List, [], ◌∷◌, ◌++◌,
  length, ltb, arith, if◌then◌else◌, Bool-cases,
}
use vexdock.LogView.Last.{last, last-short, length-last, last-append_last, last-last_append}
use vexdock.LogView.Buffer.{
  Line, Buffer, Run, numbered_line, bounded, flush, on_open, on_log, on_pause, on_clear, starts,
  opens, logs, flushes, pauses, clears,
}

-- What is on the screen and what is held back, without a limit.
pub record Console : Type 0 where
  pub shown : List Line
  pub held : List Line
  pub paused : Bool
  pub opening : Bool
  pub replacing : Bool
  pub count : ℕ

abbrev pub show : Console → Console
show m = record {
  shown = (if m.replacing then [] else m.shown) ++ m.held;
  held = [];
  paused = m.paused;
  opening = m.opening;
  replacing = false;
  count = m.count;
}

abbrev open_stream : Console → Console
open_stream m = record {
  shown = m.shown;
  held = m.held;
  paused = m.paused;
  opening = true;
  replacing = m.replacing;
  count = m.count;
}

-- The first line of a stream drops the lines that an older stream left to be shown.
abbrev hold : Line → Console → Console
hold l m = record {
  shown = m.shown;
  held = (if m.opening then [] else m.held) ++ numbered_line l (suc m.count) ∷ [];
  paused = m.paused;
  opening = false;
  replacing = m.opening || m.replacing;
  count = suc m.count;
}

abbrev toggle : Console → Console
toggle m =
    let now = if m.paused then show m else m in
    record {
      shown = now.shown;
      held = now.held;
      paused = not m.paused;
      opening = now.opening;
      replacing = now.replacing;
      count = now.count;
    }

abbrev wipe : Console → Console
wipe m = record {
  shown = [];
  held = m.held;
  paused = m.paused;
  opening = m.opening;
  replacing = m.replacing;
  count = m.count;
}

module _ (cap : ℕ) where
  -- The same events on a console that keeps every line.
  unfoldable pub ideal : (b : Buffer) → Run cap b → Console
  ideal _ starts = record {
    shown = [];
    held = [];
    paused = false;
    opening = false;
    replacing = false;
    count = 0;
  }
  ideal _ (opens b r) = open_stream (ideal b r)
  ideal _ (logs b l r) = hold l (ideal b r)
  ideal _ (flushes b _ r) = show (ideal b r)
  ideal _ (pauses b r) = toggle (ideal b r)
  ideal _ (clears b r) = wipe (ideal b r)

  last-both :
      (xs xs' ys ys' : List Line)
      → xs ≡ last cap xs'
      → last cap ys ≡ last cap ys'
      → last cap (xs ++ ys) ≡ last cap (xs' ++ ys')
  last-both xs xs' ys ys' e f =
      ap (λ zs. last cap (zs ++ ys)) e
      ∙ last-last_append cap xs' ys
      ∙ sym (last-append_last cap xs' ys)
      ∙ ap (λ zs. last cap (xs' ++ zs)) f
      ∙ last-append_last cap xs' ys'

  last-bounded : (xs : List Line) → last cap (bounded cap xs) ≡ last cap xs
  last-bounded xs = elim (Bool-cases (ltb (2 * cap) (length xs))) [
    | inl long ↦ rw long (last-short cap (last cap xs) (length-last cap xs))
    | inr short ↦ rw short refl
  ]

  last-more :
      (ys ys' zs : List Line)
      → last cap ys ≡ last cap ys'
      → last cap (ys ++ zs) ≡ last cap (ys' ++ zs)
  last-more ys ys' zs e =
      sym (last-last_append cap ys zs)
      ∙ ap (λ xs. last cap (xs ++ zs)) e
      ∙ last-last_append cap ys' zs

  replaced :
      (xs xs' ys ys' : List Line) (f f' : Bool)
      → f ≡ f'
      → xs ≡ last cap xs'
      → last cap ys ≡ last cap ys'
      → last cap ((if f then [] else xs) ++ ys) ≡ last cap ((if f' then [] else xs') ++ ys')
  replaced xs xs' ys ys' true f' e screen rest = rw (sym e) rest
  replaced xs xs' ys ys' false f' e screen rest = rw (sym e) (last-both xs xs' ys ys' screen rest)

  continued :
      (ys ys' : List Line) (f f' : Bool) (zs : List Line)
      → f ≡ f'
      → last cap ys ≡ last cap ys'
      → last cap ((if f then [] else ys) ++ zs) ≡ last cap ((if f' then [] else ys') ++ zs)
  continued ys ys' true f' zs e rest = rw (sym e) refl
  continued ys ys' false f' zs e rest = rw (sym e) (last-more ys ys' zs rest)

  -- What the buffer and the console agree on.
  abbrev Agree : Buffer → Console → Type 0
  Agree b m =
      (b.streamed ≡ last cap m.shown)
      × (last cap b.pending ≡ last cap m.held)
      × (b.paused ≡ m.paused)
      × (b.restart ≡ m.opening)
      × (b.fresh ≡ m.replacing)
      × (b.next_seq ≡ m.count)

  flush-Agree : (b : Buffer) (m : Console) → Agree b m → Agree (flush cap b) (show m)
  unfolding flush
  flush-Agree b m (screen, rest, paused, opening, replacing, count) = (
    replaced b.streamed m.shown b.pending m.held b.fresh m.replacing replacing screen rest,
    refl,
    paused,
    opening,
    refl,
    count,
  )

  on_log-Agree :
      (l : Line) (b : Buffer) (m : Console) → Agree b m → Agree (on_log cap l b) (hold l m)
  unfolding on_log
  on_log-Agree l b m (screen, rest, paused, opening, replacing, count) = (
    screen,
    (last-bounded _
        ∙ rw count (
            continued b.pending m.held b.restart m.opening (numbered_line l (suc m.count) ∷ [])
              opening rest)),
    paused,
    refl,
    rw (opening, replacing),
    ap suc count,
  )

  on_pause-Agree : (b : Buffer) (m : Console) → Agree b m → Agree (on_pause cap b) (toggle m)
  unfolding on_pause flush
  on_pause-Agree b m (screen, rest, paused, opening, replacing, count) =
      elim (Bool-cases b.paused) [
        | inl at ↦
            (let (screen', rest', _, opening', replacing', count') =
                flush-Agree b m (screen, rest, paused, opening, replacing, count) in
              rw (at, sym paused ∙ at) (screen', rest', refl, opening', replacing', count'))
        | inr off ↦ rw (off, sym paused ∙ off) (screen, rest, refl, opening, replacing, count)
      ]

  Run-Agree : (b : Buffer) (r : Run cap b) → Agree b (ideal b r)
  unfolding ideal on_open on_clear
  Run-Agree _ starts = (sym (last-short cap [] (omega arith)), refl, refl, refl, refl, refl)
  Run-Agree _ (opens b r) =
      let (screen, rest, paused, opening, replacing, count) = Run-Agree b r in
      (screen, rest, paused, refl, replacing, count)
  Run-Agree _ (logs b l r) = on_log-Agree l b (ideal b r) (Run-Agree b r)
  Run-Agree _ (flushes b _ r) = flush-Agree b (ideal b r) (Run-Agree b r)
  Run-Agree _ (pauses b r) = on_pause-Agree b (ideal b r) (Run-Agree b r)
  Run-Agree _ (clears b r) =
      let (screen, rest, paused, opening, replacing, count) = Run-Agree b r in
      (sym (last-short cap [] (omega arith)), rest, paused, opening, replacing, count)

  -- The bound is not seen: whatever is opened, logged, flushed, paused and cleared, in any order,
  -- the screen shows exactly the last `cap` lines of what a console that keeps every line shows,
  -- and so it does after a flush at that moment, although the buffer drops lines that wait too.
  pub Run-ideal :
      (b : Buffer) (r : Run cap b)
      → (b.streamed ≡ last cap (ideal b r).shown)
        × ((flush cap b).streamed ≡ last cap (show (ideal b r)).shown)
  Run-ideal b r = ((Run-Agree b r).0, (flush-Agree b (ideal b r) (Run-Agree b r)).0)
