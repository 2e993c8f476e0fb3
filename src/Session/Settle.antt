-- ===== src/Session/Settle.antt =====
-- The redirects of AuthGate come to rest.
use vexdock.Base.{
  ℕ, zero, suc, ◌+◌, ◌≤◌, ◌≡◌, ◌≢◌, refl, ◌⊎◌, inl, inr, true, false, not, ◌&&◌, ◌||◌, Option, none,
  some, [], ◌∷◌, arith, length, Bool-cases, Option-cases,
}
use vexdock.Text.{Text}
use vexdock.Session.Gate.{
  Gate, Place, Router, Target, to_setup, to_login, to_href, home, login, setup, safe_next, is_at,
  is_open, or_home, came_from, redirect, is_hidden, land, settle,
}

-- Nothing is held back where no redirect is under way: AuthGate never shows an empty page for good.
pub redirect-is_hidden :
    (g : Gate) (p : Place) → g.resolved ≡ true → redirect g p ≡ none → is_hidden g p ≡ false
unfolding redirect is_hidden
redirect-is_hidden g p = ground arith

-- The length of the address that signing in would lead to.
abbrev pub next_length : Option Text → ℕ
next_length none = 0
next_length (some s) = suc (length s)

-- What the gate does next, and why.
pub data Next (g : Gate) (p : Place) : Type 0 where
  rests : redirect g p ≡ none → Next g p
  sets_up : redirect g p ≡ some to_setup → g.needs_setup ≡ true → Next g p
  logs_in :
      redirect g p ≡ some (to_login (came_from p))
      → g.needs_setup ≡ false
      → g.authenticated ≡ false
      → Next g p
  returns :
      redirect g p ≡ some (to_href (or_home (safe_next p.query_next)))
      → g.authenticated ≡ true
      → Next g p

pub redirect-Next : (g : Gate) (p : Place) → Next g p
unfolding redirect
redirect-Next g p = elim (Bool-cases g.resolved) [
  | inr pending ↦ rests (rw pending)
  | inl known_now ↦ elim (Bool-cases (g.needs_setup && not (is_at setup p))) [
    | inl new ↦ sets_up (rw (known_now, new)) (ground arith)
    | inr old ↦
        elim (Bool-cases
          (not g.needs_setup && not g.authenticated && not (is_open p) && not (is_at login p))) [
            | inl out ↦ logs_in (rw (known_now, old, out)) (ground arith) (ground arith)
            | inr known ↦ elim (Bool-cases (g.authenticated && (is_at login p || is_at setup p))) [
              | inl in_use ↦ returns (rw (known_now, old, known, in_use)) (ground arith)
              | inr free ↦ rests (rw (known_now, old, known, free))
            ]
          ]
  ]
]

safe_next-some : (o : Option Text) (s : Text) → safe_next o ≡ some s → o ≡ some s
unfolding safe_next
safe_next-some none s e = e
safe_next-some (some []) s e = ground arith
safe_next-some (some (c ∷ cs)) s e = ground arith

rest_at_setup :
    (g : Gate) (r : Router)
    → g.needs_setup ≡ true
    → g.authenticated ≡ false
    → redirect g (land r to_setup) ≡ none
unfolding redirect land
rest_at_setup g r new out = ground arith

rest_at_login :
    (g : Gate) (r : Router) (next : Option Text)
    → g.needs_setup ≡ false
    → g.authenticated ≡ false
    → redirect g (land r (to_login next)) ≡ none
unfolding redirect land
rest_at_login g r next old out = ground arith

rest_at_home :
    (g : Gate) (p : Place)
    → g.needs_setup ≡ false
    → p.pathname ≡ home
    → redirect g p ≡ none ⊎ (g.authenticated ≡ false)
unfolding redirect
rest_at_home g p old at = elim (Bool-cases g.authenticated) [
  | inr out ↦ inr out
  | inl known ↦ inl (rw (old, known, at) (ground arith))
]

settle-rest :
    (r : Router) (n : ℕ) (g : Gate) (p : Place)
    → redirect g p ≡ none
    → settle r (suc n) g p ≡ some p
unfolding settle
settle-rest r n g p e = rw e

settle-redirect :
    (r : Router) (n : ℕ) (g : Gate) (p : Place) (t : Target)
    → redirect g p ≡ some t
    → settle r (suc n) g p ≡ settle r n g (land r t)
unfolding settle
settle-redirect r n g p t e = rw e

-- The redirects end, at a place that the gate shows.
abbrev pub Rests : Gate → Option Place → Type 0
Rests g o = (q : Place) × (o ≡ some q) × (redirect g q ≡ none) × (is_hidden g q ≡ false)

-- The query of a location is shorter than its address.
abbrev pub IsShorter : Router → Type 0
IsShorter r = (s : Text) → next_length (r.locate s).query_next ≤ length s

shrinks :
    {o : Option Text} {s : Text} {n k : ℕ}
    → o ≡ some s
    → next_length o + 2 ≤ suc (suc n)
    → k ≤ length s
    → k + 2 ≤ suc n
shrinks e l m = ground arith

module _ (r : Router) (g : Gate) (at_home : (r.locate home).pathname ≡ home) (shorter : IsShorter r)
    (known : g.resolved ≡ true) (in_turn : (g.needs_setup && g.authenticated) ≡ false) where
  Rests-now : (n : ℕ) (p : Place) → redirect g p ≡ none → Rests g (settle r (suc n) g p)
  Rests-now n p e = (p, settle-rest r n g p e, e, redirect-is_hidden g p known e)

  Rests-home :
      (n : ℕ) (p : Place)
      → g.authenticated ≡ true
      → Rests g (settle r (suc n) g (land r (to_href home)))
  unfolding land
  Rests-home n p in_use = elim (rest_at_home g (r.locate home) (ground arith) at_home) [
    | inl e ↦ Rests-now n (r.locate home) e
    | inr out ↦ ground arith
  ]

  next_shrinks :
      (n : ℕ) (p : Place) (s : Text)
      → safe_next p.query_next ≡ some s
      → next_length p.query_next + 2 ≤ suc (suc n)
      → next_length (r.locate s).query_next + 2 ≤ suc n
  next_shrinks n p s found l = shrinks (safe_next-some p.query_next s found) l (shorter s)

  settle-Rests_within :
      (n : ℕ) (p : Place) → next_length p.query_next + 2 ≤ n → Rests g (settle r n g p)
  unfolding land
  settle-Rests_within zero p l = ground arith
  settle-Rests_within (suc zero) p l = ground arith
  settle-Rests_within (suc (suc n)) p l = elim (redirect-Next g p) [
    | rests e ↦ Rests-now (suc n) p e
    | sets_up e new ↦
        rw (settle-redirect r (suc n) g p to_setup e)
          (Rests-now n (land r to_setup) (rest_at_setup g r new (ground arith)))
    | logs_in e old out ↦
        rw (settle-redirect r (suc n) g p (to_login (came_from p)) e)
          (Rests-now n (land r (to_login (came_from p))) (rest_at_login g r (came_from p) old out))
    | returns e in_use ↦ elim (Option-cases (safe_next p.query_next)) [
      | inl blank ↦
          rw (settle-redirect r (suc n) g p (to_href (or_home (safe_next p.query_next))) e, blank)
            (Rests-home n p in_use)
      | inr (s, found) ↦
          rw (settle-redirect r (suc n) g p (to_href (or_home (safe_next p.query_next))) e, found)
            (settle-Rests_within (suc n) (r.locate s) (next_shrinks n p s found l))
    ]
  ]

  -- On any page, the redirects of the gate end after finitely many steps: at most two more than the
  -- length of the address that signing in leads to, and two where there is none. They end at a page
  -- that the gate shows. The first administrator exists once somebody is signed in; the router
  -- takes `/` to the home page and reads no query that is longer than the address.
  pub settle-Rests : (p : Place) → Rests g (settle r (next_length p.query_next + 2) g p)
  settle-Rests p = settle-Rests_within (next_length p.query_next + 2) p (omega arith)

loop_moves :
    (g : Gate) (p : Place)
    → g.resolved ≡ true
    → g.needs_setup ≡ true
    → g.authenticated ≡ true
    → redirect g p ≢ none
unfolding redirect
loop_moves g p known new in_use = elim (Bool-cases (is_at setup p)) [
  | inl at ↦ rw (known, new, in_use, at) (ground arith)
  | inr off ↦ rw (known, new, in_use, off) (ground arith)
]

-- While the status of the setup is old, so that it still asks for the first administrator although
-- the session is there, no page rests: `/setup` sends home, and every other page to `/setup`.
pub settle-loops :
    (r : Router) (n : ℕ) (g : Gate) (p : Place)
    → g.resolved ≡ true
    → g.needs_setup ≡ true
    → g.authenticated ≡ true
    → settle r n g p ≡ none
unfolding settle
settle-loops r zero g p known new in_use = refl
settle-loops r (suc n) g p known new in_use = elim (redirect-Next g p) [
  | rests e ↦ ground (arith, loop_moves g p)
  | sets_up e _ ↦ rw e (settle-loops r n g (land r to_setup) known new in_use)
  | logs_in e old _ ↦ ground arith
  | returns e _ ↦
      rw e
        (settle-loops r n g (land r (to_href (or_home (safe_next p.query_next)))) known new in_use)
]
