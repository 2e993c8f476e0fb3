-- ===== src/Session/Return.antt =====
-- Signing in leads back to the page that asked for it.
use vexdock.Base.{◌≡◌, inl, inr, true, false, some, [], ◌∷◌, ◌++◌, arith, Bool-cases}
use vexdock.Text.{Text, codes, has_prefix, text_eq, text_eq_iff}
use vexdock.Session.Gate.{
  Gate, Place, Router, Target, to_login, home, login, safe_next, is_at, is_open, or_home, came_from,
  redirect, land, on_success,
}

-- A text as `safeNext` reads it: it begins with one slash, and with no second one or backslash.
-- A browser drops tabs and newlines before it reads an address, which this does not look at.
abbrev pub IsOwnPath : Text → Type 0
IsOwnPath s =
    (has_prefix (codes "/") s ≡ true)
    × (has_prefix (codes "//") s ≡ false)
    × (has_prefix (codes "/\\") s ≡ false)

own-safe_next : (s : Text) → IsOwnPath s → safe_next (some s) ≡ some s
unfolding safe_next
own-safe_next [] h = ground arith
own-safe_next (c ∷ []) h = ground arith
own-safe_next (c ∷ d ∷ s) h = ground arith

pub own-append : (s t : Text) → IsOwnPath s → text_eq s home ≡ false → IsOwnPath (s ++ t)
own-append [] t own off = ground arith
own-append (c ∷ []) t own off = ground arith
own-append (c ∷ d ∷ s) t own off = own

pub safe_next-came_from : (p : Place) → IsOwnPath p.pathname → safe_next (came_from p) ≡ came_from p
unfolding safe_next
safe_next-came_from p own = elim (Bool-cases (is_at home p)) [
  | inl at ↦ rw at
  | inr off ↦
      rw (
        off,
        own-safe_next (p.pathname ++ p.search_str) (own-append p.pathname p.search_str own off),
      )
]

-- The home page has no search.
pub or_home-came_from :
    (p : Place)
    → (p.pathname ≡ home → p.search_str ≡ [])
    → or_home (came_from p) ≡ p.pathname ++ p.search_str
or_home-came_from p plain = elim (Bool-cases (is_at home p)) [
  | inl at ↦
      rw (at, ((text_eq_iff p.pathname home).0 at), plain ((text_eq_iff p.pathname home).0 at))
  | inr off ↦ rw off
]

asks_login :
    (g : Gate) (p : Place)
    → g.resolved ≡ true
    → g.needs_setup ≡ false
    → g.authenticated ≡ false
    → is_open p ≡ false
    → is_at login p ≡ false
    → redirect g p ≡ some (to_login (came_from p))
unfolding redirect
asks_login g p known old out closed off = rw (known, old, out, closed, off)

-- Signing in comes back: a visitor without a session, on a page of an own path that the router
-- reads back from its address, is sent to the login page, and the login page leads to that page.
-- The home page has no search.
pub on_success-redirect :
    (r : Router) (g : Gate) (p : Place)
    → g.resolved ≡ true
    → g.needs_setup ≡ false
    → g.authenticated ≡ false
    → is_open p ≡ false
    → is_at login p ≡ false
    → IsOwnPath p.pathname
    → (p.pathname ≡ home → p.search_str ≡ [])
    → r.locate (p.pathname ++ p.search_str) ≡ p
    → (t : Target) × (redirect g p ≡ some t) × (land r (on_success (land r t)) ≡ p)
unfolding land on_success
on_success-redirect r g p known old out closed off own plain back = (
  to_login (came_from p),
  asks_login g p known old out closed off,
  rw (safe_next-came_from p own, safe_next-came_from p own, or_home-came_from p plain) back,
)
