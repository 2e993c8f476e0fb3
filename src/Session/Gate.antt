-- ===== src/Session/Gate.antt =====
-- apps/web/src/components/auth-gate.tsx: the redirects of AuthGate, `safeNext`, and what is held
-- back; `onSuccess` of apps/web/src/routes/login.tsx; the first query of apps/web/src/router.tsx.
use vexdock.Base.{
  ℕ, zero, suc, Bool, false, not, ◌&&◌, ◌||◌, Option, none, some, [], ◌∷◌, ◌++◌, ◌==◌,
  if◌then◌else◌,
}
use vexdock.Text.{Text, codes, text_eq, has_prefix}

-- What the two queries of the gate have answered.
pub record Gate : Type 0 where
  pub resolved : Bool
  pub needs_setup : Bool
  pub authenticated : Bool

-- The router's location. `query_next` is `search.next`, where that is a string.
pub record Place : Type 0 where
  pub pathname : Text
  pub search_str : Text
  pub query_next : Option Text

-- The router: the location of an `href`, and the search string of `{ next }`.
pub record Router : Type 0 where
  pub locate : Text → Place
  pub search_of : Option Text → Text

abbrev pub home : Text
home = codes "/"

abbrev pub login : Text
login = codes "/login"

abbrev pub setup : Text
setup = codes "/setup"

-- `(?![/\\])`
abbrev leaves_origin : Text → Bool
leaves_origin [] = false
leaves_origin (c ∷ _) = c == b'/' || c == b'\\'

unfoldable pub safe_next : Option Text → Option Text
safe_next none = none
safe_next (some []) = none
safe_next (some (c ∷ cs)) = if c == b'/' && not (leaves_origin cs) then some (c ∷ cs) else none

abbrev pub is_at : Text → Place → Bool
is_at path p = text_eq p.pathname path

abbrev pub is_open : Place → Bool
is_open p = has_prefix (codes "/shared/") p.pathname

-- What `navigate` is called with.
pub data Target : Type 0 where
  to_setup : Target
  to_login : Option Text → Target
  to_href : Text → Target

-- `next ?? '/'`
abbrev pub or_home : Option Text → Text
or_home none = home
or_home (some href) = href

-- `pathname === '/' ? undefined : pathname + searchStr`
abbrev pub came_from : Place → Option Text
came_from p = if is_at home p then none else some (p.pathname ++ p.search_str)

-- The effect of AuthGate.
unfoldable pub redirect : Gate → Place → Option Target
redirect g p =
    if not g.resolved
    then none
    else if g.needs_setup && not (is_at setup p)
    then some to_setup
    else if not g.needs_setup && not g.authenticated && not (is_open p) && not (is_at login p)
    then some (to_login (came_from p))
    else if g.authenticated && (is_at login p || is_at setup p)
    then some (to_href (or_home (safe_next p.query_next)))
    else none

-- The route is held back: `target && target !== pathname`.
unfoldable pub is_hidden : Gate → Place → Bool
is_hidden g p =
    if g.needs_setup
    then not (is_at setup p)
    else if g.authenticated || is_open p
    then false
    else not (is_at login p)

-- Where `navigate` lands. The login page validates its `next`.
unfoldable pub land : Router → Target → Place
land r to_setup = record { pathname = setup; search_str = []; query_next = none }
land r (to_login next) = record {
  pathname = login;
  search_str = r.search_of next;
  query_next = safe_next next;
}
land r (to_href href) = r.locate href

-- The login page, once the account is accepted.
unfoldable pub on_success : Place → Target
on_success p = to_href (or_home (safe_next p.query_next))

-- The redirects one after the other, until one leads nowhere.
abbrev follow : Option Target → Place → (Target → Option Place) → Option Place
follow none p next = some p
follow (some t) p next = next t

unfoldable pub settle : Router → ℕ → Gate → Place → Option Place
settle r zero g p = none
settle r (suc fuel) g p = follow (redirect g p) p (λ t. settle r fuel g (land r t))

-- The first load asks for the projects.
unfoldable pub preloads : Text → Bool
preloads pathname =
    not (text_eq pathname login || text_eq pathname setup)
    && not (has_prefix (codes "/shared/") pathname)
