-- ===== src/Session/Expired.antt =====
-- A session that the manager no longer knows: `request` of apps/web/src/lib/api.ts sends the page
-- to sign in, and the login page sends it back.
use vexdock.Base.{◌≡◌, false, Option, none, some, [], ◌∷◌, ◌++◌, Bool-cases, inl, inr}
use vexdock.Text.{Text, codes}
use vexdock.Api.Call.{search_params}
use vexdock.Api.Request.{Response, Window, returned, read_json, request, login_address}
use vexdock.Api.Told.{request-leaves}
use vexdock.Session.Gate.{Place, Router, home, login, is_at, came_from, land, on_success}
use vexdock.Session.Return.{IsOwnPath, own-append, safe_next-came_from, or_home-came_from}

-- The router reads a path back from the query that `URLSearchParams` writes, and finds no `next`
-- where there is none. TanStack's parser tries a value as JSON first: a number or `true` would not
-- come back as a text. No JSON begins with a slash, so that a path does.
abbrev pub ReadsNext : {J D : Type 0} → Router → Window J D → Type 0
ReadsNext r w =
    ((r.locate login).query_next ≡ none)
    × ((s : Text)
        → IsOwnPath s
        → (r.locate
            (codes "/login?" ++ search_params w.encode_form ((codes "next", s) ∷ []))).query_next
          ≡ some s)

module _ {J D : Type 0} (r : Router) (w : Window J D) (p : Place) (reads : ReadsNext r w)
    (at_path : w.pathname ≡ p.pathname) (at_search : w.search ≡ p.search_str) where
  login_address-next : IsOwnPath p.pathname → (r.locate (login_address w)).query_next ≡ came_from p
  login_address-next own = elim (Bool-cases (is_at home p)) [
    | inl at ↦ rw (at_path, at) (reads.0)
    | inr off ↦ rw (
      at_path,
      at_search,
      off,
      reads.1 (p.pathname ++ p.search_str) (own-append p.pathname p.search_str own off),
    )
  ]

  -- An expired session comes back: on a page of an own path that the router reads back from its
  -- address, an answer of status 401 whose text can be read takes the browser to the login page,
  -- and signing in there leads to the same page.
  pub request-on_success :
      (answer : Response) (o : Option J)
      → answer.status ≡ 401
      → read_json w answer ≡ returned o
      → is_at login p ≡ false
      → IsOwnPath p.pathname
      → (p.pathname ≡ home → p.search_str ≡ [])
      → r.locate (p.pathname ++ p.search_str) ≡ p
      → (address : Text) × ((request w answer).1 ≡ some address)
        × (land r (on_success (r.locate address)) ≡ p)
  unfolding land on_success
  request-on_success answer o expired read away own plain back = (
    login_address w,
    request-leaves w answer o expired (rw at_path away) read,
    rw (login_address-next own, safe_next-came_from p own, or_home-came_from p plain) back,
  )
