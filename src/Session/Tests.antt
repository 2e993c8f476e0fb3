-- ===== src/Session/Tests.antt =====
-- AuthGate, the login page and `request` on concrete pages and answers. The router of these
-- examples knows one query, `next`, and no escapes.
use vexdock.Base.{
  ◌+◌, ◌≤◌, ◌≡◌, refl, inl, inr, true, false, Option, none, some, [], ◌∷◌, ◌++◌, length, drop,
  arith, ◌==◌, if◌then◌else◌, Bool-cases,
}
use vexdock.Text.{Text, codes, has_prefix, before, join, text_eq}
use vexdock.Api.Call.{search_params}
use vexdock.Api.Request.{Window, Response, returned, read_json, request}
use vexdock.Api.Told.{IsTold, request-IsTold}
use vexdock.Session.Gate.{
  Gate, Place, Router, Target, redirect, land, on_success, settle, safe_next, preloads,
}
use vexdock.Session.Settle.{Rests, IsShorter, next_length, settle-Rests, settle-loops}
use vexdock.Session.Return.{on_success-redirect}
use vexdock.Session.Expired.{ReadsNext, request-on_success}

abbrev behind_question : Text → Option Text
behind_question [] = none
behind_question (c ∷ cs) = let rest = behind_question cs in if c == b'?' then some cs else rest

abbrev next_value : Option Text → Option Text
next_value none = none
next_value (some query) = if has_prefix (codes "next=") query then some (drop 5 query) else none

abbrev with_question : Option Text → Text
with_question none = []
with_question (some query) = b'?' ∷ query

abbrev next_query : Option Text → Text
next_query none = []
next_query (some next) = codes "?next=" ++ next

abbrev plain_router : Router
plain_router = record {
  locate = λ href. record {
    pathname = before b'?' href;
    search_str = with_question (behind_question href);
    query_next = next_value (behind_question href);
  };
  search_of = next_query;
}

length-drop_five : (s : Text) → length (drop 5 s) ≤ length s
length-drop_five [] = omega arith
length-drop_five (a ∷ []) = omega arith
length-drop_five (a ∷ b ∷ []) = omega arith
length-drop_five (a ∷ b ∷ c ∷ []) = omega arith
length-drop_five (a ∷ b ∷ c ∷ d ∷ []) = omega arith
length-drop_five (a ∷ b ∷ c ∷ d ∷ e ∷ s) = omega arith

plain_router-IsShorter : IsShorter plain_router
plain_router-IsShorter [] = omega arith
plain_router-IsShorter (c ∷ s) = elim (Bool-cases (c == b'?')) [
  | inl at ↦ elim (Bool-cases (has_prefix (codes "next=") s)) [
    | inl given ↦ rw (at, given) (omega (arith, length-drop_five s))
    | inr other ↦ rw (at, other) (omega arith)
  ]
  | inr off ↦ rw off (omega (arith, plain_router-IsShorter s))
]

abbrev signed_out : Gate
signed_out = record { resolved = true; needs_setup = false; authenticated = false }

abbrev signed_in : Gate
signed_in = record { resolved = true; needs_setup = false; authenticated = true }

abbrev stale : Gate
stale = record { resolved = true; needs_setup = true; authenticated = true }

abbrev consent : Place
consent = plain_router.locate (codes "/oauth?client=mcp")

-- A link to the login page that leads to the login page again.
abbrev nested : Place
nested = plain_router.locate (codes "/login?next=/login?next=/domains")

nested_settles :
    settle plain_router 4 signed_in nested ≡ some (plain_router.locate (codes "/domains"))
unfolding settle redirect land safe_next
nested_settles = refl

settle-Rests_example :
    Rests signed_in (settle plain_router (next_length nested.query_next + 2) signed_in nested)
settle-Rests_example =
    settle-Rests plain_router signed_in refl plain_router-IsShorter refl refl nested

settle-loops_example : settle plain_router 7 stale consent ≡ none
settle-loops_example = settle-loops plain_router 7 stale consent refl refl refl

-- A window whose server writes nothing but the text `null`.
abbrev window : Window Text Text
window = record {
  pathname = codes "/oauth";
  search = codes "?client=mcp";
  parse_json = λ s. if text_eq s (codes "null") then some s else none;
  title_of = λ s. [];
  error_of = λ j. none;
  encode_form = λ s. s;
}

abbrev expired : Response
expired = record { status = 401; status_text = codes "Unauthorized"; text = codes "null" }

plain_router-ReadsNext : ReadsNext plain_router window
unfolding search_params join
plain_router-ReadsNext = (refl, λ s own. refl)

expired-read : read_json window expired ≡ returned (some (codes "null"))
unfolding read_json
expired-read = refl

on_success-redirect_example :
    (t : Target) × (redirect signed_out consent ≡ some t)
    × (land plain_router (on_success (land plain_router t)) ≡ consent)
on_success-redirect_example =
    on_success-redirect plain_router signed_out consent refl refl refl refl refl (refl, refl, refl)
      (λ e. ground arith) refl

request-on_success_example :
    (address : Text) × ((request window expired).1 ≡ some address)
    × (land plain_router (on_success (plain_router.locate address)) ≡ consent)
request-on_success_example =
    request-on_success plain_router window consent plain_router-ReadsNext refl refl expired
      (some (codes "null")) refl expired-read refl (refl, refl, refl) (λ e. ground arith) refl

request-IsTold_example : IsTold window expired (request window expired).0
request-IsTold_example = request-IsTold window expired

preloads_test : (preloads (codes "/login") ≡ false) × (preloads (codes "/projects") ≡ true)
unfolding preloads
preloads_test = (refl, refl)
