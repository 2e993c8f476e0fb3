-- ===== src/Api/Told.antt =====
-- What `request` and `health` of apps/web/src/lib/api.ts tell their callers, on every answer.
use vexdock.Base.{
  ◌≡◌, ◌⊎◌, refl, inl, inr, true, false, Option, none, some, [], arith, ◌==◌, Bool-cases,
  Option-cases,
}
use vexdock.Text.{codes, text_eq}
use vexdock.Api.Request.{
  Response, Window, Outcome, returned, thrown, is_ok, read_json, request, login_address, Envelope,
  api_error, envelope_of, bad_response,
}

api_error-status :
    {D : Type 0} (r : Response) (e : Option (Envelope D)) → (api_error r e).status ≡ r.status
api_error-status r none = refl
api_error-status r (some e) = refl

module _ {J D : Type 0} (w : Window J D) (r : Response) where
  data Read : Type 0 where
    holds : (o : Option J) → read_json w r ≡ returned o → Read
    fails : read_json w r ≡ thrown (bad_response w r) → w.parse_json r.text ≡ none → Read

  read_json-cases : Read
  unfolding read_json
  read_json-cases = elim (Bool-cases (text_eq r.text [])) [
    | inl blank ↦ holds none (rw blank)
    | inr filled ↦ elim (Option-cases (w.parse_json r.text)) [
      | inl e ↦ fails (rw (filled, e)) e
      | inr (j, e) ↦ holds (some j) (rw (filled, e))
    ]
  ]

  -- What the caller learns is what the server said: a value only of an answer that is ok, and an
  -- error with the answer's status where it is not, or where its text is no JSON.
  abbrev pub IsTold : Outcome J D → Type 0
  IsTold (returned _) = is_ok r ≡ true
  IsTold (thrown e) = (e.status ≡ r.status) × ((is_ok r ≡ false) ⊎ (w.parse_json r.text ≡ none))

  -- On every answer, `request` returns a value only where the answer is ok, and otherwise throws an
  -- error that carries the answer's status, for an answer that is not ok or whose text is no JSON.
  pub request-IsTold : IsTold (request w r).0
  unfolding request
  request-IsTold = elim (Bool-cases (r.status == 204)) [
    | inl blank ↦ rw blank (ground arith)
    | inr filled ↦ elim read_json-cases [
      | fails read e ↦ rw (filled, read) (refl, inr e)
      | holds o read ↦ elim (Bool-cases (is_ok r)) [
        | inl fine ↦ rw (filled, read, fine) fine
        | inr bad ↦ rw (filled, read, bad) (api_error-status r (envelope_of w o), inl bad)
      ]
    ]
  ]

  -- Where the text of an answer of status 401 can be read, the page leaves for the login page,
  -- except from the login page itself.
  pub request-leaves :
      (o : Option J)
      → r.status ≡ 401
      → text_eq w.pathname (codes "/login") ≡ false
      → read_json w r ≡ returned o
      → (request w r).1 ≡ some (login_address w)
  unfolding request
  request-leaves o expired away read = rw (read, expired, away)
