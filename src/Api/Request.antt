-- ===== src/Api/Request.antt =====
-- `request`, `readJson` and `api.health` of apps/web/src/lib/api.ts. No caller passes a signal. A
-- `fetch` that the network fails throws its own error, which passes through.
use vexdock.Base.{
  ℕ, Bool, not, ◌&&◌, ◌||◌, Option, none, some, [], ◌∷◌, ◌++◌, leb, ◌==◌, if◌then◌else◌,
}
use mathlib.Core.Option.{map}
use vexdock.Text.{Text, codes, text_eq, trim, decimal}
use vexdock.Api.Call.{Call, Method, search_params}

-- What `fetch` is handed; credentials are always sent to the own origin.
pub record Init : Type 0 where
  pub path : Text
  pub method : Method
  pub content_type : Option Text
  pub body : Option Text

-- A `Response`, and its body's text.
pub record Response : Type 0 where
  pub status : ℕ
  pub status_text : Text
  pub text : Text

-- `response.ok`
abbrev pub is_ok : Response → Bool
is_ok r = leb 200 r.status && leb r.status 299

-- `error` of the manager's envelope, each field where it is given.
pub record Envelope (D : Type 0) : Type 0 where
  pub code : Option Text
  pub message : Option Text
  pub details : Option D

pub record ApiError (D : Type 0) : Type 0 where
  pub code : Text
  pub message : Text
  pub status : ℕ
  pub details : Option D

-- What a call ends with: a payload, `undefined`, or an error.
pub data Outcome (J D : Type 0) : Type 0 where
  returned : Option J → Outcome J D
  thrown : ApiError D → Outcome J D

-- The page: where it is, and the browser's parsers. `error_of` is `payload?.error`.
pub record Window (J D : Type 0) : Type 0 where
  pub pathname : Text
  pub search : Text
  pub parse_json : Text → Option J
  pub title_of : Text → Text
  pub error_of : J → Option (Envelope D)
  pub encode_form : Text → Text

abbrev or_else : Option Text → Text → Text
or_else none d = d
or_else (some s) d = s

-- `title || …`
abbrev or_filled : Text → Text → Text
or_filled [] d = d
or_filled (c ∷ cs) d = c ∷ cs

abbrev http_status : ℕ → Text
http_status status = codes "HTTP " ++ decimal status

abbrev content_type_of : {B : Type 0} → Option B → Option Text
content_type_of none = none
content_type_of (some _) = some (codes "application/json")

unfoldable pub init : {B : Type 0} → (B → Text) → Call B → Init
init stringify c = record {
  path = c.path;
  method = c.method;
  content_type = content_type_of c.body;
  body = map stringify c.body;
}

abbrev pub api_error : {D : Type 0} → Response → Option (Envelope D) → ApiError D
api_error r none = record {
  code = codes "UNKNOWN";
  message = r.status_text;
  status = r.status;
  details = none;
}
api_error r (some e) = record {
  code = or_else e.code (codes "UNKNOWN");
  message = or_else e.message r.status_text;
  status = r.status;
  details = e.details;
}

module _ {J D : Type 0} where
  -- Text that is no JSON: a proxy's page answers with its title.
  abbrev pub bad_response : Window J D → Response → ApiError D
  bad_response w r = record {
    code = codes "BAD_RESPONSE";
    message = or_filled (trim (w.title_of r.text)) (http_status r.status);
    status = r.status;
    details = none;
  }

  abbrev pub parsed : Window J D → Response → Option J → Outcome J D
  parsed w r none = thrown (bad_response w r)
  parsed w r (some j) = returned (some j)

  unfoldable pub read_json : Window J D → Response → Outcome J D
  read_json w r = if text_eq r.text [] then returned none else parsed w r (w.parse_json r.text)

  abbrev pub envelope_of : Window J D → Option J → Option (Envelope D)
  envelope_of w none = none
  envelope_of w (some j) = w.error_of j

  -- `window.location.replace(…)`
  abbrev pub login_address : Window J D → Text
  login_address w =
      if text_eq w.pathname (codes "/")
      then codes "/login"
      else codes "/login?"
        ++ search_params w.encode_form ((codes "next", w.pathname ++ w.search) ∷ [])

  abbrev pub sign_in_address : Window J D → Response → Option Text
  sign_in_address w r =
      if r.status == 401 && not (text_eq w.pathname (codes "/login"))
      then some (login_address w)
      else none

  -- The payload of an answer that is not 204: what `request` does with it, and where the page goes.
  abbrev answer : Window J D → Response → Outcome J D → Outcome J D × Option Text
  answer w r (thrown e) = (thrown e, none)
  answer w r (returned payload) =
      if is_ok r
      then (returned payload, none)
      else (thrown (api_error r (envelope_of w payload)), sign_in_address w r)

  unfoldable pub request : Window J D → Response → Outcome J D × Option Text
  request w r = if r.status == 204 then (returned none, none) else answer w r (read_json w r)

  -- An unhealthy platform answers 503 with its checks.
  abbrev checked : Response → Outcome J D → Outcome J D
  checked r (thrown e) = thrown e
  checked r (returned none) = thrown (record {
    code = codes "BAD_RESPONSE";
    message = http_status r.status;
    status = r.status;
    details = none;
  })
  checked r (returned (some j)) =
      if is_ok r || r.status == 503
      then returned (some j)
      else thrown (record {
        code = codes "BAD_RESPONSE";
        message = http_status r.status;
        status = r.status;
        details = none;
      })

  unfoldable pub health : Window J D → Response → Outcome J D
  health w r = checked r (read_json w r)
