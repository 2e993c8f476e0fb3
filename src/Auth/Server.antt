-- ===== src/Auth/Server.antt =====
-- apps/auth/src/server.ts: `fetch` and the guard of sign-up. `URL.parse` and `Buffer.from` are parameters; better-auth's handler is the
-- answer `forwarded`.
use vexdock.Base.{ℕ, Bool, false, not, ◌≡◌, Option, none, some, List, [], ltb, ◌==◌, if◌then◌else◌}
use vexdock.Text.{Text, codes, text_eq}

pub record Request : Type 0 where
  pub url : Text
  pub setup_token : Option Text

-- The responses of `fetch`; `forwarded` hands the request to better-auth.
pub data Response : Type 0 where
  bad_request : Response
  health : ℕ → Response
  platform_status : Bool → Response
  setup_closed : Response
  setup_token_invalid : Response
  forwarded : Response

-- `(PLATFORM_SETUP_TOKEN ?? '')`, and the same for the header.
abbrev pub or_nothing : Option Text → Text
or_nothing none = []
or_nothing (some s) = s

module _ (pathname : Text → Option Text) (encode : Text → List ℕ) (setup_token : Text) where
  -- The two byte lengths are compared first; `timingSafeEqual` compares the bytes.
  unfoldable pub token_accepted : Text → Bool
  token_accepted given =
      if text_eq setup_token [] then false else text_eq (encode given) (encode setup_token)

  abbrev pub is_sign_up : Text → Bool
  is_sign_up path = text_eq path (codes "/api/auth/sign-up/email")

  unfoldable pub sign_up : ℕ → Request → Response
  sign_up users request =
      if ltb 0 users
      then setup_closed
      else if not (token_accepted (or_nothing request.setup_token))
      then setup_token_invalid
      else forwarded

  abbrev pub respond : ℕ → Request → Option Text → Response
  respond users request none = bad_request
  respond users request (some path) =
      if text_eq path (codes "/health")
      then health users
      else if text_eq path (codes "/api/auth/platform-status")
      then platform_status (users == 0)
      else if is_sign_up path
      then sign_up users request
      else forwarded

  -- `fetch` at a moment when there are `users` users.
  unfoldable pub fetch : ℕ → Request → Response
  fetch users request = respond users request (pathname request.url)

  -- A request to sign up.
  abbrev pub SignsUp : Request → Type 0
  SignsUp request = pathname request.url ≡ some (codes "/api/auth/sign-up/email")
