-- ===== src/Auth/Guard.antt =====
-- When apps/auth/src/server.ts lets a sign-up through.
use vexdock.Base.{ℕ, ◌≡◌, ◌≢◌, ◌↔◌, refl, true, Option, List, [], arith}
use vexdock.Text.{Text, text_eq_iff}
use vexdock.Auth.Server.{Request, forwarded, or_nothing, token_accepted, sign_up, fetch, SignsUp}

module _ (pathname : Text → Option Text) (encode : Text → List ℕ) (setup_token : Text) where
  token_accepted_iff :
      (given : Text)
      → (token_accepted pathname encode setup_token given ≡ true)
        ↔ ((setup_token ≢ []) × (encode given ≡ encode setup_token))
  unfolding token_accepted
  token_accepted_iff given =
      ground (arith, text_eq_iff setup_token [], text_eq_iff (encode given) (encode setup_token))

  fetch-SignsUp :
      (users : ℕ) (request : Request)
      → SignsUp pathname encode setup_token request
      → fetch pathname encode setup_token users request
        ≡ sign_up pathname encode setup_token users request
  unfolding fetch
  fetch-SignsUp users request e = rw e refl

  sign_up-forwards_iff :
      (users : ℕ) (request : Request)
      → (sign_up pathname encode setup_token users request ≡ forwarded) ↔ (
          (users ≡ 0)
          × (token_accepted pathname encode setup_token (or_nothing request.setup_token) ≡ true))
  unfolding sign_up
  sign_up-forwards_iff users request = ground arith

  -- A request to sign up reaches better-auth exactly where there is no user yet, the server has a
  -- setup token, and the request's is the same, byte for byte.
  pub fetch-forwards_iff :
      (users : ℕ) (request : Request)
      → SignsUp pathname encode setup_token request
      → (fetch pathname encode setup_token users request ≡ forwarded) ↔ (
          (users ≡ 0)
          × (setup_token ≢ [])
          × (encode (or_nothing request.setup_token) ≡ encode setup_token))
  fetch-forwards_iff users request e = ground (
    arith,
    fetch-SignsUp users request e,
    sign_up-forwards_iff users request,
    token_accepted_iff (or_nothing request.setup_token),
  )
