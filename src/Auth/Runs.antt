-- ===== src/Auth/Runs.antt =====
-- Overlapping requests to apps/auth/src/server.ts: the guard looks at the users when a request
-- arrives, and better-auth, which is asynchronous, may finish it after others have arrived.
use vexdock.Base.{ℕ, ◌+◌, ◌≡◌, ◌≢◌, ◌⊎◌, inl, inr, Option, List, [], ◌∷◌, ◌++◌, All, arith}
use vexdock.Text.{Text}
use vexdock.Auth.Server.{Request, forwarded, or_nothing, fetch, SignsUp}
use vexdock.Auth.Guard.{fetch-forwards_iff}

pub record State : Type 0 where
  pub users : ℕ
  pub waiting : List Request

-- `created` is how many users better-auth adds for a request: none, but for a sign-up.
module _ (pathname : Text → Option Text) (encode : Text → List ℕ) (setup_token : Text)
    (created : Request → ℕ) where
  -- A request is answered at once, or is handed on, or one that was handed on is finished. The list
  -- holds the request that a step finishes.
  pub data Step : State → List Request → State → Type 0 where
    answer :
        (s : State) (r : Request)
        → fetch pathname encode setup_token s.users r ≢ forwarded
        → Step s [] s
    arrive :
        (s : State) (r : Request)
        → fetch pathname encode setup_token s.users r ≡ forwarded
        → Step s [] (record s { waiting = r ∷ s.waiting })
    finish :
        (users : ℕ) (before after : List Request) (r : Request)
        → Step
            (record { users = users; waiting = before ++ r ∷ after })
            (r ∷ [])
            (record { users = users + created r; waiting = before ++ after })

  -- A run, with the requests that better-auth finished in it, the last one first.
  pub data Reach (first : State) : List Request → State → Type 0 where
    start : Reach first [] first
    next :
        {log done : List Request} {s t : State}
        → Reach first log s
        → Step s done t
        → Reach first (done ++ log) t

  -- A request that has the setup token.
  abbrev pub HasToken : Request → Type 0
  HasToken r = (setup_token ≢ []) × (encode (or_nothing r.setup_token) ≡ encode setup_token)

  -- What `first` allows a request that waits: if it signs up, then nobody had an account.
  abbrev Allowed : State → Request → Type 0
  Allowed first r = SignsUp pathname encode setup_token r → (first.users ≡ 0) × HasToken r

  -- A request that made no user, or signed up with the token on a panel that started without one.
  abbrev pub Claims : State → Request → Type 0
  Claims first r =
      (created r ≡ 0) ⊎ (SignsUp pathname encode setup_token r × (first.users ≡ 0) × HasToken r)

  -- The users that a list of finished requests made.
  abbrev pub all_created : List Request → ℕ
  all_created [] = 0
  all_created (r ∷ log) = created r + all_created log

  -- Each user there was not before is one that a request of the run made, and rightly.
  abbrev pub Owned : State → List Request → State → Type 0
  Owned first log s = (s.users ≡ first.users + all_created log) × All (Claims first) log

  record Safe (first : State) (log : List Request) (s : State) : Type 0 where
    waiting : All (Allowed first) s.waiting
    owned : Owned first log s

  arrive-Allowed :
      (first s : State) (log : List Request) (r : Request)
      → s.users ≡ first.users + all_created log
      → fetch pathname encode setup_token s.users r ≡ forwarded
      → Allowed first r
  arrive-Allowed first s log r counted e signs =
      let (none_yet, set, same) =
        (fetch-forwards_iff pathname encode setup_token s.users r signs).0 e in
      (omega arith, (set, same))

  All-middle :
      (P : Request → Type 0) (before after : List Request) (r : Request)
      → All P (before ++ r ∷ after)
      → P r × All P (before ++ after)
  All-middle P [] after r h = h
  All-middle P (b ∷ before) after r h =
      let (here, rest) = All-middle P before after r h.1 in (here, (h.0, rest))

  module _
      (only_sign_up : (r : Request) → (created r ≡ 0) ⊎ SignsUp pathname encode setup_token r) where
    Allowed-Claims : (first : State) (r : Request) → Allowed first r → Claims first r
    Allowed-Claims first r allowed = elim (only_sign_up r) [
      | inl idle ↦ inl idle
      | inr signs ↦ let (empty, token) = allowed signs in inr (signs, empty, token)
    ]

    Step-Safe :
        (first s t : State) (log done : List Request)
        → Safe first log s
        → Step s done t
        → Safe first (done ++ log) t
    Step-Safe first s t log done safe (answer _ r ne) = safe
    Step-Safe first s t log done safe (arrive _ r e) = record {
      waiting = (arrive-Allowed first s log r safe.owned.0 e, safe.waiting);
      owned = safe.owned;
    }
    Step-Safe first s t log done safe (finish users before after r) =
        let (allowed, rest) = All-middle (Allowed first) before after r safe.waiting in
        record {
          waiting = rest;
          owned = (omega (arith, safe.owned.0), (Allowed-Claims first r allowed, safe.owned.1));
        }

    Reach-Safe :
        (first s : State) (log : List Request)
        → first.waiting ≡ []
        → Reach first log s
        → Safe first log s
    Reach-Safe first s log idle start = record { waiting = rw idle tt; owned = (omega arith, tt) }
    Reach-Safe first s log idle (next {log = earlier} {done = done} {s = u} run step) =
        Step-Safe first u s earlier done (Reach-Safe first u earlier idle run) step

    -- However requests overlap, the users a panel gains are those that the requests finished in the
    -- run made, and each of these that made one signed up with the setup token, byte for byte, on a
    -- panel that started without a user: there is no new user where there is an administrator, or
    -- where no token is set. The run starts with no request waiting, and better-auth makes a user
    -- for a sign-up only.
    pub Reach-Owned :
        (first s : State) (log : List Request)
        → first.waiting ≡ []
        → Reach first log s
        → Owned first log s
    Reach-Owned first s log idle run = (Reach-Safe first s log idle run).owned
