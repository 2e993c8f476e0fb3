-- ===== src/Migrate/World.antt =====
-- The state of a run of scripts/migrate-dokploy.ts and its two requests, `dokploy` and `vexdock` (here `vexdock_api`).
-- A run keeps every request that it sent, the latest first; the servers answer by that history.
pub mod Keeps
pub mod Ends
pub mod Log
use vexdock.Base.{
  ℕ, ◌+◌, Bool, true, false, Option, none, some, List, [], ◌∷◌, ◌++◌, leb, ◌==◌, if◌then◌else◌,
  ◌&&◌,
}
use vexdock.Text.{Text, codes, decimal}
use vexdock.Migrate.Types.{
  VolumeCopy, DatabaseDump, Yaml, Fields, Body, Method, get, post, put, patch, delete, Call,
  to_dokploy, to_vexdock, Shape, Payload, Response, Answer, rejected, resolved,
}

-- What the script does not implement: the servers behind `fetch`, `process.env`, the YAML library,
-- and random bytes in hexadecimal.
pub record Host : Type 0 where
  pub answer : (s : Shape) → List Call → Call → Answer s
  pub env : Text → Option Text
  pub yaml_parse : Text → Option (List (Text × Fields))
  pub yaml_stringify : Fields → Text
  pub random_hex : ℕ → List Call → Text

-- A line for the closing list of what was skipped.
pub data Skipped : Type 0 where
  dropped_networks : Yaml → Skipped
  routed_path : Text → Text → Text → Skipped

pub record World : Type 0 where
  pub calls : List Call
  pub copies : List VolumeCopy
  pub dumps : List DatabaseDump
  pub skipped : List Skipped
  pub renamed_hosts : List (Text × Text)

abbrev pub initial : World
initial = record { calls = []; copies = []; dumps = []; skipped = []; renamed_hosts = [] }

-- `waiting` is a run that is still polling when its fuel ends.
pub data Result (A : Type 0) : Type 0 where
  ok : A → Result A
  error : Text → Result A
  waiting : Result A

abbrev pub M : Type 0 → Type 0
M A = World → Result A × World

unfoldable pub pure : {A : Type 0} → A → M A
pure a w = (ok a, w)

unfoldable pub throw : {A : Type 0} → Text → M A
throw message w = (error message, w)

abbrev pub continue : {A B : Type 0} → Result A → (A → M B) → M B
continue (ok a) f w = f a w
continue (error message) f w = (error message, w)
continue waiting f w = (waiting, w)

infixl 5 ◌>>=◌ ◌>>◌
unfoldable pub ◌>>=◌ : {A B : Type 0} → M A → (A → M B) → M B
◌>>=◌ m f w = let (r, w') = m w in continue r f w'

abbrev pub ◌>>◌ : {A B : Type 0} → M A → M B → M B
m >> n = m >>= λ _. n

-- A change of the script's own lists.
unfoldable pub modify : (World → World) → M (Unit {0})
modify f w = (ok tt, f w)

unfoldable pub gets : {A : Type 0} → (World → A) → M A
gets f w = (ok (f w), w)

-- `for (const a of list) …`
unfoldable pub each : {A : Type 0} → List A → (A → M (Unit {0})) → M (Unit {0})
each [] f = pure tt
each (a ∷ as') f = f a >> each as' f

-- `for (const a of list) found.push(await …)`
unfoldable pub collect : {A B : Type 0} → List A → (A → M B) → M (List B)
collect [] f = pure []
collect (a ∷ as') f = f a >>= λ b. collect as' f >>= λ bs. pure (b ∷ bs)

abbrev pub require : Bool → Text → M (Unit {0})
require true message = pure tt
require false message = throw message

-- A value that must be there.
abbrev pub expect : {A : Type 0} → Option A → Text → M A
expect none message = throw message
expect (some a) message = pure a

-- `res.ok`
abbrev pub is_ok : ℕ → Bool
is_ok status = leb 200 status && leb status 299

abbrev pub method_name : Method → Text
method_name get = codes "GET"
method_name post = codes "POST"
method_name put = codes "PUT"
method_name patch = codes "PATCH"
method_name delete = codes "DELETE"

module _ (h : Host) where
  -- Sends a request: it is in the history whatever the answer.
  unfoldable pub fetch : (s : Shape) → Call → M (Answer s)
  fetch s call w = (ok (h.answer s w.calls call), record w { calls = call ∷ w.calls })

  abbrev pub dokploy_result : {s : Shape} → Text → Answer s → M (Payload s)
  dokploy_result procedure (rejected message) = throw message
  dokploy_result procedure (resolved res) =
      if is_ok res.status
      then pure res.json
      else throw
          (codes "Dokploy " ++ procedure ++ codes ": " ++ decimal res.status ++ b' ' ∷ res.text)

  unfoldable pub dokploy : (s : Shape) → Method → Text → Body → M (Payload s)
  dokploy s method procedure input = do
    res ← fetch s (to_dokploy method procedure input)
    dokploy_result procedure res

  -- `none` is the `undefined` of a 204.
  abbrev pub vexdock_result : {s : Shape} → Method → Text → Answer s → M (Option (Payload s))
  vexdock_result method path (rejected message) = throw message
  vexdock_result method path (resolved res) =
      if is_ok res.status
      then if res.status == 204 then pure none else pure (some res.json)
      else throw (
          codes "vexdock "
          ++ method_name method
          ++ b' ' ∷ path
          ++ codes ": "
          ++ decimal res.status
          ++ b' ' ∷ res.text)

  unfoldable pub vexdock_api : (s : Shape) → Method → Text → Body → M (Option (Payload s))
  vexdock_api s method path body = do
    res ← fetch s (to_vexdock method path body)
    vexdock_result method path res

  -- The result is read, which throws if it is `undefined`.
  unfoldable pub vexdock_json : (s : Shape) → Method → Text → Body → M (Payload s)
  vexdock_json s method path body = do
    found ← vexdock_api s method path body
    expect found (codes "undefined is not an object")

  -- `env(key)`: unset and empty are one.
  abbrev pub env_value : Text → Option Text → M Text
  env_value key none = throw (key ++ codes " is not set")
  env_value key (some []) = throw (key ++ codes " is not set")
  env_value key (some (c ∷ cs)) = pure (c ∷ cs)

  unfoldable pub env : Text → M Text
  env key = env_value key (h.env key)
