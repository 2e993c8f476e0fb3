-- ===== src/Api/Call.antt =====
-- One call of apps/web/src/lib/api.ts: what a member of `api` hands to `request`, and how its query
-- strings are put together.
use vexdock.Base.{ℕ, Bool, true, false, ◌≡◌, Option, none, some, List, [], ◌∷◌, ◌++◌, map}
use vexdock.Text.{Text, codes, join, has_prefix}

-- A number as a JSON text writes it: its sign, its digits, and how many of them are decimals.
pub record Number : Type 0 where
  pub negative : Bool
  pub digits : ℕ
  pub decimals : ℕ

pub data Method : Type 0 where
  get post put patch delete : Method

-- `JSON.stringify` writes the body.
pub record Call (B : Type 0) : Type 0 where
  pub method : Method
  pub path : Text
  pub body : Option B

-- A call that sends nothing.
abbrev pub bare : {B : Type 0} → Method → Text → Call B
bare method path = record { method = method; path = path; body = none }

abbrev pub sends : {B : Type 0} → Method → Text → B → Call B
sends method path body = record { method = method; path = path; body = some body }

-- An answer that no caller reads, and no body.
abbrev pub Ignored : Type 0
Ignored = Unit {0}

abbrev pub flag_text : Bool → Text
flag_text true = codes "true"
flag_text false = codes "false"

-- `?environment=${environmentId}`, or nothing for the default environment.
abbrev pub environment_query : Option Text → Text
environment_query none = []
environment_query (some []) = []
environment_query (some (c ∷ cs)) = codes "?environment=" ++ c ∷ cs

-- `new URLSearchParams(…).toString()`; the keys need no encoding.
unfoldable pub search_params : (Text → Text) → List (Text × Text) → Text
search_params encode pairs = join b'&' (map (λ (key, value). key ++ b'=' ∷ encode value) pairs)

-- `if (value) query.set(key, value)`
abbrev pub set_filled : Text → Option Text → List (Text × Text)
set_filled key none = []
set_filled key (some []) = []
set_filled key (some (c ∷ cs)) = (key, c ∷ cs) ∷ []

-- `if (value !== undefined) query.set(key, value)`
abbrev pub set_given : Text → Option Text → List (Text × Text)
set_given key none = []
set_given key (some value) = (key, value) ∷ []

-- What `fetch` takes: no body on GET, and here none on DELETE; PUT and PATCH always carry theirs.
abbrev pub takes : {B : Type 0} → Method → Option B → Bool
takes get none = true
takes get (some _) = false
takes post _ = true
takes put none = false
takes put (some _) = true
takes patch none = false
takes patch (some _) = true
takes delete none = true
takes delete (some _) = false

-- A call whose path, as a text, begins with `/api/`, with the body that its method takes.
abbrev pub IsOwn : {B : Type 0} → Call B → Type 0
IsOwn c = (has_prefix (codes "/api/") c.path ≡ true) × (takes c.method c.body ≡ true)
