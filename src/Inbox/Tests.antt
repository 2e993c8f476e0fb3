-- ===== src/Inbox/Tests.antt =====
-- Runs of apps/web/src/components/deployment-inbox.tsx.
use vexdock.Base.{
  ℕ, zero, suc, ◌≡◌, refl, ap, true, false, ◌&&◌, Option, none, some, List, [], ◌∷◌, arith, ◌==◌,
  if◌then◌else◌, All, map, length,
}
use vexdock.Text.{Text, codes, text_eq}
use vexdock.Text.{decimal}
use vexdock.Api.Types.Projects.{Deployment, DeploymentStatus, success, failed, cancelled}
use vexdock.Api.Types.System.{RecentDeployment}
use vexdock.Inbox.Store.{Json, Held, has, read_ids, write}
use vexdock.Inbox.Items.{Runtime, item_of, listing, Listing}
use vexdock.Inbox.Marked.{IsFaithful, write_all, write_all-marks}

-- A code for lists of texts: each character one higher, and a zero behind each text.
abbrev with_char : ℕ → Option (List Text) → Option (List Text)
with_char c (some (t ∷ ts)) = some ((c ∷ t) ∷ ts)
with_char c _ = none

abbrev with_text : Option (List Text) → Option (List Text)
with_text (some ts) = some ([] ∷ ts)
with_text none = none

abbrev decode : Text → Option (List Text)
decode [] = none
decode (zero ∷ s) = with_text (decode s)
decode (suc c ∷ s) =
    let rest = with_char c (decode s) in if c == 90 && text_eq s (codes "]") then some [] else rest

abbrev shifted : Text → Text → Text
shifted [] s = 0 ∷ s
shifted (c ∷ t) s = suc c ∷ shifted t s

abbrev encode : List Text → Text
encode [] = codes "[]"
encode (t ∷ ts) = shifted t (encode ts)

encode-ne-nil : (ts : List Text) (c : ℕ) → text_eq (encode ts) [] ≡ false
encode-ne-nil [] c = refl
encode-ne-nil ([] ∷ ts) c = refl
encode-ne-nil ((d ∷ t) ∷ ts) c = refl

shifted_no_end : (t : Text) (ts : List Text) → text_eq (shifted t (encode ts)) (codes "]") ≡ false
shifted_no_end [] ts = refl
shifted_no_end (c ∷ []) ts = ground arith
shifted_no_end (c ∷ d ∷ t) ts = ground arith

decode-shifted :
    (t : Text) (ts : List Text)
    → decode (encode ts) ≡ some ts
    → decode (shifted t (encode ts)) ≡ some (t ∷ ts)
decode-shifted [] ts h = rw h refl
decode-shifted (c ∷ t) ts h = ground (arith, shifted_no_end t ts, decode-shifted t ts h)

decode-encode : (ts : List Text) → decode (encode ts) ≡ some ts
decode-encode [] = refl
decode-encode (t ∷ ts) = decode-shifted t ts (decode-encode ts)

abbrev json : Json
json = record { parse = decode; stringify = encode }

json-IsFaithful : IsFaithful json
json-IsFaithful = record { read_back = decode-encode }

-- Three deployments; the last two are there to be marked.
abbrev first : Text
first = []

abbrev second : Text
second = 0 ∷ []

abbrev third : Text
third = 1 ∷ []

abbrev nothing_held : Held
nothing_held = record { ids = []; item = none }

none_held : read_ids json none ≡ []
unfolding read_ids
none_held = refl

write_all-marks_example :
    All
      (λ x.
        has x (read_ids json (write_all json (second ∷ third ∷ []) true nothing_held).item) ≡ true)
      (second ∷ third ∷ [])
    × ((x : Text)
        → has x (second ∷ third ∷ []) ≡ false
        → has x (read_ids json (write_all json (second ∷ third ∷ []) true nothing_held).item)
          ≡ has x (read_ids json none))
write_all-marks_example =
    write_all-marks json json-IsFaithful (second ∷ third ∷ []) true nothing_held
      (omega (arith, ap length none_held))

-- A value of another writer counts as none, and the next write replaces it.
foreign : (write json third true (record { ids = []; item = some (codes "?") })).ids ≡ third ∷ []
unfolding write read_ids
foreign = refl

abbrev deployment : Text → DeploymentStatus → Text → Deployment
deployment id status error = record {
  id = id;
  project_id = codes "p";
  environment_id = codes "e";
  number = record { negative = false; digits = 7; decimals = 0 };
  service_name = [];
  commit_sha = [];
  branch = [];
  status = status;
  trigger = codes "manual";
  created_by = [];
  error = error;
  started_at = [];
  finished_at = [];
  created_at = codes "t";
}

abbrev recent : Text → DeploymentStatus → Text → RecentDeployment
recent id status error = record {
  deployment = deployment id status error;
  project_name = codes "shop";
  environment_name = codes "main";
}

abbrev runtime : Runtime
runtime = record {
  number_text = λ n. decimal n.digits;
  parse = λ t. some 5000;
  now = 9000;
  to_iso = λ at. decimal at;
}

abbrev three_recent : List RecentDeployment
three_recent =
    recent first failed (codes "exit 1")
    ∷ recent second success []
    ∷ recent third cancelled (codes "cancelled")
    ∷ []

abbrev shown : Option Listing → List (Text × Text)
shown none = []
shown (some (items, newest)) = map (λ i. (i.title, i.description)) items

seen :
    shown (listing runtime (third ∷ []) (second ∷ []) three_recent)
    ≡ (codes "shop deploy #7 failed", codes "shop / main. exit 1")
      ∷ (codes "shop deploy #7 canceled", codes "shop / main")
      ∷ []
unfolding listing item_of decimal
seen = refl

abbrev two_items : Listing
two_items = (
  item_of runtime (third ∷ []) (recent first failed (codes "exit 1")) 5000
      ∷ item_of runtime (third ∷ []) (recent third cancelled (codes "cancelled")) 5000
      ∷ [],
  5000,
)
