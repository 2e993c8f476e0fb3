-- ===== src/Auth/Tests.antt =====
-- apps/auth/src on concrete requests and tables, and the theorems there.
use vexdock.Base.{
  ℕ, ◌≡◌, ◌⊎◌, inl, inr, refl, if◌then◌else◌, Option, none, some, List, [], ◌∷◌, String, Bool-cases,
  ap,
}
use vexdock.Text.{Text, codes, text_eq, text_eq_iff}
use vexdock.Auth.Server.{
  Request, health, setup_closed, setup_token_invalid, forwarded, token_accepted, sign_up, fetch,
  SignsUp,
}
use vexdock.Auth.Runs.{State, arrive, finish, Reach, start, next, Owned, Reach-Owned}
use vexdock.Auth.Issuer.{Table, backfill_account_issuer, backfill-idempotent}

auth_code : Unit {0}
unfolding token_accepted sign_up fetch backfill_account_issuer
auth_code = tt

-- Addresses that are paths, and texts in Latin.
abbrev path : Text → Option Text
path s = some s

abbrev latin : Text → List ℕ
latin s = s

abbrev token : Text
token = codes "s3tup"

abbrev sign_up_with : String → Request
sign_up_with given = record {
  url = codes "/api/auth/sign-up/email";
  setup_token = some (codes given);
}

abbrev first_sign_up : Request
first_sign_up = sign_up_with "s3tup"

guards :
    (fetch path latin token 0 first_sign_up ≡ forwarded)
    × (fetch path latin token 1 first_sign_up ≡ setup_closed)
    × (fetch path latin token 0 (sign_up_with "setup") ≡ setup_token_invalid)
    × (fetch path latin [] 0 (sign_up_with "") ≡ setup_token_invalid)
    × (fetch path latin token 2 (record { url = codes "/health"; setup_token = none }) ≡ health 2)
unfolding auth_code
guards = (refl, refl, refl, refl, refl)

abbrev nobody : ℕ
nobody = 0

abbrev created : Request → ℕ
created r = if text_eq r.url (codes "/api/auth/sign-up/email") then 1 else 0

created_only_sign_up : (r : Request) → (created r ≡ 0) ⊎ SignsUp path latin token r
created_only_sign_up r = elim (Bool-cases (text_eq r.url (codes "/api/auth/sign-up/email"))) [
  | inl e ↦ inr (ap some ((text_eq_iff r.url (codes "/api/auth/sign-up/email")).0 e))
  | inr e ↦ inl (rw e refl)
]

abbrev no_users : State
no_users = record { users = 0; waiting = [] }

abbrev owned : State
owned = record { users = 1; waiting = [] }

signed_up : Reach path latin token created no_users (first_sign_up ∷ []) owned
unfolding auth_code
signed_up = next (next start (arrive no_users first_sign_up refl)) (finish 0 [] [] first_sign_up)

Reach-Owned_example : Owned path latin token created no_users (first_sign_up ∷ []) owned
Reach-Owned_example =
    Reach-Owned path latin token created created_only_sign_up no_users owned (first_sign_up ∷ [])
      refl signed_up

abbrev old_table : Table
old_table = record {
  columns = codes "id" ∷ codes "providerId" ∷ [];
  rows = record { provider_id = codes "credential"; issuer = none } ∷ [];
}

backfill-idempotent_example :
    backfill_account_issuer (backfill_account_issuer old_table) ≡ backfill_account_issuer old_table
backfill-idempotent_example = backfill-idempotent old_table
