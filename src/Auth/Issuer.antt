-- ===== src/Auth/Issuer.antt =====
-- `backfillAccountIssuer` of apps/auth/src/account-issuer.ts. The table is what its three statements
-- see and change: the columns, and of each row the provider and the issuer, `none` for NULL.
use vexdock.Base.{
  Bool, true, false, ◌≡◌, refl, sym, ap, ◌∙◌, Option, none, some, List, [], ◌∷◌, ◌++◌,
  if◌then◌else◌, map, any, Bool-cases, inl, inr, arith,
}
use vexdock.Text.{Text, codes, text_eq}

pub record Account : Type 0 where
  pub provider_id : Text
  pub issuer : Option Text

-- A table that is not there has no columns.
pub record Table : Type 0 where
  pub columns : List Text
  pub rows : List Account

abbrev pub has_column : Text → List Text → Bool
has_column name columns = any (λ c. text_eq c name) columns

abbrev pub no_issuer : Account → Account
no_issuer a = record a { issuer = none }

-- `ALTER TABLE account ADD COLUMN "issuer" text`
abbrev pub add_issuer : Table → Table
add_issuer t = record { columns = t.columns ++ codes "issuer" ∷ []; rows = map no_issuer t.rows }

-- `UPDATE account SET "issuer" = 'local:' || "providerId" WHERE "issuer" IS NULL`, on one row.
abbrev pub with_issuer : Account → Account
with_issuer a = elim a.issuer [
  | none ↦ record a { issuer = some (codes "local:" ++ a.provider_id) }
  | some _ ↦ a
]

abbrev pub update_issuer : Table → Table
update_issuer t = record t { rows = map with_issuer t.rows }

abbrev pub is_empty : List Text → Bool
is_empty [] = true
is_empty (_ ∷ _) = false

unfoldable pub backfill_account_issuer : Table → Table
backfill_account_issuer t =
    if is_empty t.columns
    then t
    else if has_column (codes "issuer") t.columns
    then t
    else update_issuer (add_issuer t)

-- The accounts of an old table, each with the issuer of its provider.
abbrev pub issued : Account → Account
issued a = record a { issuer = some (codes "local:" ++ a.provider_id) }

update-issued : (rows : List Account) → map with_issuer (map no_issuer rows) ≡ map issued rows
update-issued [] = refl
update-issued (a ∷ rows) = ap (λ r. issued a ∷ r) (update-issued rows)

has_column-last :
    (columns : List Text) → has_column (codes "issuer") (columns ++ codes "issuer" ∷ []) ≡ true
has_column-last [] = refl
has_column-last (c ∷ columns) = ground (arith, has_column-last columns)

-- An old table gets the column and, in every row, the issuer of the row's provider.
pub backfill-old :
    (t : Table)
    → is_empty t.columns ≡ false
    → has_column (codes "issuer") t.columns ≡ false
    → backfill_account_issuer t
      ≡ record { columns = t.columns ++ codes "issuer" ∷ []; rows = map issued t.rows }
unfolding backfill_account_issuer
backfill-old t there old =
    rw (there, old)
      (ap (λ r. record { columns = t.columns ++ codes "issuer" ∷ []; rows = r })
        (update-issued t.rows))

backfill-has_column :
    (t : Table) → has_column (codes "issuer") t.columns ≡ true → backfill_account_issuer t ≡ t
unfolding backfill_account_issuer
backfill-has_column t has = elim (Bool-cases (is_empty t.columns)) [
  | inl e ↦ rw e refl
  | inr there ↦ rw (there, has) refl
]

backfill-is_empty : (t : Table) → is_empty t.columns ≡ true → backfill_account_issuer t ≡ t
unfolding backfill_account_issuer
backfill-is_empty t e = rw e refl

-- Booting again changes nothing, whatever the table: no issuer that has been written is overwritten.
pub backfill-idempotent :
    (t : Table) → backfill_account_issuer (backfill_account_issuer t) ≡ backfill_account_issuer t
backfill-idempotent t = elim (Bool-cases (is_empty t.columns)) [
  | inl e ↦ ap backfill_account_issuer (backfill-is_empty t e)
  | inr there ↦ elim (Bool-cases (has_column (codes "issuer") t.columns)) [
    | inl has ↦ ap backfill_account_issuer (backfill-has_column t has)
    | inr old ↦
        let done = backfill-old t there old in
        ap backfill_account_issuer done
        ∙ backfill-has_column
            (record { columns = t.columns ++ codes "issuer" ∷ []; rows = map issued t.rows })
            (has_column-last t.columns)
        ∙ sym done
  ]
]
