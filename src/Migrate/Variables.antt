-- ===== src/Migrate/Variables.antt =====
-- The .env text of a Dokploy service in scripts/migrate-dokploy.ts: `putVariables`, `dotenvValue`.
use vexdock.Base.{
  ℕ, zero, suc, Bool, true, not, ◌&&◌, ◌||◌, Option, none, some, List, [], ◌∷◌, ◌++◌, leb,
  if◌then◌else◌, map, take, drop, length,
}
use vexdock.Text.{
  Text, codes, text_eq, trim, starts_with, ends_with, slice_inner, index_of, split, replace_text,
}
use vexdock.Migrate.Types.{str, bool, array, put, ignored}
use vexdock.Migrate.World.{
  Host, Result, ok, error, waiting, M, pure, ◌>>=◌, ◌>>◌, gets, vexdock_api,
}

pub record Variable : Type 0 where
  pub key : Text
  pub value : Text

-- `/^(?<quote>['"`])(?<value>[\s\S]*)\k<quote>$/u`, on the quote `q`.
abbrev pub wrapped_in : ℕ → Text → Bool
wrapped_in q raw = leb 2 (length raw) && starts_with q raw && ends_with q raw

unfoldable pub unwrap : Text → Text
unwrap raw =
    if wrapped_in b'\'' raw || wrapped_in b'"' raw || wrapped_in 96 raw
    then slice_inner raw
    else raw

unfoldable pub dotenv_value : Text → Text
dotenv_value raw =
    if not (starts_with b'"' raw)
    then unwrap raw
    else replace_text (b'\\' ∷ b'r' ∷ []) (13 ∷ [])
        (replace_text (b'\\' ∷ b'n' ∷ []) (10 ∷ []) (unwrap raw))

-- A line that is not skipped, trimmed, by the place of its first `=`.
abbrev pub variable_at : Text → Option ℕ → Result Variable
variable_at trimmed none = error (codes "unparseable env line: " ++ take 40 trimmed)
variable_at trimmed (some zero) = error (codes "unparseable env line: " ++ take 40 trimmed)
variable_at trimmed (some (suc i)) =
    ok (record { key = take (suc i) trimmed; value = dotenv_value (drop (suc (suc i)) trimmed) })

abbrev pub cons_variable : Result Variable → Result (List Variable) → Result (List Variable)
cons_variable (ok v) (ok vs) = ok (v ∷ vs)
cons_variable (ok v) rest = rest
cons_variable (error message) rest = error message
cons_variable waiting rest = waiting

unfoldable pub read_variables : List Text → Result (List Variable)
read_variables [] = ok []
read_variables (line ∷ lines) =
    let trimmed = trim line in
    let rest = read_variables lines in
    if text_eq trimmed [] || starts_with b'#' trimmed
    then rest
    else cons_variable (variable_at trimmed (index_of b'=' trimmed)) rest

-- `for (const [from, to] of renamedHosts) text = text.replaceAll(from, to)`
unfoldable pub rename_hosts : List (Text × Text) → Text → Text
rename_hosts [] s = s
rename_hosts ((from, to) ∷ hosts) s = rename_hosts hosts (replace_text from to s)

-- `dotenv ?? ''`
abbrev pub or_empty : Option Text → Text
or_empty none = []
or_empty (some s) = s

abbrev pub lift : {A : Type 0} → Result A → M A
lift r w = (r, w)

-- With no variable nothing is sent.
abbrev pub send_variables : Host → Text → List Variable → M (Unit {0})
send_variables h path [] = pure tt
send_variables h path (v ∷ vs) = do
  vexdock_api h ignored put path (
      (
        codes "variables",
        array (
            map
              (λ x.
                (codes "key", str x.key)
                ∷ (codes "value", str x.value)
                ∷ (codes "is_secret", bool true)
                ∷ [])
              (v ∷ vs)),
      )
      ∷ [])
  pure tt

unfoldable pub put_variables : Host → Text → Option Text → M (Unit {0})
put_variables h path dotenv = do
  hosts ← gets (λ w. w.renamed_hosts)
  variables ← lift (read_variables (split 10 (rename_hosts hosts (or_empty dotenv))))
  send_variables h path variables
