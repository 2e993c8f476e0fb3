-- ===== src/Access.antt =====
-- apps/web/src/lib/access.ts: what a token or an OAuth grant may reach. A record of grants is the list
-- of its entries; `Intl.ListFormat` is a parameter.
pub mod Summary
mod Tests
use vexdock.Base.{
  Bool, true, false, not, ◌&&◌, ◌≡◌, ◌≢◌, ◌↔◌, refl, List, [], ◌∷◌, ◌++◌, if◌then◌else◌, map, arith,
}
use vexdock.Text.{Text, codes}

pub data Level : Type 0 where
  read write : Level

pub record Access : Type 0 where
  pub full : Bool
  pub grants : List (Text × Level)

pub record ProjectGrant : Type 0 where
  pub project_id : Text
  pub level : Level

unfoldable pub grant_list : Access → List ProjectGrant
grant_list access = map (λ (id, level). record { project_id = id; level = level }) access.grants

abbrev pub is_nil : List (Text × Level) → Bool
is_nil [] = true
is_nil (_ ∷ _) = false

unfoldable pub picks_nothing : Access → Bool
picks_nothing access = not access.full && is_nil access.grants

module _ (listed : List Text → Text) (project_name : Text → Text) where
  -- The names of the projects at a level, in order.
  abbrev pub writes : List (Text × Level) → List Text
  writes [] = []
  writes ((id, write) ∷ grants) = project_name id ∷ writes grants
  writes ((id, read) ∷ grants) = writes grants

  abbrev pub reads : List (Text × Level) → List Text
  reads [] = []
  reads ((id, write) ∷ grants) = reads grants
  reads ((id, read) ∷ grants) = project_name id ∷ reads grants

  -- What is pushed for a list that is not empty.
  abbrev pub reach : Text → List Text → List Text
  reach start [] = []
  reach start (n ∷ ns) = (start ++ listed (n ∷ ns)) ∷ []

  abbrev pub joined : List Text → Text
  joined [] = []
  joined (s ∷ []) = s
  joined (s ∷ t ∷ ts) = s ++ codes " and " ++ joined (t ∷ ts)

  abbrev pub sentence : Text → List Text → Text
  sentence client [] = []
  sentence client (r ∷ rs) =
      client
      ++ codes " will "
      ++ joined (r ∷ rs)
      ++ codes ". It cannot see other projects or the server."

  unfoldable pub access_summary : Text → Access → Text
  access_summary client access =
      if access.full
      then client
        ++ codes
            " will reach everything: every project, Docker, the server's settings and its tokens."
      else sentence client (
          reach (codes "deploy, exec and change variables in ") (writes access.grants)
          ++ reach (codes "read ") (reads access.grants))
