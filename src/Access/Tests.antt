-- ===== src/Access/Tests.antt =====
-- apps/web/src/lib/access.ts on concrete grants.
use vexdock.Base.{◌≡◌, ◌↔◌, refl, true, false, List, [], ◌∷◌}
use vexdock.Text.{Text, codes}
use vexdock.Access.{read, write, Access, grant_list, picks_nothing, joined, access_summary}
use vexdock.Access.Summary.{access_summary-eq-nil_iff}

abbrev client : Text
client = codes "Bot"

abbrev commas : List Text → Text
commas names = joined (λ ns. []) (λ n. n) names

abbrev same_name : Text → Text
same_name id = id

abbrev picked : Access
picked = record { full = false; grants = (codes "a", read) ∷ (codes "b", write) ∷ [] }

both_levels :
    access_summary commas same_name client picked
    ≡ codes
        "Bot will deploy, exec and change variables in b and read a. It cannot see other projects or the server."
unfolding access_summary
both_levels = refl

grants_listed :
    grant_list picked
    ≡ record { project_id = codes "a"; level = read }
      ∷ record { project_id = codes "b"; level = write }
      ∷ []
unfolding grant_list
grants_listed = refl

access_summary-eq-nil_iff_example :
    (access_summary commas same_name client picked ≡ []) ↔ (picks_nothing picked ≡ true)
access_summary-eq-nil_iff_example = access_summary-eq-nil_iff commas same_name client picked
