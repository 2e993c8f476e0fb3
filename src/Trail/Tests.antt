-- ===== src/Trail/Tests.antt =====
-- apps/web/src/lib/breadcrumb.ts on concrete paths.
use vexdock.Base.{◌≡◌, ◌≢◌, sym, ◌∙◌, refl, true, false, List, [], ◌∷◌}
use vexdock.Text.{Text, codes, split, join}
use vexdock.Trail.{segments_of, parts_match, served_by, to_at, trail_from, trail_of}
use vexdock.Trail.Paths.{Leads, trail_of-Leads}

abbrev page : Text
page = codes "/docker//images/"

abbrev patterns : List Text
patterns = codes "/" ∷ codes "/docker/images" ∷ codes "/$kind" ∷ []

docker_trail :
    trail_of page patterns
    ≡ record { segment = codes "docker"; to = codes "/docker"; linkable = true }
      ∷ record { segment = codes "images"; to = codes "/docker/images"; linkable = false }
      ∷ []
unfolding split join segments_of parts_match served_by to_at trail_from trail_of
docker_trail = refl

page_segments : segments_of page ≡ codes "docker" ∷ codes "images" ∷ []
unfolding split segments_of
page_segments = refl

page_some : segments_of page ≢ []
page_some e = cc (sym page_segments ∙ e)

trail_of-Leads_example : Leads (segments_of page) 0 (segments_of page) (trail_of page patterns)
trail_of-Leads_example = trail_of-Leads page patterns page_some
