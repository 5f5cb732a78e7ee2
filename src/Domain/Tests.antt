-- ===== src/Domain/Tests.antt =====
-- The lookups on a small catalog and a few users.
use golf_rank.Base.{ℕ, ◌≡◌, refl, true, false, none, some, List, [], ◌∷◌}
use golf_rank.Domain.Course.{Catalog, get_course, require_course}
use golf_rank.Domain.Courses.{among, require_courses}
use golf_rank.Domain.Audience.{Edge, friend_ids, unique}
use golf_rank.Domain.Audience.Mutual.{among-friend_ids}
use golf_rank.Domain.Courses.Fetched.{UniqueSources, HasCanonicals, to_option}
use golf_rank.Domain.Courses.Agree.{require_courses_lem}

abbrev db : Catalog
db = record {
  courses =
      record { id = 1; source = "seed"; source_course_id = none }
      ∷ record { id = 2; source = "osm"; source_course_id = some "w7" }
      ∷ [];
  reconciliations =
      record {
        source = "osm";
        source_course_id = "w7";
        canonical_course_id = 1;
        is_confirmed = true;
      }
      ∷ [];
}

unique_sources : UniqueSources db.reconciliations
unique_sources = (tt, tt)

canonicals : HasCanonicals db.courses db.reconciliations
unfolding get_course
canonicals = (refl, tt)

require_courses_lem_example : require_courses db (2 ∷ 5 ∷ []) 2 ≡ to_option (require_course db 2)
require_courses_lem_example = require_courses_lem db (2 ∷ 5 ∷ []) unique_sources canonicals 2 refl

abbrev edge : ℕ → ℕ → Edge
edge source target = record { source = source; target = target }

abbrev follows : List Edge
follows = edge 1 2 ∷ edge 2 1 ∷ edge 1 3 ∷ edge 3 1 ∷ []

abbrev mutes : List Edge
mutes = edge 3 1 ∷ []

friends_of_1 : friend_ids follows [] mutes 1 ≡ 2 ∷ []
unfolding friend_ids unique
friends_of_1 = refl

among-friend_ids_example : among (friend_ids follows [] mutes 1) 3 ≡ false
among-friend_ids_example = among-friend_ids follows [] mutes 1 3
