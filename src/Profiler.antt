-- ===== src/Profiler.antt =====
-- repair/Profiler.cpp: what the traces of the tests show, by location. A trace is the list of the
-- locations that its lines name; a missing file is an empty trace.
pub mod Order
pub mod Coverage
pub mod Build
pub mod Profile
use f1x.Prelude.{ℕ, List, [], ◌∷◌, ◌++◌, Bool, true, false, ◌||◌, ◌==◌, if◌then◌else◌}
use f1x.Core.{Location, location_eq}

-- The map from locations to the indexes of their tests, by its entries.
abbrev pub Related : Type 0
Related = List (Location × List ℕ)

-- The fields of `Profiler`; the interesting locations are a set.
pub record Profiler : Type 0 where
  pub related_test_indexes : Related
  pub interesting_locations : List Location

abbrev pub empty_profiler : Profiler
empty_profiler = record { related_test_indexes = []; interesting_locations = [] }

abbrev pub has_index : ℕ → List ℕ → Bool
has_index i [] = false
has_index i (j ∷ js) = i == j || has_index i js

abbrev pub covers : List Location → Location → Bool
covers [] loc = false
covers (l ∷ ls) loc = location_eq l loc || covers ls loc

-- A new index of a failing test comes first, one of a passing test last.
unfoldable pub add_index : ℕ → Bool → List ℕ → List ℕ
add_index i is_passing current =
    if has_index i current then current else if is_passing then current ++ i ∷ [] else i ∷ current

-- The index goes to the entry of the location, or to a new one.
unfoldable pub add_related : ℕ → Bool → Location → Related → Related
add_related i is_passing loc [] = (loc, add_index i is_passing []) ∷ []
add_related i is_passing loc ((l, current) ∷ rest) =
    let later = (l, current) ∷ add_related i is_passing loc rest in
    if location_eq l loc then (l, add_index i is_passing current) ∷ rest else later

-- The loop over the lines of the trace.
unfoldable pub read_trace : ℕ → Bool → List Location → Related → Related
read_trace i is_passing [] related = related
read_trace i is_passing (loc ∷ trace) related =
    read_trace i is_passing trace (add_related i is_passing loc related)

-- The entries at locations of a set.
unfoldable pub at_locations : List Location → Related → Related
at_locations kept [] = []
at_locations kept ((l, current) ∷ rest) =
    let others = at_locations kept rest in if covers kept l then (l, current) ∷ others else others

-- The locations of a set that are in another.
unfoldable pub intersection : List Location → List Location → List Location
intersection [] covered = []
intersection (l ∷ ls) covered =
    let others = intersection ls covered in if covers covered l then l ∷ others else others

-- Each location of a trace once.
unfoldable pub location_set : List Location → List Location
location_set [] = []
location_set (l ∷ ls) = let others = location_set ls in if covers ls l then others else l ∷ others

-- The locations and tests after a failing test: the first set of locations, or those of both.
unfoldable pub narrow : List Location → List Location → Related → Profiler
narrow covered [] related = record {
  related_test_indexes = related;
  interesting_locations = location_set covered;
}
narrow covered (l ∷ ls) related = record {
  related_test_indexes = at_locations covered related;
  interesting_locations = intersection (l ∷ ls) covered;
}

-- `mergeTrace`
unfoldable pub merge_trace : ℕ → Bool → List Location → Profiler → Profiler
merge_trace i is_passing trace s =
    let related = read_trace i is_passing trace s.related_test_indexes in
    if is_passing
    then record s { related_test_indexes = related }
    else narrow trace s.interesting_locations related

-- `getProfile`: the locations written, and the state; entries of other locations are dropped.
unfoldable pub get_profile : Profiler → List Location × Profiler
get_profile s = (
  s.interesting_locations,
  record s { related_test_indexes = at_locations s.interesting_locations s.related_test_indexes },
)
