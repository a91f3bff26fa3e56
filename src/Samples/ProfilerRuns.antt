-- ===== src/Samples/ProfilerRuns.antt =====
-- Runs of repair/Profiler.cpp: test 0 fails, test 1 passes.
use f1x.Prelude.{ℕ, zero, suc, ◌≡◌, refl, [], ◌∷◌, Bool, true, false, ◌⊎◌}
use f1x.Core.{Location}
use f1x.Profiler.{
  Profiler, has_index, covers, merge_trace, get_profile, narrow, read_trace, add_related, add_index,
  at_locations, intersection,
}
use f1x.Profiler.Order.{AllInOrder, merge_trace-InOrder}
use f1x.Profiler.Coverage.{tests_at, merge_trace-related}
use f1x.Profiler.Profile.{HasTests, get_profile-merge_trace}
use f1x.Samples.{place}

abbrev elsewhere : Location
elsewhere = record place { begin_line = 8; end_line = 8 }

abbrev passes : ℕ → Bool
passes zero = false
passes (suc n) = true

-- Both locations, with a passing test.
abbrev profile : Profiler
profile = record {
  related_test_indexes = (place, 1 ∷ []) ∷ (elsewhere, 1 ∷ []) ∷ [];
  interesting_locations = place ∷ elsewhere ∷ [];
}

merge_trace-InOrder_example :
    AllInOrder passes (merge_trace 0 false (place ∷ []) profile).related_test_indexes
merge_trace-InOrder_example =
    merge_trace-InOrder passes 0 (place ∷ []) profile
      ((λ p. tt, refl, tt), ((λ p. tt, refl, tt), tt))

merge_trace-related_example :
    has_index 0 (tests_at place (merge_trace 0 false (place ∷ []) profile).related_test_indexes)
    ≡ true
merge_trace-related_example = merge_trace-related 0 false (place ∷ []) profile place refl

get_profile-merge_trace_example :
    ((covers (get_profile (merge_trace 0 false (place ∷ []) profile)).0 place ≡ true)
      × (covers (place ∷ []) place ≡ true)
      × HasTests 0 (place ∷ []) profile place (
          tests_at place
            (get_profile (merge_trace 0 false (place ∷ []) profile)).1.related_test_indexes))
    ⊎ ((covers (get_profile (merge_trace 0 false (place ∷ []) profile)).0 place ≡ false)
        × (tests_at place
              (get_profile (merge_trace 0 false (place ∷ []) profile)).1.related_test_indexes
            ≡ []))
get_profile-merge_trace_example = get_profile-merge_trace 0 (place ∷ []) profile place

-- The other location is dropped, and the failing test comes before the passing one.
profiled : get_profile (merge_trace 0 false (place ∷ []) profile) ≡ (
  place ∷ [],
  record { related_test_indexes = (place, 0 ∷ 1 ∷ []) ∷ []; interesting_locations = place ∷ [] },
)
unfolding get_profile merge_trace narrow read_trace add_related add_index at_locations intersection
profiled = refl
