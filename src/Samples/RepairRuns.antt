-- ===== src/Samples/RepairRuns.antt =====
-- Runs of repair/Repair.cpp: profiling and the output of diffs.
use f1x.Prelude.{
  ℕ, ◌+◌, ◌≡◌, refl, List, [], ◌∷◌, length, get_elem?, All, true, some, String, str_eq,
  if◌then◌else◌, ◌==◌,
}
use f1x.Core.{TestStatus, Patch}
use f1x.Core.Config.{Config}
use f1x.Profiler.Order.{AllInOrder}
use f1x.Project.{Project}
use f1x.Repair.Output.{output_all, output_each}
use f1x.Repair.FirstOnes.{HaveDistinctLocations, has_location, output_all-one_per_location}
use f1x.Repair.Profiling.{
  TracedTests, not_profiled, profile_tests, failing_from, profile_tests-verdicts,
}
use f1x.Samples.{place, patch_number, sample_config}
use f1x.Samples.ProjectRuns.{machine, two_files, start}

-- The first test passes, the second fails.
abbrev traced : TracedTests ℕ
traced = record {
  clear_trace = λ w. w;
  execute = λ w t. (if str_eq t "p1" then TestStatus.pass else TestStatus.fail, w + 1);
  read_trace = λ w. place ∷ [];
}

abbrev tests : List String
tests = "p1" ∷ "n1" ∷ []

profile_tests-verdicts_example :
    ((profile_tests traced 0 tests (not_profiled traced 0)).negative_tests
      ≡ failing_from traced (λ i. i == 0) 0 tests)
    × ((profile_tests traced 0 tests (not_profiled traced 0)).num_negative
        ≡ length (failing_from traced (λ i. i == 0) 0 tests))
    × ((profile_tests traced 0 tests (not_profiled traced 0)).num_positive
          + (profile_tests traced 0 tests (not_profiled traced 0)).num_negative
        ≡ length tests)
    × AllInOrder
        (λ i. i == 0)
        (profile_tests traced 0 tests (not_profiled traced 0)).profiler.related_test_indexes
profile_tests-verdicts_example =
    profile_tests-verdicts traced (λ i. i == 0) tests 0 ((λ w. refl), ((λ w. refl), tt))

failing_lem : failing_from traced (λ i. i == 0) 0 tests ≡ "n1" ∷ []
failing_lem = refl

abbrev one_each : Config
one_each = record sample_config { output_one_per_location = true }

abbrev project : Project
project = record { files = two_files; build_cmd = "make"; patch_template_dir = "/tmp/templates" }

abbrev found : List Patch
found = patch_number 1 ∷ patch_number 2 ∷ []

output_all-one_per_location_example :
    (os : List (ℕ × Patch)) × (output_all machine one_each project "out" 0 [] found start
      ≡ output_each machine one_each project "out" os start)
    × All (λ o. get_elem? found o.0 ≡ some o.1) os
    × HaveDistinctLocations os
    × All (λ p. has_location p.app.id os ≡ true) found
output_all-one_per_location_example =
    output_all-one_per_location machine one_each project "out" found start refl
