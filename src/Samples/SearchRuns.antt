-- ===== src/Samples/SearchRuns.antt =====
-- Runs of repair/SearchEngine.cpp and repair/Repair.cpp. A test passes on the patches with an even base
-- id above 0; the run of patch 1 also stands for patch 3.
use mathlib.Core.List.{Perm}
use f1x.Prelude.{
  ℕ, suc, ◌≡◌, ◌≢◌, ap, refl, List, [], ◌∷◌, Bool, true, false, ◌||◌, ◌==◌, if◌then◌else◌, some,
  String, arith, with_key,
}
use f1x.Core.{PatchId, Location, Patch, TestStatus}
use f1x.Core.Config.{Config}
use f1x.SearchEngine.{
  Outcome, member, is_pass, init, find_next, find_loop, test_loop, show_progress, reprioritize,
  record_run,
}
use f1x.SearchEngine.PlainSearch.{first_plausible}
use f1x.SearchEngine.Reference.{IsSound, plausible, find_next-first, init-IsSound}
use f1x.Repair.{Workshop, partitionable, plausible_patches, costs, prioritize}
use f1x.Repair.Plausible.{collected, plausible_patches-all, plausible_patches-one}
use f1x.Repair.Order.{cost_in, IsRanked, DistinctIds, prioritize-IsRanked}
use f1x.Samples.{sample_config, place, patch_number}

abbrev space : List Patch
space = patch_number 1 ∷ patch_number 3 ∷ patch_number 2 ∷ patch_number 4 ∷ []

abbrev verdict : PatchId → String → Bool
verdict id t = id.base == 2 || id.base == 4

abbrev test_name : ℕ → String
test_name i = "t"

abbrev related_tests : Location → List ℕ
related_tests l = 0 ∷ 1 ∷ []

abbrev location_of : PatchId → Location
location_of id = place

abbrev status_of : Bool → TestStatus
status_of true = TestStatus.pass
status_of false = TestStatus.fail

abbrev partition_of : PatchId → List PatchId
partition_of id = if id.base == 1 then (patch_number 3).id ∷ [] else []

-- The world counts the runs.
abbrev run : ℕ → Patch → List PatchId → String → Outcome × ℕ
run w p ids t = (
  record {
    status = status_of (verdict p.id t);
    time = 5;
    partition = partition_of p.id;
    coverage = [];
  },
  suc w,
)

is_pass-status_of : (b : Bool) → is_pass (status_of b) ≡ b
is_pass-status_of true = refl
is_pass-status_of false = refl

run-verdict :
    (w : ℕ) (p : Patch) (t : String)
    → is_pass (run w p (partitionable space p.app.id) t).0.status ≡ verdict p.id t
run-verdict w p t = is_pass-status_of (verdict p.id t)

run_partition :
    (w : ℕ) (p : Patch) (t : String) (q : PatchId)
    → member q (run w p (partitionable space p.app.id) t).0.partition ≡ true
    → (location_of q ≡ location_of p.id) × (verdict q t ≡ verdict p.id t)
run_partition w p t q h = (refl, ground (arith, h))

find_next-first_example :
    ((find_next sample_config test_name (partitionable space) run space 0 (init related_tests) 0).0
      ≡ first_plausible (plausible test_name verdict location_of related_tests) 0 space)
    × IsSound test_name verdict location_of related_tests
        (find_next sample_config test_name
          (partitionable space)
          run
          space
          0
          (init related_tests)
          0).1
find_next-first_example =
    find_next-first sample_config test_name (partitionable space) run verdict location_of
      related_tests run-verdict run_partition 0 space (init related_tests) 0
      (init-IsSound test_name verdict location_of related_tests) (refl, (refl, (refl, (refl, tt))))

-- The index of the first plausible patch
next_lem :
    (find_next sample_config test_name (partitionable space) run space 0 (init related_tests) 0).0
    ≡ 2
unfolding find_next find_loop init test_loop show_progress reprioritize record_run
next_lem = refl

abbrev shop : Workshop ℕ
shop = record {
  apply_patch = λ w p. w;
  build = λ w. w;
  execute = λ w t. (TestStatus.fail, suc w);
  restore_original_files = λ w. w;
  restore_instrumented_files = λ w. w;
  build_with_runtime = λ w. w;
}

plausible_patches-all_example :
    collected
      (plausible_patches shop sample_config ("t" ∷ []) test_name run space (init related_tests) 0)
    ≡ some (patch_number 2 ∷ patch_number 4 ∷ [])
plausible_patches-all_example =
    plausible_patches-all shop sample_config ("t" ∷ []) test_name run space verdict location_of
      related_tests run-verdict run_partition (refl, (refl, (refl, (refl, tt)))) 0 refl refl

-- One patch is asked for, and validation, which no patch passes here, is on.
abbrev single_config : Config
single_config = record sample_config { generate_all = false; validate_patches = true }

plausible_patches-one_example :
    collected
      (plausible_patches shop single_config ("t" ∷ []) test_name run space (init related_tests) 0)
    ≡ some (patch_number 2 ∷ [])
plausible_patches-one_example =
    plausible_patches-one shop single_config ("t" ∷ []) test_name run space verdict location_of
      related_tests run-verdict run_partition (refl, (refl, (refl, (refl, tt)))) 0 refl

other_id : (m n : ℕ) → m ≢ n → (patch_number m).id ≢ (patch_number n).id
other_id m n h e = h (ap (λ (id : PatchId). id.base) e)

space-DistinctIds : DistinctIds space
space-DistinctIds = (
  (other_id 1 3 (omega arith), (other_id 1 2 (omega arith), (other_id 1 4 (omega arith), tt))),
  (
    (other_id 3 2 (omega arith), (other_id 3 4 (omega arith), tt)),
    ((other_id 2 4 (omega arith), tt), (tt, tt)),
  ),
)

prioritize-IsRanked_example :
    Perm (prioritize space (costs space)) space
    × IsRanked (prioritize space (costs space))
    × ((n : ℕ)
        → with_key (cost_in space) n (prioritize space (costs space))
          ≡ with_key (cost_in space) n space)
prioritize-IsRanked_example = prioritize-IsRanked space space-DistinctIds
