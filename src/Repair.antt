-- ===== src/Repair.antt =====
-- repair/Repair.cpp: the order of the search space, what a patch may share a run with, and the loop
-- that collects plausible patches. What the project and the testing framework do is a parameter.
pub mod Remaining
pub mod Plausible
pub mod Order
pub mod Inference
pub mod Output
pub mod FirstOnes
pub mod Profiling
pub mod Stages
use f1x.Prelude.{
  Result, ok, ◌>>=◌, ℕ, zero, suc, ◌+◌, List, [], ◌∷◌, ◌++◌, length, get_elem?, drop, Bool, true,
  false, ◌&&◌, ◌||◌, not, Option, none, some, String, if◌then◌else◌, leb, ◌==◌, stable_sort, by_key,
}
use f1x.Core.{LocationContext, SchemaApplication, PatchId, patch_id_eq, Patch, TestStatus}
use f1x.Core.Config.{Config}
use f1x.Core.Expressions.{ExprType}
use f1x.Typing.{correct_types}
use f1x.Loading.{Json, load_schema_applications}
use f1x.Generator.SearchSpace.{Generated, generate_search_space}
use f1x.SearchEngine.{Engine, Outcome, member, is_pass, find_next}
use f1x.Prioritization.{syntactic_diff, no_cost}

abbrev pub expected_type : LocationContext → ExprType
expected_type LocationContext.condition = ExprType.boolean
expected_type LocationContext.unknown = ExprType.any

-- The types of the original expressions are inferred, by the context of the location.
unfoldable pub infer_types : List SchemaApplication → Result (List SchemaApplication)
infer_types [] = ok []
infer_types (sa ∷ sas) = do
  original ← correct_types sa.original (expected_type sa.context)
  rest ← infer_types sas
  ok (record sa { original = original } ∷ rest)

-- From the documents with the schema applications to the search space
unfoldable pub load_search_space :
    {J : Type 0} → Json J → Config → ℕ → ℕ → List J → Result Generated
load_search_space json cfg euid fuel ds = do
  sas ← load_schema_applications json fuel ds
  typed ← infer_types sas
  generate_search_space cfg euid typed

-- The map from patches to costs: a later patch replaces an earlier one of the same id, and a missing
-- entry costs 0.
abbrev pub record_costs : (PatchId → ℕ) → List Patch → PatchId → ℕ
record_costs cost [] = cost
record_costs cost (p ∷ ps) =
    record_costs (λ id. if patch_id_eq p.id id then syntactic_diff p else cost id) ps

abbrev pub costs : List Patch → PatchId → ℕ
costs = record_costs (λ id. no_cost)

-- `prioritize`
abbrev pub prioritize : List Patch → (PatchId → ℕ) → List Patch
prioritize search_space cost = stable_sort (by_key (λ p. cost p.id)) search_space

-- `getPartitionable`, as a function of the location's id; a set is a list without repetitions.
abbrev pub partitionable : List Patch → ℕ → List PatchId
partitionable [] loc_id = []
partitionable (p ∷ ps) loc_id =
    let rest = partitionable ps loc_id in
    if p.app.id == loc_id && not (member p.id rest) then p.id ∷ rest else rest

-- What `validatePatch` asks of the project and of the testing framework.
pub record Workshop (W : Type 0) : Type 0 where
  pub apply_patch : W → Patch → W
  pub build : W → W
  pub execute : W → String → TestStatus × W
  pub restore_original_files : W → W
  pub restore_instrumented_files : W → W
  pub build_with_runtime : W → W

module _ {W : Type 0} (shop : Workshop W) where
  -- The failing tests of a run of all tests
  abbrev failing_tests : List String → W → List String × W
  failing_tests [] w = ([], w)
  failing_tests (t ∷ ts) w =
      let ran = shop.execute w t in
      let rest = failing_tests ts ran.1 in (if is_pass ran.0 then rest.0 else t ∷ rest.0, rest.1)

  abbrev is_empty : List String → Bool
  is_empty [] = true
  is_empty (t ∷ ts) = false

  -- `validatePatch`; that the application or the build fails is only logged.
  unfoldable pub validate_patch : List String → W → Patch → Bool × W
  validate_patch test_names w p =
      let failing = failing_tests test_names (shop.build (shop.apply_patch w p)) in
      (is_empty failing.0, shop.restore_original_files failing.1)

  module _ (cfg : Config) (test_names : List String) (tests : ℕ → String)
      (run : W → Patch → List PatchId → String → Outcome × W) (search_space : List Patch) where
    -- A patch that is found, where one patch is asked for: `valid` stays true, whatever the validation
    -- returns. The loop goes on by `again`.
    unfoldable pub take_one :
        (W → Option (List Patch × Engine × W))
        → List Patch
        → Patch
        → Engine
        → W
        → Option (List Patch × Engine × W)
    take_one again found p s w =
        let valid = true in
        let checked = if cfg.validate_patches then (validate_patch test_names w p).1 else w in
        if valid
        then some (found ++ p ∷ [], s, checked)
        else again (shop.build_with_runtime (shop.restore_instrumented_files checked))

    -- The loop that generates plausible patches. `none` if the fuel runs out, or for an index out of
    -- range.
    unfoldable pub patch_loop : ℕ → ℕ → List Patch → Engine → W → Option (List Patch × Engine × W)
    patch_loop zero last found s w = none
    patch_loop (suc fuel) last found s w =
        let next = find_next cfg tests (partitionable search_space) run search_space last s w in
        let enough = not (cfg.output_top == 0) && leb cfg.output_top (length found) in
        if leb (length search_space) last
        then some (found, s, w)
        else if next.0 == length search_space || enough
        then some (found, next.1, next.2)
        else elim (get_elem? search_space next.0) [
          | none ↦ none
          | some p ↦
              let more = patch_loop fuel (suc next.0) (found ++ p ∷ []) next.1 next.2 in
              let again = patch_loop fuel (suc next.0) found next.1 in
              if cfg.generate_all then more else take_one again found p next.1 next.2
        ]

    -- The validation of the patches that are found, where all are asked for.
    unfoldable pub valid_patches : List Patch → W → List Patch × W
    valid_patches [] w = ([], w)
    valid_patches (p ∷ ps) w =
        let checked = validate_patch test_names w p in
        let rest = valid_patches ps checked.1 in (if checked.0 then p ∷ rest.0 else rest.0, rest.1)

    -- The plausible patches that are kept
    unfoldable pub validated : Option (List Patch × Engine × W) → Option (List Patch × Engine × W)
    validated none = none
    validated (some (found, s, w)) =
        let valid = valid_patches found w in
        if cfg.validate_patches && cfg.generate_all
        then some (valid.0, s, valid.1)
        else some (found, s, w)

    -- The plausible patches, from the first search on.
    unfoldable pub plausible_patches : Engine → W → Option (List Patch × Engine × W)
    plausible_patches s w = validated (patch_loop (suc (length search_space)) 0 [] s w)
