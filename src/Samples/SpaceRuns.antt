-- ===== src/Samples/SpaceRuns.antt =====
-- Runs of `generateSearchSpace`, repair/Synthesis.cpp.
use f1x.Prelude.{
  ℕ, ◌<◌, ◌≡◌, ◌≢◌, refl, List, [], ◌∷◌, All, length, get_elem?, ok, err, Result, none, some, arith,
  false,
}
use f1x.Core.{Patch}
use f1x.Synthesis.Candidates.{bool2_expressions, base_modifications}
use f1x.Synthesis.Abstract.{is_abstract_expression}
use f1x.Synthesis.Abstract.Counts.{count}
use f1x.Generator.SearchSpace.{Generated, partitioning_functions, generate_search_space}
use f1x.Generator.SearchSpace.Distinct.{
  HasConcreteInput, generate_search_space-concrete, generate_search_space-distinct,
}
use f1x.Samples.{guard_application, patch_number, sample_config}

abbrev nothing_generated : Generated
nothing_generated = record { source = []; header_lines = []; search_space = [] }

abbrev from_ok : Result Generated → Generated
from_ok (ok g) = g
from_ok (err e) = nothing_generated

abbrev run : Result Generated
run = generate_search_space sample_config 1000 (guard_application ∷ [])

abbrev generated : Generated
generated = from_ok run

application-HasConcreteInput : All HasConcreteInput (guard_application ∷ [])
unfolding count
application-HasConcreteInput = (((refl, refl, refl, refl), ((refl, refl, refl, refl), tt)), tt)

run_lem : run ≡ ok generated
unfolding generate_search_space partitioning_functions bool2_expressions base_modifications
run_lem = refl

space_length : length generated.search_space ≡ 19
unfolding generate_search_space partitioning_functions bool2_expressions base_modifications
space_length = refl

generate_search_space-concrete_example :
    All
      (λ p.
        (is_abstract_expression p.modified ≡ false)
        × (0 < p.id.base)
        × (p.id.int2 ≡ 0)
        × (p.id.cond3 ≡ 0))
      generated.search_space
generate_search_space-concrete_example =
    generate_search_space-concrete sample_config 1000 (guard_application ∷ [])
      application-HasConcreteInput run_lem

abbrev patch_at : List Patch → ℕ → Patch
patch_at ps i = elim (get_elem? ps i) [ none ↦ patch_number 0 | some p ↦ p ]

first_patch : get_elem? generated.search_space 1 ≡ some (patch_at generated.search_space 1)
unfolding generate_search_space partitioning_functions bool2_expressions base_modifications
first_patch = refl

last_patch : get_elem? generated.search_space 18 ≡ some (patch_at generated.search_space 18)
unfolding generate_search_space partitioning_functions bool2_expressions base_modifications
last_patch = refl

generate_search_space-distinct_example :
    (patch_at generated.search_space 1).id ≢ (patch_at generated.search_space 18).id
generate_search_space-distinct_example =
    generate_search_space-distinct sample_config 1000 (guard_application ∷ []) 1 18
      application-HasConcreteInput run_lem first_patch last_patch (omega arith)
