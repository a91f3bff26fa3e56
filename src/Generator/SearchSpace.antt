-- ===== src/Generator/SearchSpace.antt =====
-- repair/Synthesis.cpp: `generateSearchSpace`. Base ids go on from one schema application to the next.
pub mod Distinct
use f1x.Prelude.{ℕ, List, [], ◌∷◌, ◌++◌, String, Result, ok, ◌>>=◌}
use f1x.Core.{SchemaApplication, Patch}
use f1x.Core.Config.{Config}
use f1x.Generator.Dispatch.{Emitted, candidate_dispatch}
use f1x.Generator.Runtime.{runtime_loader, function_prologue, function_epilogue, includes, header}

-- The loop of `partitioningFunctions`.
unfoldable pub partitioning_loop : Config → ℕ → List SchemaApplication → Result Emitted
unfolding candidate_dispatch function_prologue function_epilogue
partitioning_loop cfg base [] = ok (record { code = []; patches = []; next_id = base })
partitioning_loop cfg base (sa ∷ sas) = do
  dispatch ← candidate_dispatch cfg sa base
  rest ← partitioning_loop cfg dispatch.next_id sas
  ok (record {
    code = function_prologue cfg sa ++ (dispatch.code ++ (function_epilogue cfg sa ++ rest.code));
    patches = dispatch.patches ++ rest.patches;
    next_id = rest.next_id;
  })

-- `partitioningFunctions`: 0 is no base id.
unfoldable pub partitioning_functions : Config → ℕ → List SchemaApplication → Result Emitted
unfolding partitioning_loop runtime_loader
partitioning_functions cfg euid sas = do
  functions ← partitioning_loop cfg 1 sas
  ok (record functions { code = includes ++ (runtime_loader cfg euid ++ functions.code) })

-- The source and the header of the runtime, and the search space.
pub record Generated : Type 0 where
  pub source : List String
  pub header_lines : List String
  pub search_space : List Patch

-- `generateSearchSpace`
unfoldable pub generate_search_space : Config → ℕ → List SchemaApplication → Result Generated
generate_search_space cfg euid sas = do
  functions ← partitioning_functions cfg euid sas
  ok (record {
    source = functions.code;
    header_lines = header sas;
    search_space = functions.patches;
  })
