-- ===== src/Generator/Dispatch.antt =====
-- repair/Synthesis.cpp: `candidateDispatch`. It writes the code that evaluates each candidate, and adds
-- the candidates with their parameters to the search space. The output stream is the list of the lines
-- written; the search space and `baseId` are results.
use f1x.Prelude.{
  ℕ, zero, suc, List, [], ◌∷◌, ◌++◌, reverse, length, Option, none, some, String, ◌<>◌, to_string,
  Result, ok, err, Error, ◌>>=◌, if◌then◌else◌,
}
use f1x.Core.{PatchId, SchemaApplication, LocationContext, Patch, PatchMetadata}
use f1x.Core.Config.{Config}
use f1x.Core.Expressions.{NodeKind, Expression}
use f1x.Util.Builders.{make_integer_const}
use f1x.Synthesis.Abstract.{has_node_of_kind, substitute_node_of_kind}
use f1x.Synthesis.Candidates.{Modification, bool2_expressions, base_modifications}
use f1x.Generator.Names.{
  Renaming, runtime_renaming, type_sizes, null_deref_condition, substitute_with_runtime_repr,
}
use f1x.Generator.Semantics.{runtime_semantics}

-- A candidate whose abstract nodes are not all replaced, with its id so far.
abbrev pub Instance : Type 0
Instance = PatchId × Expression

-- `PatchID{0}` with a base
abbrev pub base_id_of : ℕ → PatchId
base_id_of n = record { base = n; int2 = 0; bool2 = 0; cond3 = 0; param = 0 }

-- The candidate with the abstract condition replaced by each of the conditions, the first of which has
-- the number `i`.
unfoldable pub bool2_instances : Instance → ℕ → List Expression → List Instance
unfolding substitute_node_of_kind
bool2_instances (id, e) i [] = []
bool2_instances (id, e) i (b ∷ bs) =
    (record id { bool2 = suc i }, (substitute_node_of_kind e NodeKind.bool2 b).1)
    ∷ bool2_instances (id, e) (suc i) bs

-- The patches for `n` values of the parameter from `i` on.
unfoldable pub parameter_patches : SchemaApplication → PatchMetadata → Instance → ℕ → ℕ → List Patch
unfolding substitute_node_of_kind make_integer_const
parameter_patches app meta (id, e) i zero = []
parameter_patches app meta (id, e) i (suc n) =
    record {
      id = record id { param = i };
      app = app;
      modified = (substitute_node_of_kind e NodeKind.parameter (make_integer_const i)).1;
      meta = meta;
    }
    ∷ parameter_patches app meta (id, e) (suc i) n

abbrev pub single_patch : SchemaApplication → PatchMetadata → Instance → Patch
single_patch app meta (id, e) = record { id = id; app = app; modified = e; meta = meta }

-- What is known while a candidate is expanded.
pub record Expansion : Type 0 where
  pub app : SchemaApplication
  pub meta : PatchMetadata
  pub conditions : List Expression
  pub param_bound : ℕ

-- One round of the loop over the stack: what is pushed, the top first, and the new patches.
unfoldable pub pushed : Expansion → Instance → List Instance
unfolding bool2_instances has_node_of_kind
pushed x (id, e) =
    if has_node_of_kind e NodeKind.bool2
    then reverse (bool2_instances (id, e) 0 x.conditions)
    else []

unfoldable pub emitted : Expansion → Instance → List Patch
unfolding parameter_patches has_node_of_kind
emitted x (id, e) =
    if has_node_of_kind e NodeKind.bool2
    then []
    else if has_node_of_kind e NodeKind.parameter
    then parameter_patches x.app x.meta (id, e) 0 (suc x.param_bound)
    else single_patch x.app x.meta (id, e) ∷ []

-- The loop, with the patches found so far.
unfoldable pub expand : ℕ → Expansion → List Instance → List Patch → Option (List Patch)
expand fuel x [] ss = some ss
expand zero x (c ∷ stack) ss = none
expand (suc fuel) x (c ∷ stack) ss = expand fuel x (pushed x c ++ stack) (ss ++ emitted x c)

-- One round for the candidate itself and one for each condition put into it.
abbrev pub expansion_fuel : List Expression → ℕ
expansion_fuel conditions = suc (length conditions)

abbrev pub expanded : Option (List Patch) → Result (List Patch)
expanded none = err Error.out_of_fuel
expanded (some ps) = ok ps

-- The tables by which an expression becomes C code.
pub record Tables : Type 0 where
  pub renaming : Renaming
  pub sizes : Renaming
  pub nulls : Renaming

unfoldable pub assignment : Tables → String → Expression → Result String
unfolding runtime_semantics substitute_with_runtime_repr
assignment t variable e = do
  code ← runtime_semantics t.sizes t.nulls (substitute_with_runtime_repr t.renaming e)
  ok (variable <> " = " <> code <> ";")

abbrev pub case_label : ℕ → String
case_label n = "case " <> to_string n <> ":"

-- The branches of `switch (id.bool2)` from the number `i` on.
unfoldable pub bool2_cases : Tables → ℕ → List Expression → Result (List String)
unfolding assignment
bool2_cases t i [] = ok []
bool2_cases t i (b ∷ bs) = do
  line ← assignment t "bool2_value" b
  rest ← bool2_cases t (suc i) bs
  ok (case_label (suc i) ∷ line ∷ "break;" ∷ rest)

-- The lines written, the patches found, and the next base id.
pub record Emitted : Type 0 where
  pub code : List String
  pub patches : List Patch
  pub next_id : ℕ

-- The loop over the modifications.
unfoldable pub candidate_loop :
    Tables → SchemaApplication → List Expression → ℕ → ℕ → List Modification → Result Emitted
unfolding assignment expand pushed emitted
candidate_loop t app conditions bound base [] =
    ok (record { code = []; patches = []; next_id = base })
candidate_loop t app conditions bound base ((e, meta) ∷ ms) = do
  line ← assignment t "base_value" e
  patches ← expanded (
      expand (expansion_fuel conditions)
        (record { app = app; meta = meta; conditions = conditions; param_bound = bound })
        ((base_id_of base, e) ∷ []) [])
  rest ← candidate_loop t app conditions bound (suc base) ms
  ok (record {
    code = case_label base ∷ line ∷ "break;" ∷ rest.code;
    patches = patches ++ rest.patches;
    next_id = rest.next_id;
  })

abbrev pub parameter_bound : Config → LocationContext → ℕ
parameter_bound cfg LocationContext.condition = cfg.max_condition_parameter
parameter_bound cfg LocationContext.unknown = cfg.max_expression_parameter

-- `candidateDispatch`
unfoldable pub candidate_dispatch : Config → SchemaApplication → ℕ → Result Emitted
unfolding candidate_loop bool2_cases runtime_renaming type_sizes null_deref_condition
candidate_dispatch cfg sa base = do
  renaming ← runtime_renaming sa
  let tables : Tables = record {
    renaming = renaming;
    sizes = type_sizes sa;
    nulls = null_deref_condition sa renaming;
  }
  conditions ← bool2_expressions sa.components
  bool2_code ← bool2_cases tables 0 conditions
  modifications ← base_modifications sa.schema sa.original sa.components
  rest ← candidate_loop tables sa conditions (parameter_bound cfg sa.context) base modifications
  ok (record {
    code =
        "param_value = id.param;"
        ∷ "switch (id.bool2) {"
        ∷ case_label 0
        ∷ "break;"
        ∷ (bool2_code ++ "}" ∷ "switch (id.base) {" ∷ (rest.code ++ "}" ∷ []));
    patches = rest.patches;
    next_id = rest.next_id;
  })
