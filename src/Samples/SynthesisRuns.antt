-- ===== src/Samples/SynthesisRuns.antt =====
-- Runs of repair/Synthesis.cpp.
use f1x.Prelude.{◌≡◌, ◌⊎◌, false, refl, List, [], ◌∷◌, All, ok, err, Result, Returns, some, arith}
use f1x.Core.{TransformationSchema, SynthesisRule}
use f1x.Core.Expressions.{NodeKind, ExprType, type}
use f1x.Typing.{correct_types, correct_top_node}
use f1x.Synthesis.Candidates.{Modification, base_substitutions, base_modifications}
use f1x.Synthesis.Types.{base_substitutions-type}
use f1x.Synthesis.Shapes.{Sparse, Concrete, Condition}
use f1x.Synthesis.Sparse.{base_modifications-Sparse}
use f1x.Synthesis.Operators.{bool2_node}
use f1x.Synthesis.Abstract.{has_node_of_kind, substitute_node_of_kind}
use f1x.Synthesis.Abstract.Counts.{count}
use f1x.Synthesis.Abstract.Places.{Replaced, substitute_node_of_kind-first}
use f1x.Generator.Dispatch.{Expansion, expand, base_id_of}
use f1x.Generator.Instances.{candidate_patches, expand_total}
use f1x.Samples.{comparison, x_node, y_node, guard_application}

substitute_node_of_kind-first_example :
    ((has_node_of_kind comparison NodeKind.variable ≡ false)
      × (substitute_node_of_kind comparison NodeKind.variable bool2_node ≡ (false, comparison)))
    ⊎ Replaced NodeKind.variable bool2_node comparison
        (substitute_node_of_kind comparison NodeKind.variable bool2_node)
substitute_node_of_kind-first_example =
    substitute_node_of_kind-first comparison NodeKind.variable bool2_node

abbrev from_ok {ℓ} : {A : Type ℓ} → A → Result A → A
from_ok a (ok b) = b
from_ok a (err e) = a

abbrev substitutions : List Modification
substitutions = from_ok [] (base_substitutions x_node (y_node ∷ []))

x_node-correct_types : correct_types x_node ExprType.integer ≡ ok x_node
unfolding correct_types correct_top_node
x_node-correct_types = refl

x_node-base_substitutions : base_substitutions x_node (y_node ∷ []) ≡ ok substitutions
unfolding base_substitutions
x_node-base_substitutions = refl

x_node-Concrete : Concrete x_node
unfolding count
x_node-Concrete = (refl, refl, refl, refl)

comparison-Concrete : Concrete comparison
unfolding count
comparison-Concrete = (refl, refl, refl, refl)

bool2_node-Sparse : Sparse bool2_node
unfolding count
bool2_node-Sparse = (refl, refl, omega arith)

comparison-Condition : Condition comparison
unfolding count
comparison-Condition = (refl, refl, refl, omega arith)

base_substitutions-type_example : All (λ m. type m.0 ≡ ExprType.integer) substitutions
base_substitutions-type_example =
    base_substitutions-type x_node ExprType.integer (y_node ∷ []) {e' = x_node} tt
      x_node-correct_types x_node-base_substitutions

base_modifications-Sparse_example :
    Returns
      (All (λ m. Sparse m.0))
      (base_modifications TransformationSchema.expression comparison (x_node ∷ []))
base_modifications-Sparse_example =
    base_modifications-Sparse (x_node ∷ []) (x_node-Concrete, tt) TransformationSchema.expression
      comparison comparison-Concrete

abbrev expansion : Expansion
expansion = record {
  app = guard_application;
  meta = record { rule = SynthesisRule.tightening; distance = 2 };
  conditions = comparison ∷ [];
  param_bound = 1;
}

expand_total_example :
    expand 2 expansion ((base_id_of 1, bool2_node) ∷ []) []
    ≡ some (candidate_patches expansion (base_id_of 1, bool2_node))
expand_total_example =
    expand_total expansion (base_id_of 1) bool2_node bool2_node-Sparse (comparison-Condition, tt)
