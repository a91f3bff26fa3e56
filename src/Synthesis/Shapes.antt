-- ===== src/Synthesis/Shapes.antt =====
-- repair/Synthesis.cpp: what the proposed expressions look like: how many abstract nodes they hold, and
-- that of the conditions of `bool2Expressions`.
use f1x.Prelude.{
  List, [], ◌∷◌, flat_map, All, All-append, All-flat_map, Bool, true, false, ◌≡◌, ◌≤◌, ◌+◌, arith,
  Returns, Returns-bind, if◌then◌else◌, ◌&&◌, str_eq,
}
use f1x.Core.{SynthesisRule}
use f1x.Core.Expressions.{
  NodeKind, ExprType, Expression, node, type, raw_type, is_pointer, is_integer, null_node,
}
use f1x.Util.Builders.{apply_bool_operator}
use f1x.Synthesis.Operators.{parameter_node}
use f1x.Synthesis.Abstract.Counts.{count}
use f1x.Synthesis.Candidates.{
  by_rule, integers_by, pointers_like, variable_substitutions, constant_substitutions,
  leaf_substitutions, atomic_edit, comparisons, equality_checks, pointer_checks, integer_checks,
  bool2_for, bool2_loop, bool2_expressions,
}

-- No abstract node; at most one that is expanded; at most a parameter.
abbrev pub Concrete : Expression → Type 0
Concrete e =
    (count NodeKind.int2 e ≡ 0)
    × (count NodeKind.cond3 e ≡ 0)
    × (count NodeKind.bool2 e ≡ 0)
    × (count NodeKind.parameter e ≡ 0)

abbrev pub Sparse : Expression → Type 0
Sparse e =
    (count NodeKind.int2 e ≡ 0)
    × (count NodeKind.cond3 e ≡ 0)
    × (count NodeKind.bool2 e + count NodeKind.parameter e ≤ 1)

abbrev pub Condition : Expression → Type 0
Condition e =
    (count NodeKind.int2 e ≡ 0)
    × (count NodeKind.cond3 e ≡ 0)
    × (count NodeKind.bool2 e ≡ 0)
    × (count NodeKind.parameter e ≤ 1)

pub if_All {ℓ κ} :
    {A : Type ℓ} (P : A → Type κ) (b : Bool) (xs : List A) → All P xs → All P (if b then xs else [])
if_All P true xs h = h
if_All P false xs h = tt

equality_checks-Condition :
    (a b : Expression) → Concrete a → Condition b → All Condition (equality_checks a b)
unfolding apply_bool_operator count
equality_checks-Condition a b h k = omega arith

comparisons-Condition :
    (a b : Expression) → Concrete a → Condition b → All Condition (comparisons a b)
unfolding apply_bool_operator count
comparisons-Condition a b h k = omega arith

module _ (components : List Expression) (concrete : All Concrete components) where
  pointer_checks-Condition :
      (left : Expression)
      → Concrete left
      → All Condition (flat_map (pointer_checks left) components)
  unfolding pointer_checks
  pointer_checks-Condition left h =
      All-flat_map Concrete Condition (pointer_checks left)
        (λ c d.
          if_All Condition (is_pointer (type c) && str_eq (raw_type left) (raw_type c))
            (equality_checks left c) (equality_checks-Condition left c h (omega arith)))
        components concrete

  integer_checks-Condition :
      (left : Expression)
      → Concrete left
      → All Condition (flat_map (integer_checks left) components)
  unfolding integer_checks
  integer_checks-Condition left h =
      All-flat_map Concrete Condition (integer_checks left)
        (λ c d.
          if_All Condition (is_integer (type c)) (comparisons left c)
            (comparisons-Condition left c h (omega arith)))
        components concrete

  bool2_for-Condition :
      (left : Expression) → Concrete left → Returns (All Condition) (bool2_for components left)
  unfolding bool2_for apply_bool_operator count
  bool2_for-Condition (node k ExprType.pointer o w r xs) h =
      let left = node k ExprType.pointer o w r xs in
      (omega arith, (omega arith, pointer_checks-Condition left h))
  bool2_for-Condition (node k ExprType.integer o w r xs) h =
      let left = node k ExprType.integer o w r xs in
      All-append Condition (comparisons left parameter_node)
        (flat_map (integer_checks left) components)
        (comparisons-Condition left parameter_node h (omega arith))
        (integer_checks-Condition left h)
  bool2_for-Condition (node k _ o w r xs) h = tt

  bool2_loop-Condition :
      (rest : List Expression)
      → All Concrete rest
      → Returns (All Condition) (bool2_loop components rest)
  unfolding bool2_loop
  bool2_loop-Condition [] h = tt
  bool2_loop-Condition (left ∷ rest) h =
      Returns-bind (All Condition) _ (bool2_for components left) _ (bool2_for-Condition left h.0)
        λ checks p.
          Returns-bind (All Condition) _ (bool2_loop components rest) _
            (bool2_loop-Condition rest h.1) λ more q. All-append Condition checks more p q

  pub bool2_expressions-Condition : Returns (All Condition) (bool2_expressions components)
  unfolding bool2_expressions
  bool2_expressions-Condition = bool2_loop-Condition components concrete

  integers-Sparse : (rule : SynthesisRule) → All (λ m. Sparse m.0) (integers_by rule components)
  unfolding integers_by
  integers-Sparse rule =
      All-flat_map Concrete _ _ (λ c d. if_All _ (is_integer (type c)) _ (omega arith)) components
        concrete

  pointers-Sparse : (e : Expression) → All (λ m. Sparse m.0) (pointers_like e components)
  unfolding pointers_like
  pointers-Sparse e =
      All-flat_map Concrete _ _
        (λ c d.
          if_All (λ m. Sparse m.0) _ ((c, by_rule SynthesisRule.substitution atomic_edit) ∷ [])
            (omega arith))
        components concrete

  variable-Sparse : (e : Expression) → All (λ m. Sparse m.0) (variable_substitutions e components)
  unfolding variable_substitutions count
  variable-Sparse (node k ExprType.integer o w r xs) =
      All-append _ (integers_by SynthesisRule.substitution components)
        ((parameter_node, by_rule SynthesisRule.concretization atomic_edit) ∷ [])
        (integers-Sparse SynthesisRule.substitution) (omega arith)
  variable-Sparse (node k ExprType.pointer o w r xs) =
      let e = node k ExprType.pointer o w r xs in
      All-append _ (pointers_like e components)
        ((null_node, by_rule SynthesisRule.concretization atomic_edit) ∷ []) (pointers-Sparse e)
        (omega arith)
  variable-Sparse (node k _ o w r xs) = tt

  pub leaf-Sparse : (e : Expression) → All (λ m. Sparse m.0) (leaf_substitutions e components)
  unfolding leaf_substitutions constant_substitutions count
  leaf-Sparse (node NodeKind.constant t o w r xs) = if_All _ (is_integer t) _ (
      All-append _ (integers_by SynthesisRule.generalization components)
        ((parameter_node, by_rule SynthesisRule.substitution atomic_edit) ∷ [])
        (integers-Sparse SynthesisRule.generalization) (omega arith))
  leaf-Sparse (node NodeKind.variable t o w r xs) =
      variable-Sparse (node NodeKind.variable t o w r xs)
  leaf-Sparse (node NodeKind.dereference t o w r xs) =
      variable-Sparse (node NodeKind.dereference t o w r xs)
  leaf-Sparse (node _ t o w r xs) = tt
