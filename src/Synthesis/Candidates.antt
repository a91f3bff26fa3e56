-- ===== src/Synthesis/Candidates.antt =====
-- repair/Synthesis.cpp: the expressions and modifications that the synthesis proposes.
use f1x.Prelude.{
  ℕ, List, [], ◌∷◌, ◌++◌, map, flat_map, ◌&&◌, if◌then◌else◌, str_eq, Result, ok, err, Error, ◌>>=◌,
}
use f1x.Core.{PatchMetadata, SynthesisRule, TransformationSchema}
use f1x.Core.Expressions.{
  NodeKind, ExprType, Operator, Expression, node, Args, nil, cons, kind, type, op, raw_type, repr,
  is_pointer, is_integer, is_boolean, true_node, false_node, null_node,
}
use f1x.Util.Builders.{
  text_of, apply_bool_operator, make_null_check, make_non_null_check,
  wrap_with_explicit_unsigned_cast,
}
use f1x.Typing.{is_pointer_arithmetic}
use f1x.Synthesis.Operators.{
  parameter_node, bool2_node, mutate_numeric_operator, mutate_pointer_operator, is_simplifiable,
}
use f1x.Synthesis.Depth.{expression_depth, substitution_distance}

-- The two checks that pointers of one base type are compared by, and the six comparisons of numbers.
abbrev pub equality_checks : Expression → Expression → List Expression
equality_checks left right =
    apply_bool_operator Operator.eq left right ∷ apply_bool_operator Operator.neq left right ∷ []

abbrev pub comparisons : Expression → Expression → List Expression
comparisons left right =
    apply_bool_operator Operator.eq left right
    ∷ apply_bool_operator Operator.neq left right
    ∷ apply_bool_operator Operator.lt left right
    ∷ apply_bool_operator Operator.le left right
    ∷ apply_bool_operator Operator.gt left right
    ∷ apply_bool_operator Operator.ge left right
    ∷ []

-- The inner loops of `bool2Expressions`.
unfoldable pub pointer_checks : Expression → Expression → List Expression
unfolding apply_bool_operator
pointer_checks left right =
    if is_pointer (type right) && str_eq (raw_type left) (raw_type right)
    then equality_checks left right
    else []

unfoldable pub integer_checks : Expression → Expression → List Expression
unfolding apply_bool_operator
integer_checks left right = if is_integer (type right) then comparisons left right else []

-- One round of its outer loop.
unfoldable pub bool2_for : List Expression → Expression → Result (List Expression)
unfolding pointer_checks integer_checks apply_bool_operator make_null_check make_non_null_check
bool2_for components left = elim (type left) [
  | ExprType.pointer ↦
      ok (
        make_null_check left ∷ make_non_null_check left ∷ flat_map (pointer_checks left) components)
  | ExprType.integer ↦
      ok (comparisons left parameter_node ++ flat_map (integer_checks left) components)
  | _ ↦ err Error.invalid_argument
]

unfoldable pub bool2_loop : List Expression → List Expression → Result (List Expression)
unfolding bool2_for
bool2_loop components [] = ok []
bool2_loop components (left ∷ rest) = do
  checks ← bool2_for components left
  more ← bool2_loop components rest
  ok (checks ++ more)

-- `bool2Expressions`
unfoldable pub bool2_expressions : List Expression → Result (List Expression)
unfolding bool2_loop
bool2_expressions components = bool2_loop components components

abbrev pub Modification : Type 0
Modification = Expression × PatchMetadata

abbrev pub by_rule : SynthesisRule → ℕ → PatchMetadata
by_rule rule distance = record { rule = rule; distance = distance }

-- `ATOMIC_EDIT`
abbrev pub atomic_edit : ℕ
atomic_edit = 1

-- The components that may stand for an integer, and those that may stand for a pointer.
unfoldable pub integers_by : SynthesisRule → List Expression → List Modification
integers_by rule =
    flat_map (λ c. if is_integer (type c) then (c, by_rule rule atomic_edit) ∷ [] else [])

unfoldable pub pointers_like : Expression → List Expression → List Modification
pointers_like e = flat_map λ c.
    if is_pointer (type c) && str_eq (raw_type e) (raw_type c)
    then (c, by_rule SynthesisRule.substitution atomic_edit) ∷ []
    else []

-- A BOOLEAN expression is replaced by the abstract condition.
unfoldable pub boolean_substitution : Expression → Result (List Modification)
unfolding substitution_distance
boolean_substitution e =
    if is_boolean (type e)
    then (do
      distance ← substitution_distance e bool2_node
      ok ((bool2_node, by_rule SynthesisRule.substitution distance) ∷ []))
    else ok []

-- The substitutions for an expression with no arguments.
unfoldable pub variable_substitutions : Expression → List Expression → List Modification
unfolding integers_by pointers_like
variable_substitutions e components = elim (type e) [
  | ExprType.integer ↦
      integers_by SynthesisRule.substitution components
      ++ (parameter_node, by_rule SynthesisRule.concretization atomic_edit) ∷ []
  | ExprType.pointer ↦
      pointers_like e components
      ++ (null_node, by_rule SynthesisRule.concretization atomic_edit) ∷ []
  | _ ↦ []
]

unfoldable pub constant_substitutions : Expression → List Expression → List Modification
unfolding integers_by
constant_substitutions e components =
    if is_integer (type e)
    then integers_by SynthesisRule.generalization components
      ++ (parameter_node, by_rule SynthesisRule.substitution atomic_edit) ∷ []
    else []

unfoldable pub leaf_substitutions : Expression → List Expression → List Modification
unfolding variable_substitutions constant_substitutions
leaf_substitutions e components = elim (kind e) [
  | NodeKind.constant ↦ constant_substitutions e components
  | NodeKind.variable ↦ variable_substitutions e components
  | NodeKind.dereference ↦ variable_substitutions e components
  | _ ↦ []
]

-- The node `e` with another operator, or with other arguments (`substituteArg` and the like).
unfoldable pub with_operator : Expression → Operator → Modification
with_operator (node k t o w r xs) m =
    (node k t m w (text_of m) xs, by_rule SynthesisRule.operator atomic_edit)

unfoldable pub with_args : Expression → Args → Expression
with_args (node k t o w r xs) ys = node k t o w r ys

unfoldable pub operator_mutations : Operator → Expression → Result (List Operator)
unfolding mutate_pointer_operator mutate_numeric_operator
operator_mutations o first =
    if is_pointer (type first) then mutate_pointer_operator o else mutate_numeric_operator o

unfoldable pub operator_substitutions : Expression → Expression → Result (List Modification)
unfolding with_operator operator_mutations
operator_substitutions e first = do
  oms ← operator_mutations (op e) first
  ok (map (with_operator e) oms)

unfoldable pub unsigned_cast : Expression → Args → Expression → List Modification
unfolding with_args
unsigned_cast e xs arg =
    if is_integer (type arg)
    then (with_args e xs, by_rule SynthesisRule.unsigned_cast atomic_edit) ∷ []
    else []

unfoldable pub simplify_one : Expression → Expression → List Modification
unfolding is_simplifiable
simplify_one e a =
    if is_simplifiable (op e)
    then (a, by_rule SynthesisRule.simplification atomic_edit) ∷ []
    else []

unfoldable pub simplify_two : Expression → Expression → Expression → Result (List Modification)
unfolding is_simplifiable expression_depth
simplify_two e a b =
    if is_simplifiable (op e)
    then (do
      right_depth ← expression_depth b
      left_depth ← expression_depth a
      ok (
          (a, by_rule SynthesisRule.simplification right_depth)
          ∷ (b, by_rule SynthesisRule.simplification left_depth)
          ∷ []))
    else ok []

-- The modification of one argument, put back into the expression.
unfoldable pub put_back : (Expression → Args) → Expression → List Modification → List Modification
unfolding with_args
put_back args e = map λ m. (with_args e (args m.0), m.1)

-- `baseSubstitutions`
unfoldable pub base_substitutions : Expression → List Expression → Result (List Modification)
unfolding boolean_substitution leaf_substitutions operator_substitutions unsigned_cast simplify_one
    simplify_two put_back wrap_with_explicit_unsigned_cast
base_substitutions (node k t o w r nil) components =
    let e = node k t o w r nil in
    do bool2 ← boolean_substitution e; ok (bool2 ++ leaf_substitutions e components)
base_substitutions (node k t o w r (cons a nil)) components =
    let e = node k t o w r (cons a nil) in
    do
      bool2 ← boolean_substitution e
      operators ← operator_substitutions e a
      arg_mods ← base_substitutions a components
      ok (bool2 ++ (operators ++ (put_back (λ x. cons x nil) e arg_mods ++ simplify_one e a)))
base_substitutions (node k t o w r (cons a (cons b nil))) components =
    let e = node k t o w r (cons a (cons b nil)) in
    let left = base_substitutions a components in
    do
      bool2 ← boolean_substitution e
      operators ← operator_substitutions e a
      left_mods ← if is_pointer_arithmetic o then ok [] else left
      right_mods ← base_substitutions b components
      simplified ← simplify_two e a b
      ok (
          bool2
          ++ (operators
              ++ (put_back (λ x. cons x (cons b nil)) e left_mods
                  ++ (put_back (λ x. cons a (cons x nil)) e right_mods
                      ++ (unsigned_cast e (cons (wrap_with_explicit_unsigned_cast a) (cons b nil)) a
                          ++ (unsigned_cast e
                                (cons a (cons (wrap_with_explicit_unsigned_cast b) nil)) b
                              ++ simplified))))))
base_substitutions (node k t o w r (cons a (cons b (cons c more)))) components =
    let e = node k t o w r (cons a (cons b (cons c more))) in
    do
      bool2 ← boolean_substitution e
      operators ← operator_substitutions e a
      ok (bool2 ++ operators)

-- The cases of `baseModifications`.
unfoldable pub expression_modifications : Expression → List Expression → Result (List Modification)
unfolding base_substitutions apply_bool_operator
expression_modifications e components = do
  substitutions ← base_substitutions e components
  depth ← expression_depth bool2_node
  ok (
      substitutions
      ++ (if is_boolean (type e)
          then (apply_bool_operator Operator.or e bool2_node, by_rule SynthesisRule.loosening depth)
            ∷ (
              apply_bool_operator Operator.and e bool2_node,
              by_rule SynthesisRule.tightening depth,
            )
            ∷ []
          else []))

unfoldable pub guard_modifications : Expression → Result (List Modification)
unfolding expression_depth
guard_modifications e = do
  depth ← expression_depth bool2_node
  ok (
      (if str_eq (repr e) (repr true_node)
        then (false_node, by_rule SynthesisRule.substitution atomic_edit) ∷ []
        else [])
      ++ ((if str_eq (repr e) (repr false_node)
            then (true_node, by_rule SynthesisRule.substitution atomic_edit) ∷ []
            else [])
          ++ (bool2_node, by_rule SynthesisRule.substitution depth) ∷ []))

-- `baseModifications`
unfoldable pub base_modifications :
    TransformationSchema → Expression → List Expression → Result (List Modification)
unfolding expression_modifications guard_modifications
base_modifications TransformationSchema.expression e components =
    expression_modifications e components
base_modifications TransformationSchema.if_guard e components = guard_modifications e
base_modifications TransformationSchema.initialization e components = ok []
base_modifications _ e components = do
  depth ← expression_depth bool2_node
  ok ((bool2_node, by_rule SynthesisRule.substitution depth) ∷ [])
