-- ===== src/Samples/TypingRuns.antt =====
-- Runs of repair/Typing.cpp.
use f1x.Prelude.{◌≡◌, refl, ok, err, Error}
use f1x.Core.Expressions.{NodeKind, ExprType, Operator, Expression, node, nil, cons, type}
use f1x.Typing.{
  correct_types, args_context, choose_context, correct_top_node, operator_first_arg_type,
  common_subtype,
}
use f1x.Typing.Correct.{correct_types_sound, Fits, WellTyped}
use f1x.Samples.{comparison, x_node, variable_of}

abbrev a_node : Expression
a_node = variable_of ExprType.bitvector "unsigned" "a"

-- `x`, where a condition is expected, becomes a comparison with 0.
abbrev checked_node : Expression
checked_node =
    node NodeKind.operator ExprType.boolean Operator.eq "int" "=="
      (cons x_node (cons (node NodeKind.constant ExprType.integer Operator.none "int" "0" nil) nil))

comparison-correct_types : correct_types comparison ExprType.boolean ≡ ok comparison
unfolding correct_types args_context choose_context correct_top_node operator_first_arg_type
comparison-correct_types = refl

correct_types_sound_example :
    Fits ExprType.boolean (type comparison) (type comparison) × WellTyped comparison
correct_types_sound_example =
    correct_types_sound comparison ExprType.boolean comparison-correct_types

-- Two bit vectors are not compared for equality.
bitvectors_refused :
    correct_types
      (node NodeKind.operator ExprType.boolean Operator.eq "int" "=="
        (cons a_node (cons a_node nil)))
      ExprType.boolean
    ≡ err Error.invalid_argument
unfolding correct_types args_context choose_context operator_first_arg_type common_subtype
bitvectors_refused = refl
