-- ===== src/Util/Builders.antt =====
-- repair/Util.cpp: expressions as text, and the functions that build expressions. The builders are
-- called on operators that have a text, so `text_of` drops the exception of `operatorToString`.
use f1x.Prelude.{ℕ, ◌<>◌, String, to_string, Result, ok, err, Error, ◌>>=◌}
use f1x.Core.Expressions.{
  NodeKind, ExprType, Operator, Expression, node, nil, cons, one, two, raw_type, null_node,
  default_boolean_type, explicit_int_cast_type, explicit_bv_cast_type, explicit_ptr_cast_type,
  explicit_unsigned_cast_type,
}
use f1x.Util.Operators.{operator_to_string}

-- `expressionToString`
unfoldable pub expression_to_string : Expression → Result String
expression_to_string (node k t o w r nil) = ok r
expression_to_string (node k t o w r (cons a nil)) = do
  x ← expression_to_string a
  ok (r <> " " <> x)
expression_to_string (node k t o w r (cons a (cons b nil))) = do
  x ← expression_to_string a
  y ← expression_to_string b
  ok ("(" <> x <> " " <> r <> " " <> y <> ")")
expression_to_string (node k t o w r (cons a (cons b (cons c more)))) = err Error.invalid_argument

-- `makeIntegerConst`, on the numbers from 0 up that the code calls it on.
unfoldable pub make_integer_const : ℕ → Expression
make_integer_const n = node NodeKind.constant ExprType.integer Operator.none "int" (to_string n) nil

abbrev pub text_of : Operator → String
unfolding operator_to_string
text_of o = elim (operator_to_string o) [ ok s ↦ s | err e ↦ "" ]

-- `wrapWithImplicitIntCast`
unfoldable pub wrap_with_implicit_int_cast : Expression → Expression
wrap_with_implicit_int_cast e =
    node NodeKind.operator ExprType.integer Operator.implicit_int_cast (raw_type e)
      (text_of Operator.implicit_int_cast) (one e)

-- `wrapWithImplicitBVCast`
unfoldable pub wrap_with_implicit_bv_cast : Expression → Expression
wrap_with_implicit_bv_cast e =
    node NodeKind.operator ExprType.bitvector Operator.implicit_bv_cast (raw_type e)
      (text_of Operator.implicit_bv_cast) (one e)

-- `wrapWithExplicitIntCast`
unfoldable pub wrap_with_explicit_int_cast : Expression → Expression
wrap_with_explicit_int_cast e =
    node NodeKind.operator ExprType.integer Operator.explicit_int_cast explicit_int_cast_type
      (text_of Operator.explicit_int_cast) (one e)

-- `wrapWithExplicitBVCast`
unfoldable pub wrap_with_explicit_bv_cast : Expression → Expression
wrap_with_explicit_bv_cast e =
    node NodeKind.operator ExprType.bitvector Operator.explicit_bv_cast explicit_bv_cast_type
      (text_of Operator.explicit_bv_cast) (one e)

-- `wrapWithExplicitPtrCast`
unfoldable pub wrap_with_explicit_ptr_cast : Expression → Expression
wrap_with_explicit_ptr_cast e =
    node NodeKind.operator ExprType.pointer Operator.explicit_ptr_cast explicit_ptr_cast_type
      (text_of Operator.explicit_ptr_cast) (one e)

-- `wrapWithExplicitUnsignedCast`
unfoldable pub wrap_with_explicit_unsigned_cast : Expression → Expression
wrap_with_explicit_unsigned_cast e =
    node NodeKind.operator ExprType.integer Operator.explicit_unsigned_cast
      explicit_unsigned_cast_type (text_of Operator.explicit_unsigned_cast) (one e)

-- `applyBoolOperator`
unfoldable pub apply_bool_operator : Operator → Expression → Expression → Expression
apply_bool_operator o left right =
    node NodeKind.operator ExprType.boolean o default_boolean_type (text_of o) (two left right)

-- `makeNonNULLCheck`
unfoldable pub make_non_null_check : Expression → Expression
unfolding apply_bool_operator
make_non_null_check pointer = apply_bool_operator Operator.neq pointer null_node

-- `makeNULLCheck`
unfoldable pub make_null_check : Expression → Expression
unfolding apply_bool_operator
make_null_check pointer = apply_bool_operator Operator.eq pointer null_node

-- `makeNonZeroCheck`, with the operator that the code writes: it compares for equality.
unfoldable pub make_non_zero_check : Expression → Expression
unfolding apply_bool_operator
make_non_zero_check e = apply_bool_operator Operator.eq e (make_integer_const 0)
