-- ===== src/Typing.antt =====
-- repair/Typing.cpp: the types of operators, and the correction of an expression by casts and checks
-- so that it fits its context.
pub mod Cases
pub mod Correct
pub mod Total
use f1x.Prelude.{
  Bool, true, false, ◌||◌, str_eq, Result, ok, err, Error, ◌>>=◌, ◌>>◌, assert, if◌then◌else◌,
}
use f1x.Core.Expressions.{
  NodeKind, ExprType, Operator, Expression, node, Args, nil, cons, kind, type, repr, kind_eq,
  true_node, false_node, is_pointer,
}
use f1x.Util.Builders.{
  wrap_with_implicit_int_cast, wrap_with_implicit_bv_cast, wrap_with_explicit_int_cast,
  wrap_with_explicit_bv_cast, wrap_with_explicit_ptr_cast, make_non_null_check, make_non_zero_check,
}

-- `operatorOutputType`
unfoldable pub operator_output_type : Operator → Result ExprType
operator_output_type Operator.none = err Error.invalid_argument
operator_output_type Operator.eq = ok ExprType.boolean
operator_output_type Operator.neq = ok ExprType.boolean
operator_output_type Operator.lt = ok ExprType.boolean
operator_output_type Operator.le = ok ExprType.boolean
operator_output_type Operator.gt = ok ExprType.boolean
operator_output_type Operator.ge = ok ExprType.boolean
operator_output_type Operator.or = ok ExprType.boolean
operator_output_type Operator.and = ok ExprType.boolean
operator_output_type Operator.add = ok ExprType.integer
operator_output_type Operator.sub = ok ExprType.integer
operator_output_type Operator.mul = ok ExprType.integer
operator_output_type Operator.div = ok ExprType.integer
operator_output_type Operator.modulo = ok ExprType.integer
operator_output_type Operator.neg = ok ExprType.integer
operator_output_type Operator.not = ok ExprType.boolean
operator_output_type Operator.bv_and = ok ExprType.bitvector
operator_output_type Operator.bv_or = ok ExprType.bitvector
operator_output_type Operator.bv_xor = ok ExprType.bitvector
operator_output_type Operator.bv_shl = ok ExprType.bitvector
operator_output_type Operator.bv_shr = ok ExprType.bitvector
operator_output_type Operator.bv_not = ok ExprType.bitvector
operator_output_type Operator.ptr_add = ok ExprType.pointer
operator_output_type Operator.ptr_sub = ok ExprType.pointer
operator_output_type Operator.implicit_bv_cast = ok ExprType.integer
operator_output_type Operator.implicit_int_cast = ok ExprType.bitvector
operator_output_type Operator.explicit_bv_cast = ok ExprType.bitvector
operator_output_type Operator.explicit_int_cast = ok ExprType.integer
operator_output_type Operator.explicit_unsigned_cast = ok ExprType.integer
operator_output_type Operator.explicit_ptr_cast = ok ExprType.pointer

-- `operatorFirstArgType`
unfoldable pub operator_first_arg_type : Operator → Result ExprType
operator_first_arg_type Operator.none = err Error.invalid_argument
operator_first_arg_type Operator.eq = ok ExprType.any
operator_first_arg_type Operator.neq = ok ExprType.any
operator_first_arg_type Operator.lt = ok ExprType.integer
operator_first_arg_type Operator.le = ok ExprType.integer
operator_first_arg_type Operator.gt = ok ExprType.integer
operator_first_arg_type Operator.ge = ok ExprType.integer
operator_first_arg_type Operator.or = ok ExprType.boolean
operator_first_arg_type Operator.and = ok ExprType.boolean
operator_first_arg_type Operator.add = ok ExprType.integer
operator_first_arg_type Operator.sub = ok ExprType.integer
operator_first_arg_type Operator.mul = ok ExprType.integer
operator_first_arg_type Operator.div = ok ExprType.integer
operator_first_arg_type Operator.modulo = ok ExprType.integer
operator_first_arg_type Operator.neg = ok ExprType.integer
operator_first_arg_type Operator.not = ok ExprType.boolean
operator_first_arg_type Operator.bv_and = ok ExprType.bitvector
operator_first_arg_type Operator.bv_or = ok ExprType.bitvector
operator_first_arg_type Operator.bv_xor = ok ExprType.bitvector
operator_first_arg_type Operator.bv_shl = ok ExprType.bitvector
operator_first_arg_type Operator.bv_shr = ok ExprType.bitvector
operator_first_arg_type Operator.bv_not = ok ExprType.bitvector
operator_first_arg_type Operator.ptr_add = ok ExprType.pointer
operator_first_arg_type Operator.ptr_sub = ok ExprType.pointer
operator_first_arg_type Operator.implicit_bv_cast = ok ExprType.any
operator_first_arg_type Operator.implicit_int_cast = ok ExprType.any
operator_first_arg_type Operator.explicit_bv_cast = ok ExprType.any
operator_first_arg_type Operator.explicit_int_cast = ok ExprType.any
operator_first_arg_type Operator.explicit_unsigned_cast = ok ExprType.any
operator_first_arg_type Operator.explicit_ptr_cast = ok ExprType.any

-- `commonSubtype`
unfoldable pub common_subtype : ExprType → ExprType → Result ExprType
common_subtype ExprType.any b = ok b
common_subtype a ExprType.any = ok a
common_subtype ExprType.pointer b = ok ExprType.pointer
common_subtype a ExprType.pointer = ok ExprType.pointer
common_subtype ExprType.boolean b = ok ExprType.boolean
common_subtype a ExprType.boolean = ok ExprType.boolean
common_subtype ExprType.integer b = ok ExprType.integer
common_subtype a ExprType.integer = ok ExprType.integer
common_subtype a b = err Error.invalid_argument

-- `correctTopNode`
unfoldable pub correct_top_node : Expression → ExprType → Expression
unfolding wrap_with_implicit_int_cast wrap_with_implicit_bv_cast wrap_with_explicit_int_cast
    wrap_with_explicit_bv_cast wrap_with_explicit_ptr_cast make_non_null_check make_non_zero_check
correct_top_node e ExprType.any = e
correct_top_node e ExprType.integer = elim (type e) [
  | ExprType.integer ↦ e
  | ExprType.pointer ↦ wrap_with_explicit_int_cast e
  | _ ↦ wrap_with_implicit_int_cast e
]
correct_top_node e ExprType.bitvector = elim (type e) [
  | ExprType.bitvector ↦ e
  | ExprType.pointer ↦ wrap_with_explicit_bv_cast e
  | _ ↦ wrap_with_implicit_bv_cast e
]
correct_top_node e ExprType.boolean = elim (type e) [
  | ExprType.boolean ↦ e
  | ExprType.pointer ↦ make_non_null_check e
  | ExprType.integer ↦
      if kind_eq (kind e) NodeKind.constant
      then (if str_eq (repr e) "0"
          then false_node
          else if str_eq (repr e) "1"
          then true_node
          else make_non_zero_check e)
      else make_non_zero_check e
  | _ ↦ make_non_zero_check e
]
correct_top_node e ExprType.pointer =
    if is_pointer (type e) then e else wrap_with_explicit_ptr_cast e

abbrev pub is_leaf_kind : NodeKind → Bool
is_leaf_kind k =
    kind_eq k NodeKind.variable
    || (kind_eq k NodeKind.constant
        || (kind_eq k NodeKind.parameter || kind_eq k NodeKind.dereference))

abbrev pub is_pointer_arithmetic : Operator → Bool
is_pointer_arithmetic Operator.ptr_add = true
is_pointer_arithmetic Operator.ptr_sub = true
is_pointer_arithmetic _ = false

-- Where the operator takes arguments of any type, the one that both of the given types admit.
unfoldable pub choose_context : Result ExprType → ExprType → ExprType → Result ExprType
unfolding common_subtype
choose_context m t₀ t₁ = do
  arg_context ← m
  elim arg_context [ ExprType.any ↦ common_subtype t₀ t₁ | other ↦ ok other ]

-- The type that both arguments of a binary operator are corrected to.
unfoldable pub args_context : Operator → ExprType → ExprType → Result ExprType
unfolding operator_first_arg_type choose_context
args_context o t₀ t₁ = choose_context (operator_first_arg_type o) t₀ t₁

-- `correctTypes`
unfoldable pub correct_types : Expression → ExprType → Result Expression
correct_types (node NodeKind.operator t o w r (cons a nil)) context = do
  arg_context ← operator_first_arg_type o
  corrected ← correct_types a arg_context
  ok (correct_top_node (node NodeKind.operator t o w r (cons corrected nil)) context)
correct_types (node NodeKind.operator t o w r (cons a (cons b nil))) context =
    elim (is_pointer_arithmetic o) [
      | true ↦ do
        assert (is_pointer (type a))
        corrected ← correct_types b ExprType.integer
        ok (correct_top_node (node NodeKind.operator t o w r (cons a (cons corrected nil))) context)
      | false ↦ do
        arg_context ← args_context o (type a) (type b)
        left ← correct_types a arg_context
        right ← correct_types b arg_context
        ok (correct_top_node (node NodeKind.operator t o w r (cons left (cons right nil))) context)
    ]
correct_types (node NodeKind.operator t o w r xs) context = err Error.invalid_argument
correct_types e context =
    if is_leaf_kind (kind e) then ok (correct_top_node e context) else err Error.invalid_argument
