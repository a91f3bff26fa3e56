-- ===== src/Synthesis/Operators.antt =====
-- repair/Synthesis.cpp: the operators that are tried in place of an operator, their weight, and the
-- abstract nodes.
use f1x.Prelude.{ℕ, List, [], ◌∷◌, Bool, true, false, Result, ok, err, Error, String}
use f1x.Core.Expressions.{
  NodeKind, ExprType, Operator, Expression, node, nil, explicit_int_cast_type, default_boolean_type,
}

-- `ID_TYPE` and `PARAMETER_TYPE`
abbrev pub id_type : String
id_type = "unsigned long"

abbrev pub parameter_type : String
parameter_type = id_type

abbrev pub parameter_node : Expression
parameter_node =
    node NodeKind.parameter ExprType.integer Operator.none parameter_type "param_value" nil

abbrev pub int2_node : Expression
int2_node =
    node NodeKind.int2 ExprType.integer Operator.none explicit_int_cast_type "int2_value" nil

abbrev pub bool2_node : Expression
bool2_node =
    node NodeKind.bool2 ExprType.boolean Operator.none default_boolean_type "bool2_value" nil

abbrev pub cond3_node : Expression
cond3_node =
    node NodeKind.cond3 ExprType.boolean Operator.none default_boolean_type "cond3_value" nil

-- `mutateNumericOperator`
unfoldable pub mutate_numeric_operator : Operator → Result (List Operator)
mutate_numeric_operator Operator.none = err Error.assertion_failed
mutate_numeric_operator Operator.eq =
    ok (Operator.neq ∷ Operator.lt ∷ Operator.le ∷ Operator.gt ∷ Operator.ge ∷ [])
mutate_numeric_operator Operator.neq =
    ok (Operator.eq ∷ Operator.lt ∷ Operator.le ∷ Operator.gt ∷ Operator.ge ∷ [])
mutate_numeric_operator Operator.lt =
    ok (Operator.eq ∷ Operator.neq ∷ Operator.le ∷ Operator.gt ∷ Operator.ge ∷ [])
mutate_numeric_operator Operator.le =
    ok (Operator.eq ∷ Operator.neq ∷ Operator.lt ∷ Operator.gt ∷ Operator.ge ∷ [])
mutate_numeric_operator Operator.gt =
    ok (Operator.eq ∷ Operator.neq ∷ Operator.lt ∷ Operator.le ∷ Operator.ge ∷ [])
mutate_numeric_operator Operator.ge =
    ok (Operator.eq ∷ Operator.neq ∷ Operator.lt ∷ Operator.le ∷ Operator.gt ∷ [])
mutate_numeric_operator Operator.or = ok (Operator.and ∷ [])
mutate_numeric_operator Operator.and = ok (Operator.or ∷ [])
mutate_numeric_operator Operator.add = ok (Operator.sub ∷ Operator.mul ∷ [])
mutate_numeric_operator Operator.sub = ok (Operator.add ∷ Operator.mul ∷ [])
mutate_numeric_operator Operator.mul = ok (Operator.add ∷ Operator.sub ∷ [])
mutate_numeric_operator Operator.div = ok (Operator.add ∷ Operator.sub ∷ Operator.mul ∷ [])
mutate_numeric_operator Operator.modulo = ok (Operator.add ∷ Operator.sub ∷ Operator.mul ∷ [])
mutate_numeric_operator Operator.neg = ok []
mutate_numeric_operator Operator.not = ok []
mutate_numeric_operator Operator.bv_and = ok (Operator.bv_or ∷ Operator.bv_xor ∷ [])
mutate_numeric_operator Operator.bv_or = ok (Operator.bv_and ∷ Operator.bv_xor ∷ [])
mutate_numeric_operator Operator.bv_xor = ok (Operator.bv_and ∷ Operator.bv_or ∷ [])
mutate_numeric_operator Operator.bv_shl = ok (Operator.bv_shr ∷ [])
mutate_numeric_operator Operator.bv_shr = ok (Operator.bv_shl ∷ [])
mutate_numeric_operator Operator.bv_not = ok []
mutate_numeric_operator Operator.ptr_add = err Error.invalid_argument
mutate_numeric_operator Operator.ptr_sub = err Error.invalid_argument
mutate_numeric_operator Operator.implicit_bv_cast = ok []
mutate_numeric_operator Operator.implicit_int_cast = ok []
mutate_numeric_operator Operator.explicit_bv_cast = ok []
mutate_numeric_operator Operator.explicit_int_cast = ok []
mutate_numeric_operator Operator.explicit_ptr_cast = ok []
mutate_numeric_operator Operator.explicit_unsigned_cast = ok []

-- `mutatePointerOperator`
unfoldable pub mutate_pointer_operator : Operator → Result (List Operator)
mutate_pointer_operator Operator.none = err Error.assertion_failed
mutate_pointer_operator Operator.eq = ok (Operator.neq ∷ [])
mutate_pointer_operator Operator.neq = ok (Operator.eq ∷ [])
mutate_pointer_operator Operator.ptr_add = ok (Operator.ptr_sub ∷ [])
mutate_pointer_operator Operator.ptr_sub = ok (Operator.ptr_add ∷ [])
mutate_pointer_operator _ = ok []

-- `operatorWeight`
unfoldable pub operator_weight : Operator → Result ℕ
operator_weight Operator.none = err Error.assertion_failed
operator_weight Operator.implicit_bv_cast = ok 0
operator_weight Operator.implicit_int_cast = ok 0
operator_weight Operator.explicit_bv_cast = ok 0
operator_weight Operator.explicit_int_cast = ok 0
operator_weight Operator.explicit_unsigned_cast = ok 0
operator_weight Operator.explicit_ptr_cast = ok 0
operator_weight _ = ok 1

-- `isSimplifiable`, on the operator of the expression
unfoldable pub is_simplifiable : Operator → Bool
is_simplifiable Operator.or = true
is_simplifiable Operator.and = true
is_simplifiable Operator.add = true
is_simplifiable Operator.sub = true
is_simplifiable Operator.mul = true
is_simplifiable Operator.div = true
is_simplifiable Operator.modulo = true
is_simplifiable Operator.neg = true
is_simplifiable Operator.bv_and = true
is_simplifiable Operator.bv_or = true
is_simplifiable Operator.bv_xor = true
is_simplifiable Operator.bv_shl = true
is_simplifiable Operator.bv_shr = true
is_simplifiable _ = false
