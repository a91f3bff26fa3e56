-- ===== src/Util/Operators.antt =====
-- repair/Util.cpp: kinds, schemas and operators by their text, and an operator as text.
use f1x.Prelude.{◌<>◌, Bool, ◌||◌, String, str_eq, Result, ok, err, Error, if◌then◌else◌}
use f1x.Core.{TransformationSchema}
use f1x.Core.Expressions.{
  NodeKind, ExprType, Operator, is_pointer, explicit_bv_cast_type, explicit_int_cast_type,
  explicit_ptr_cast_type, explicit_unsigned_cast_type, kind_eq,
}

-- `isAbstractNode`
abbrev pub is_abstract_node : NodeKind → Bool
is_abstract_node kind =
    kind_eq kind NodeKind.parameter
    || (kind_eq kind NodeKind.int2 || (kind_eq kind NodeKind.bool2 || kind_eq kind NodeKind.cond3))

-- `kindByString`
unfoldable pub kind_by_string : String → Result NodeKind
kind_by_string s =
    if str_eq s "operator"
    then ok NodeKind.operator
    else if str_eq s "variable"
    then ok NodeKind.variable
    else if str_eq s "dereference"
    then ok NodeKind.dereference
    else if str_eq s "constant"
    then ok NodeKind.constant
    else err Error.parse_error

-- `transformationSchemaByString`
unfoldable pub transformation_schema_by_string : String → Result TransformationSchema
transformation_schema_by_string s =
    if str_eq s "expression"
    then ok TransformationSchema.expression
    else if str_eq s "if_guard"
    then ok TransformationSchema.if_guard
    else if str_eq s "initialization"
    then ok TransformationSchema.initialization
    else err Error.parse_error

-- `binaryOperatorByString`
unfoldable pub binary_operator_by_string : String → ExprType → Result Operator
binary_operator_by_string r output_type =
    if str_eq r "=="
    then ok Operator.eq
    else if str_eq r "!="
    then ok Operator.neq
    else if str_eq r "<"
    then ok Operator.lt
    else if str_eq r "<="
    then ok Operator.le
    else if str_eq r ">"
    then ok Operator.gt
    else if str_eq r ">="
    then ok Operator.ge
    else if str_eq r "||"
    then ok Operator.or
    else if str_eq r "&&"
    then ok Operator.and
    else if str_eq r "+"
    then (if is_pointer output_type then ok Operator.ptr_add else ok Operator.add)
    else if str_eq r "-"
    then (if is_pointer output_type then ok Operator.ptr_sub else ok Operator.sub)
    else if str_eq r "*"
    then ok Operator.mul
    else if str_eq r "/"
    then ok Operator.div
    else if str_eq r "%"
    then ok Operator.modulo
    else if str_eq r "&"
    then ok Operator.bv_and
    else if str_eq r "|"
    then ok Operator.bv_or
    else if str_eq r "^"
    then ok Operator.bv_xor
    else if str_eq r "<<"
    then ok Operator.bv_shl
    else if str_eq r ">>"
    then ok Operator.bv_shr
    else err Error.parse_error

-- `unaryOperatorByString`
unfoldable pub unary_operator_by_string : String → Result Operator
unary_operator_by_string r =
    if str_eq r "-"
    then ok Operator.neg
    else if str_eq r "!"
    then ok Operator.not
    else if str_eq r "~"
    then ok Operator.bv_not
    else err Error.parse_error

-- `operatorToString`
unfoldable pub operator_to_string : Operator → Result String
operator_to_string Operator.none = err Error.invalid_argument
operator_to_string Operator.eq = ok "=="
operator_to_string Operator.neq = ok "!="
operator_to_string Operator.lt = ok "<"
operator_to_string Operator.le = ok "<="
operator_to_string Operator.gt = ok ">"
operator_to_string Operator.ge = ok ">="
operator_to_string Operator.or = ok "||"
operator_to_string Operator.and = ok "&&"
operator_to_string Operator.add = ok "+"
operator_to_string Operator.sub = ok "-"
operator_to_string Operator.mul = ok "*"
operator_to_string Operator.div = ok "/"
operator_to_string Operator.modulo = ok "%"
operator_to_string Operator.neg = ok "-"
operator_to_string Operator.not = ok "!"
operator_to_string Operator.bv_and = ok "&"
operator_to_string Operator.bv_or = ok "|"
operator_to_string Operator.bv_xor = ok "^"
operator_to_string Operator.bv_shl = ok "<<"
operator_to_string Operator.bv_shr = ok ">>"
operator_to_string Operator.bv_not = ok "~"
operator_to_string Operator.ptr_add = ok "+"
operator_to_string Operator.ptr_sub = ok "-"
operator_to_string Operator.implicit_bv_cast = ok ""
operator_to_string Operator.implicit_int_cast = ok ""
operator_to_string Operator.explicit_bv_cast = ok ("(" <> explicit_bv_cast_type <> ")")
operator_to_string Operator.explicit_int_cast = ok ("(" <> explicit_int_cast_type <> ")")
operator_to_string Operator.explicit_ptr_cast = ok ("(" <> explicit_ptr_cast_type <> "*)")
operator_to_string Operator.explicit_unsigned_cast = ok ("(" <> explicit_unsigned_cast_type <> ")")
