-- ===== src/Core/Expressions.antt =====
-- repair/Core.h: expressions. One node type holds every kind of expression, with its arguments.
use f1x.Prelude.{ℕ, String, Bool, true, false, ◌==◌}

pub data NodeKind : Type 0 where
  operator variable constant dereference parameter int2 bool2 cond3 : NodeKind

-- `enum class Type`
pub data ExprType : Type 0 where
  any boolean integer pointer bitvector : ExprType

-- `modulo` is `MOD`.
pub data Operator : Type 0 where
  none eq neq lt le gt ge or and add sub mul div modulo neg not : Operator
  bv_and bv_xor bv_or bv_shl bv_shr bv_not ptr_add ptr_sub : Operator
  implicit_bv_cast implicit_int_cast : Operator
  explicit_bv_cast explicit_int_cast explicit_ptr_cast explicit_unsigned_cast : Operator

abbrev pub default_boolean_type : String
default_boolean_type = "int"

abbrev pub explicit_int_cast_type : String
explicit_int_cast_type = "long"

abbrev pub explicit_unsigned_cast_type : String
explicit_unsigned_cast_type = "unsigned"

abbrev pub explicit_bv_cast_type : String
explicit_bv_cast_type = "unsigned long"

abbrev pub explicit_ptr_cast_type : String
explicit_ptr_cast_type = "void"

-- The fields of a node: kind, type, op, rawType, repr and args.
mutual
  pub data Expression : Type 0 where
    node : NodeKind → ExprType → Operator → String → String → Args → Expression

  pub data Args : Type 0 where
    nil : Args
    cons : Expression → Args → Args

pattern abbrev pub one : Expression → Args
one a = cons a nil

pattern abbrev pub two : Expression → Expression → Args
two a b = cons a (cons b nil)

abbrev pub kind : Expression → NodeKind
kind (node k t o w r xs) = k

abbrev pub type : Expression → ExprType
type (node k t o w r xs) = t

abbrev pub op : Expression → Operator
op (node k t o w r xs) = o

abbrev pub raw_type : Expression → String
raw_type (node k t o w r xs) = w

abbrev pub repr : Expression → String
repr (node k t o w r xs) = r

abbrev pub args : Expression → Args
args (node k t o w r xs) = xs

abbrev pub true_node : Expression
true_node = node NodeKind.constant ExprType.boolean Operator.none "int" "1" nil

abbrev pub false_node : Expression
false_node = node NodeKind.constant ExprType.boolean Operator.none "int" "0" nil

abbrev pub null_node : Expression
null_node = node NodeKind.constant ExprType.pointer Operator.none "void" "(void*)0" nil

-- The tests `kind == NodeKind::…` and `type == Type::…`.
abbrev pub kind_index : NodeKind → ℕ
kind_index NodeKind.operator = 0
kind_index NodeKind.variable = 1
kind_index NodeKind.constant = 2
kind_index NodeKind.dereference = 3
kind_index NodeKind.parameter = 4
kind_index NodeKind.int2 = 5
kind_index NodeKind.bool2 = 6
kind_index NodeKind.cond3 = 7

abbrev pub kind_eq : NodeKind → NodeKind → Bool
kind_eq a b = kind_index a == kind_index b

abbrev pub is_pointer : ExprType → Bool
is_pointer ExprType.pointer = true
is_pointer _ = false

abbrev pub is_integer : ExprType → Bool
is_integer ExprType.integer = true
is_integer _ = false

abbrev pub is_boolean : ExprType → Bool
is_boolean ExprType.boolean = true
is_boolean _ = false
