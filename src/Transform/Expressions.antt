-- ===== src/Transform/Expressions.antt =====
-- transform/TransformUtil.cpp with repair/Util.cpp: which expressions are written as JSON, and the
-- expressions that the repair tool should read from them.
use f1x.Prelude.{
  ℕ, suc, max, ◌<◌, ◌≡◌, List, [], ◌∷◌, Bool, Option, none, some, String, str_eq, if◌then◌else◌,
  Result, ok, err, Error, ◌>>=◌,
}
use f1x.Core.Expressions.{NodeKind, ExprType, Operator, Expression, node, nil, cons}
use f1x.Util.Operators.{binary_operator_by_string, unary_operator_by_string}
use f1x.Typing.{operator_output_type}
use f1x.Loading.{Json}
use f1x.Transform.Clang.{
  QualType, Stmt, binary_operator, unary_operator, implicit_cast, explicit_cast, paren, member,
  integer_literal, character_literal, decl_ref, array_subscript,
}
use f1x.Transform.Types.{get_builtin_kind, is_pointer_type, get_pointee_type, clang_kind_to_string}
use f1x.Transform.Documents.{JsonBuilder}

abbrev pub find_field {ℓ} : {A : Type ℓ} → List (String × A) → String → Option A
find_field [] name = none
find_field ((key, a) ∷ rest) name =
    let later = find_field rest name in if str_eq key name then some a else later

-- rapidjson reads what it has built: the first member of a name, texts, flags and arrays, and a number
-- that an `int` holds.
pub record Reads {J : Type 0} (json : Json J) (build : JsonBuilder J) : Type 0 where
  pub member_object :
      (fields : List (String × J)) (name : String)
      → json.member (build.object fields) name ≡ find_field fields name
  pub get_string_text : (s : String) → json.get_string (build.text s) ≡ some s
  pub get_bool_flag : (b : Bool) → json.get_bool (build.flag b) ≡ some b
  pub get_array_array : (js : List J) → json.get_array (build.array js) ≡ some js
  pub get_uint_number : (n : ℕ) → n < 2147483648 → json.get_uint (build.number n) ≡ some n

-- The expressions that `StmtToJSON` visits have no other node below operators, casts and parentheses.
abbrev pub IsSupported : Stmt → Type 0
IsSupported (binary_operator i r a b) = IsSupported a × IsSupported b
IsSupported (unary_operator i r a) = IsSupported a
IsSupported (implicit_cast i a) = IsSupported a
IsSupported (explicit_cast i) = Unit
IsSupported (paren i a) = IsSupported a
IsSupported (member i arrow a) = Unit
IsSupported (integer_literal i) = Unit
IsSupported (character_literal i) = Unit
IsSupported (decl_ref i d) = Unit
IsSupported (array_subscript i) = Unit
IsSupported _ = ⊥

-- The depth of the document
abbrev pub depth : Stmt → ℕ
depth (binary_operator i r a b) = suc (max (depth a) (depth b))
depth (unary_operator i r a) = suc (depth a)
depth (implicit_cast i a) = depth a
depth (paren i a) = depth a
depth _ = 1

abbrev pub type_of : QualType → ExprType
type_of t = if is_pointer_type t then ExprType.pointer else ExprType.integer

abbrev pub raw_of : QualType → String
raw_of t =
    if is_pointer_type t then (get_pointee_type t).0 else clang_kind_to_string (get_builtin_kind t)

abbrev pub leaf : NodeKind → QualType → String → Expression
leaf k t r = node k (type_of t) Operator.none (raw_of t) r nil

abbrev pub constant : String → String → Expression
constant raw r = node NodeKind.constant ExprType.integer Operator.none raw r nil

-- The expression of the repair tool for an expression of the program: without casts that Clang adds
-- and without parentheses. The operator must be one that the repair tool knows.
unfoldable pub expression_of : Stmt → Result Expression
expression_of (binary_operator i r a b) = do
  o ← binary_operator_by_string r (type_of i.type)
  t ← operator_output_type o
  x ← expression_of a
  y ← expression_of b
  ok (node NodeKind.operator t o (raw_of i.type) r (cons x (cons y nil)))
expression_of (unary_operator i r a) = do
  o ← unary_operator_by_string r
  t ← operator_output_type o
  x ← expression_of a
  ok (node NodeKind.operator t o (clang_kind_to_string (get_builtin_kind i.type)) r (cons x nil))
expression_of (implicit_cast i a) = expression_of a
expression_of (paren i a) = expression_of a
expression_of (explicit_cast i) = ok (leaf NodeKind.variable i.type i.printed)
expression_of (member i arrow a) =
    ok (leaf (if arrow then NodeKind.dereference else NodeKind.variable) i.type i.printed)
expression_of (integer_literal i) =
    ok (constant (clang_kind_to_string (get_builtin_kind i.type)) i.printed)
expression_of (character_literal i) = ok (constant "char" i.printed)
expression_of (decl_ref i d) = ok (leaf NodeKind.variable i.type i.printed)
expression_of (array_subscript i) = ok (leaf NodeKind.variable i.type i.printed)
expression_of _ = err Error.assertion_failed
