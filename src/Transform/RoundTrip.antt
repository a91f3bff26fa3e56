-- ===== src/Transform/RoundTrip.antt =====
-- transform/TransformUtil.cpp with repair/Util.cpp: expressions written as JSON and read back.
use f1x.Prelude.{
  ℕ, zero, suc, ◌<◌, ◌≤◌, ◌≡◌, refl, List, [], ◌∷◌, Bool, true, false, String, if◌then◌else◌,
  Result, ok, err, ◌>>=◌, arith, inl, inr, Bool-cases,
}
use f1x.Core.Expressions.{NodeKind, ExprType, node}
use f1x.Util.Operators.{kind_by_string}
use f1x.Typing.{operator_output_type}
use f1x.Loading.{Json, operator_of, convert_all, convert_node, convert_expression}
use f1x.Transform.Clang.{
  QualType, Info, Stmt, binary_operator, unary_operator, implicit_cast, explicit_cast, paren,
  member, integer_literal, character_literal, decl_ref, array_subscript,
}
use f1x.Transform.Types.{get_builtin_kind, is_pointer_type, clang_kind_to_string}
use f1x.Transform.Documents.{
  JsonBuilder, to_text, integer_members, type_members, variable_document, dereference_document,
  constant_document, operator_document, member_document, visit_stmt, stmt_to_json,
}
use f1x.Transform.Expressions.{
  Reads, IsSupported, depth, type_of, raw_of, leaf, constant, expression_of,
}

depth_pos : (s : Stmt) → 0 < depth s
depth_pos (implicit_cast i a) = depth_pos a
depth_pos (paren i a) = depth_pos a
depth_pos (binary_operator i r a b) = omega arith
depth_pos _ = omega arith

bind_assoc {ℓ κ μ} :
    {A : Type ℓ} {B : Type κ} {C : Type μ} (m : Result A) (f : A → Result B) (g : B → Result C)
    → ((m >>= f) >>= g) ≡ (m >>= λ a. f a >>= g)
bind_assoc (ok a) f g = refl
bind_assoc (err e) f g = refl

module _ {J : Type 0} (json : Json J) (build : JsonBuilder J) where
  -- The document of a supported expression
  unfoldable pub document : Stmt → J
  document (binary_operator i r a b) =
      operator_document build (type_members build i.type) r (document a ∷ document b ∷ [])
  document (unary_operator i r a) =
      operator_document build (integer_members build i.type) r (document a ∷ [])
  document (implicit_cast i a) = document a
  document (paren i a) = document a
  document (explicit_cast i) = variable_document build i.type i.printed
  document (member i arrow a) = member_document build i arrow a
  document (integer_literal i) =
      constant_document build (clang_kind_to_string (get_builtin_kind i.type)) i.printed
  document (character_literal i) = constant_document build "char" i.printed
  document (decl_ref i d) = variable_document build i.type i.printed
  document (array_subscript i) = variable_document build i.type i.printed
  document _ = build.array []

  -- A supported expression leaves its document on the stack, and nothing else.
  pub visit_stmt_lem :
      (s : Stmt) (path : List J) → IsSupported s → visit_stmt build s path ≡ ok (document s ∷ path)
  unfolding visit_stmt document
  visit_stmt_lem (binary_operator i r a b) path h =
      rw (visit_stmt_lem a path h.0, visit_stmt_lem b (document a ∷ path) h.1)
  visit_stmt_lem (unary_operator i r a) path h = rw (visit_stmt_lem a path h)
  visit_stmt_lem (implicit_cast i a) path h = visit_stmt_lem a path h
  visit_stmt_lem (explicit_cast i) path h = refl
  visit_stmt_lem (paren i a) path h = visit_stmt_lem a path h
  visit_stmt_lem (member i arrow a) path h = refl
  visit_stmt_lem (integer_literal i) path h = refl
  visit_stmt_lem (character_literal i) path h = refl
  visit_stmt_lem (decl_ref i d) path h = refl
  visit_stmt_lem (array_subscript i) path h = refl
  visit_stmt_lem _ path h = elim h [ ]

  module _ (reads : Reads json build) where
    open reads use {member_object, get_string_text, get_array_array}

    pub convert-variable :
        (fuel : ℕ) (t : QualType) (r : String)
        → convert_expression json (suc fuel) (variable_document build t r)
          ≡ ok (leaf NodeKind.variable t r)
    unfolding convert_expression variable_document type_members kind_by_string convert_node
    convert-variable fuel t r = elim (Bool-cases (is_pointer_type t)) [
      | inl e ↦ simp (e, member_object, get_string_text)
      | inr e ↦ simp (e, member_object, get_string_text)
    ]

    pub convert-dereference :
        (fuel : ℕ) (t : QualType) (r base : String)
        → convert_expression json (suc fuel) (dereference_document build t r base)
          ≡ ok (leaf NodeKind.dereference t r)
    unfolding convert_expression dereference_document type_members kind_by_string convert_node
    convert-dereference fuel t r base = elim (Bool-cases (is_pointer_type t)) [
      | inl e ↦ simp (e, member_object, get_string_text)
      | inr e ↦ simp (e, member_object, get_string_text)
    ]

    pub convert-constant :
        (fuel : ℕ) (raw r : String)
        → convert_expression json (suc fuel) (constant_document build raw r) ≡ ok (constant raw r)
    unfolding convert_expression constant_document kind_by_string convert_node
    convert-constant fuel raw r = simp (member_object, get_string_text)

    convert-operator :
        (fuel : ℕ) (t : QualType) (r : String) (args : List J)
        → convert_expression json (suc fuel) (operator_document build (type_members build t) r args)
          ≡ (operator_of json args r (type_of t) >>= λ o. operator_output_type o >>= λ u.
              convert_all json (convert_expression json fuel) args >>= λ xs.
              ok (node NodeKind.operator u o (raw_of t) r xs))
    unfolding convert_expression operator_document type_members kind_by_string convert_node
    convert-operator fuel t r args = elim (Bool-cases (is_pointer_type t)) [
      | inl e ↦ simp (e, member_object, get_string_text, get_array_array)
      | inr e ↦ simp (e, member_object, get_string_text, get_array_array)
    ]

    convert-unary :
        (fuel : ℕ) (t : QualType) (r : String) (args : List J)
        → convert_expression json
            (suc fuel)
            (operator_document build (integer_members build t) r args)
          ≡ (operator_of json args r ExprType.integer >>= λ o. operator_output_type o >>= λ u.
              convert_all json (convert_expression json fuel) args >>= λ xs.
              ok (node NodeKind.operator u o (clang_kind_to_string (get_builtin_kind t)) r xs))
    unfolding convert_expression operator_document integer_members kind_by_string convert_node
    convert-unary fuel t r args = simp (member_object, get_string_text, get_array_array)

    convert-member :
        (fuel : ℕ) (i : Info) (arrow : Bool) (base : Stmt)
        → convert_expression json (suc fuel) (member_document build i arrow base)
          ≡ ok (leaf (if arrow then NodeKind.dereference else NodeKind.variable) i.type i.printed)
    unfolding member_document
    convert-member fuel i true base = convert-dereference fuel i.type i.printed (to_text base)
    convert-member fuel i false base = convert-variable fuel i.type i.printed

    pub convert_lem :
        (s : Stmt) (fuel : ℕ)
        → IsSupported s
        → depth s ≤ fuel
        → convert_expression json fuel (document s) ≡ expression_of s
    unfolding document expression_of operator_of convert_all
    convert_lem s zero h d = absurd (omega (arith, depth_pos s))
    convert_lem (binary_operator i r a b) (suc fuel) h d =
        let x = convert_lem a fuel h.0 (omega arith) in
        let y = convert_lem b fuel h.1 (omega arith) in
        rw (convert-operator fuel i.type r (document a ∷ document b ∷ [])) (simp (x, y, bind_assoc))
    convert_lem (unary_operator i r a) (suc fuel) h d =
        let x = convert_lem a fuel h (omega arith) in
        rw (convert-unary fuel i.type r (document a ∷ [])) (simp (x, bind_assoc))
    convert_lem (implicit_cast i a) (suc fuel) h d = convert_lem a (suc fuel) h d
    convert_lem (explicit_cast i) (suc fuel) h d = convert-variable fuel i.type i.printed
    convert_lem (paren i a) (suc fuel) h d = convert_lem a (suc fuel) h d
    convert_lem (member i arrow a) (suc fuel) h d = convert-member fuel i arrow a
    convert_lem (integer_literal i) (suc fuel) h d =
        convert-constant fuel (clang_kind_to_string (get_builtin_kind i.type)) i.printed
    convert_lem (character_literal i) (suc fuel) h d = convert-constant fuel "char" i.printed
    convert_lem (decl_ref i e) (suc fuel) h d = convert-variable fuel i.type i.printed
    convert_lem (array_subscript i) (suc fuel) h d = convert-variable fuel i.type i.printed
    convert_lem _ (suc fuel) h d = elim h [ ]

    -- stmtToJSON of a supported expression whose depth is within the fuel returns a document,
    -- and convertExpression reads from it the expression with the same operators and texts, and
    -- with the type of the document at a leaf and the operator's output type at an operator,
    -- casts that Clang adds and parentheses left out, or fails as the operator of the repair
    -- tool does.
    pub stmt_to_json-convert_expression :
        (s : Stmt) (fuel : ℕ)
        → IsSupported s
        → depth s ≤ fuel
        → (stmt_to_json build s >>= convert_expression json fuel) ≡ expression_of s
    unfolding stmt_to_json
    stmt_to_json-convert_expression s fuel h d = rw (visit_stmt_lem s [] h) (convert_lem s fuel h d)
