-- ===== src/Transform/Documents.antt =====
-- transform/TransformUtil.cpp: expressions as JSON. The values of rapidjson and their construction are
-- a parameter; an object has its members in the order of the calls of `AddMember`.
use f1x.Prelude.{ℕ, List, [], ◌∷◌, ◌++◌, Bool, String, if◌then◌else◌, Result, ok, err, Error, ◌>>=◌}
use f1x.Transform.Clang.{
  QualType, VarDecl, Info, Stmt, binary_operator, unary_operator, implicit_cast, explicit_cast,
  paren, member, integer_literal, character_literal, decl_ref, array_subscript, break_stmt,
  continue_stmt, info,
}
use f1x.Transform.Types.{get_builtin_kind, is_pointer_type, get_pointee_type, clang_kind_to_string}

-- `json::Value` with `AddMember`, `PushBack`, `SetString`, `SetBool` and `SetInt`
pub record JsonBuilder (J : Type 0) : Type 0 where
  pub object : List (String × J) → J
  pub array : List J → J
  pub text : String → J
  pub flag : Bool → J
  pub number : ℕ → J

-- `toString`
abbrev pub to_text : Stmt → String
to_text (break_stmt i) = "break"
to_text (continue_stmt i) = "continue"
to_text s = (info s).printed

-- `path.top()` and `path.pop()`; on an empty stack they are undefined.
abbrev pub pop {ℓ} : {A : Type ℓ} → List A → Result (A × List A)
pop [] = err Error.out_of_bounds
pop (top ∷ path) = ok (top, path)

module _ {J : Type 0} (build : JsonBuilder J) where
  -- The members `type`, `rawType` and, for a pointer, `incomplete`
  unfoldable pub integer_members : QualType → List (String × J)
  integer_members t =
      ("type", build.text "integer")
      ∷ ("rawType", build.text (clang_kind_to_string (get_builtin_kind t)))
      ∷ []

  unfoldable pub type_members : QualType → List (String × J)
  unfolding integer_members
  type_members t =
      if is_pointer_type t
      then ("type", build.text "pointer")
        ∷ ("rawType", build.text (get_pointee_type t).0)
        ∷ ("incomplete", build.flag (get_pointee_type t).1)
        ∷ []
      else integer_members t

  -- A variable, a member of a structure or another node without arguments
  unfoldable pub variable_document : QualType → String → J
  variable_document t r =
      build.object
        (("kind", build.text "variable") ∷ (type_members t ++ ("repr", build.text r) ∷ []))

  unfoldable pub dereference_document : QualType → String → String → J
  dereference_document t r base = build.object (
      ("kind", build.text "dereference")
      ∷ (type_members t ++ ("repr", build.text r) ∷ ("base", build.text base) ∷ []))

  unfoldable pub constant_document : String → String → J
  constant_document raw r = build.object (
      ("kind", build.text "constant")
      ∷ ("type", build.text "integer")
      ∷ ("rawType", build.text raw)
      ∷ ("repr", build.text r)
      ∷ [])

  unfoldable pub operator_document : List (String × J) → String → List J → J
  operator_document types r args = build.object (
      ("kind", build.text "operator")
      ∷ (types ++ ("repr", build.text r) ∷ ("args", build.array args) ∷ []))

  -- `VisitMemberExpr`
  unfoldable pub member_document : Info → Bool → Stmt → J
  member_document i arrow base =
      if arrow
      then dereference_document i.type i.printed (to_text base)
      else variable_document i.type i.printed

  -- The visitor `StmtToJSON`, on the stack `path`
  unfoldable pub visit_stmt : Stmt → List J → Result (List J)
  visit_stmt (binary_operator i r a b) path = do
    path ← visit_stmt a path
    path ← visit_stmt b path
    right ← pop path
    left ← pop right.1
    ok (operator_document (type_members i.type) r (left.0 ∷ right.0 ∷ []) ∷ left.1)
  visit_stmt (unary_operator i r a) path = do
    path ← visit_stmt a path
    arg ← pop path
    ok (operator_document (integer_members i.type) r (arg.0 ∷ []) ∷ arg.1)
  visit_stmt (implicit_cast i a) path = visit_stmt a path
  visit_stmt (explicit_cast i) path = ok (variable_document i.type i.printed ∷ path)
  visit_stmt (paren i a) path = visit_stmt a path
  visit_stmt (member i arrow a) path = ok (member_document i arrow a ∷ path)
  visit_stmt (integer_literal i) path =
      ok (constant_document (clang_kind_to_string (get_builtin_kind i.type)) i.printed ∷ path)
  visit_stmt (character_literal i) path = ok (constant_document "char" i.printed ∷ path)
  visit_stmt (decl_ref i d) path = ok (variable_document i.type i.printed ∷ path)
  visit_stmt (array_subscript i) path = ok (variable_document i.type i.printed ∷ path)
  visit_stmt _ path = ok path

  -- `StmtToJSON::getValue`
  abbrev get_value : List J → Result J
  get_value (top ∷ []) = ok top
  get_value _ = err Error.assertion_failed

  -- `stmtToJSON`
  unfoldable pub stmt_to_json : Stmt → Result J
  stmt_to_json s = visit_stmt s [] >>= get_value

  -- `varDeclToJSON`
  unfoldable pub var_decl_to_json : VarDecl → J
  var_decl_to_json vd = variable_document vd.type vd.name

  -- `locToJSON`
  unfoldable pub loc_to_json : ℕ → ℕ → ℕ → ℕ → ℕ → J
  loc_to_json file bl bc el ec = build.object (
      ("fileId", build.number file)
      ∷ ("beginLine", build.number bl)
      ∷ ("beginColumn", build.number bc)
      ∷ ("endLine", build.number el)
      ∷ ("endColumn", build.number ec)
      ∷ [])
