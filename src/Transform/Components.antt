-- ===== src/Transform/Components.antt =====
-- transform/TransformUtil.cpp: the components of a schema application, which are the variables, members
-- and array elements in an expression and those that are visible at it.
pub mod Made
pub mod Visible
pub mod Distinct
use f1x.Prelude.{
  ℕ, zero, suc, List, [], ◌∷◌, ◌++◌, Bool, true, false, ◌&&◌, not, ltb, Option, none, some, String,
  str_eq, if◌then◌else◌, Result, ok, err, Error, ◌>>=◌,
}
use f1x.Loading.{Json, text_of_member}
use f1x.Transform.Clang.{
  QualType, VarDecl, Decl, var_decl, other_decl, Info, Stmt, binary_operator, unary_operator,
  implicit_cast, explicit_cast, paren, member, decl_ref, array_subscript, call, compound, decl_stmt,
  if_stmt, Stmts, no_stmts, stmt, DynNode, function, translation_unit, statement, Parents,
  SourceManager,
}
use f1x.Transform.Types.{is_suitable_component_type}
use f1x.Transform.Documents.{JsonBuilder, stmt_to_json, var_decl_to_json}
use f1x.Transform.Places.{get_decl_expanded_line, first_line}

module _ {J : Type 0} (json : Json J) where
  -- Whether no earlier component has the text of this one
  unfoldable pub is_new : J → List J → Result Bool
  is_new c [] = ok true
  is_new c (old ∷ result) = do
    r ← text_of_member json c "repr"
    o ← text_of_member json old "repr"
    rest ← is_new c result
    ok (if str_eq r o then false else rest)

  -- The loop over the found components, with the result so far
  unfoldable pub keep_new : List J → List J → Result (List J)
  unfolding is_new
  keep_new [] result = ok result
  keep_new (c ∷ cs) result = do
    fresh ← is_new c result
    keep_new cs (if fresh then result ++ c ∷ [] else result)

module _ {J : Type 0} (build : JsonBuilder J) where
  -- `collected.push_back(stmtToJSON(Node, …))`
  abbrev pushed_document : Stmt → Result (List J)
  pushed_document s = stmt_to_json build s >>= λ j. ok (j ∷ [])

  -- The same under `!suitableTypes || isSuitableComponentType(Node->getType())`
  unfoldable pub collect_suitable : Bool → Info → Stmt → Result (List J)
  collect_suitable suitable_types i s =
      if not suitable_types
      then pushed_document s
      else if is_suitable_component_type i.type
      then pushed_document s
      else ok []

  -- `collectFromExpression`: what the visitor `CollectComponents` collects
  unfoldable pub collect_from_expression : Bool → Bool → Stmt → Result (List J)
  unfolding collect_suitable
  collect_from_expression ignore_casts suitable_types (binary_operator i r a b) = do
    left ← collect_from_expression ignore_casts suitable_types a
    right ← collect_from_expression ignore_casts suitable_types b
    ok (left ++ right)
  collect_from_expression ignore_casts suitable_types (unary_operator i r a) =
      collect_from_expression ignore_casts suitable_types a
  collect_from_expression ignore_casts suitable_types (implicit_cast i a) =
      collect_from_expression ignore_casts suitable_types a
  collect_from_expression ignore_casts suitable_types (explicit_cast i) =
      if ignore_casts then ok [] else pushed_document (explicit_cast i)
  collect_from_expression ignore_casts suitable_types (paren i a) =
      collect_from_expression ignore_casts suitable_types a
  collect_from_expression ignore_casts suitable_types (member i arrow a) =
      collect_suitable suitable_types i (member i arrow a)
  collect_from_expression ignore_casts suitable_types (decl_ref i d) =
      collect_suitable suitable_types i (decl_ref i d)
  collect_from_expression ignore_casts suitable_types (array_subscript i) =
      collect_suitable suitable_types i (array_subscript i)
  collect_from_expression ignore_casts suitable_types _ = ok []

  -- A variable of a suitable type
  abbrev pub suitable_variable : VarDecl → List J
  suitable_variable vd =
      if is_suitable_component_type vd.type then var_decl_to_json build vd ∷ [] else []

  -- The parameters of a function
  unfoldable pub parameter_documents : List VarDecl → List J
  parameter_documents [] = []
  parameter_documents (vd ∷ vds) = suitable_variable vd ++ parameter_documents vds

  -- The arguments of a call, each searched for components
  unfoldable pub collect_arguments : Stmts → Result (List J)
  unfolding collect_from_expression
  collect_arguments no_stmts = ok []
  collect_arguments (stmt s rest) = do
    here ← collect_from_expression true true s
    there ← collect_arguments rest
    ok (here ++ there)

  -- `if (isa<IfStmt>(*it))`, with a call as the branch
  unfoldable pub collect_branch : Stmt → Result (List J)
  unfolding collect_arguments
  collect_branch (if_stmt i c (call i' args)) = collect_arguments args
  collect_branch _ = ok []

  module _ (sm : SourceManager) (line : ℕ) where
    -- The global variables above the line
    unfoldable pub globals : List Decl → List J
    globals [] = []
    globals (var_decl vd ∷ ds) =
        (if ltb (get_decl_expanded_line sm vd) line then suitable_variable vd else []) ++ globals ds
    globals (other_decl ∷ ds) = globals ds

    -- The first parent of the function, if it is the translation unit
    unfoldable pub visible_globals : List DynNode → List J
    unfolding globals
    visible_globals (translation_unit ds ∷ ps) = globals ds
    visible_globals _ = []

    -- `if (isa<BinaryOperator>(*it))`: an assignment to a variable; a reference to anything else fails
    -- the assertion of `cast<VarDecl>`.
    unfoldable pub from_assignment : Stmt → Result (List J)
    from_assignment (binary_operator i r (decl_ref i' d) b) =
        if ltb (first_line sm (binary_operator i r (decl_ref i' d) b)) line && str_eq r "="
        then (elim d [ none ↦ err Error.assertion_failed | some vd ↦ ok (suitable_variable vd) ])
        else ok []
    from_assignment _ = ok []

    -- `if (isa<DeclStmt>(*it))`: the declarations with an initial value
    unfoldable pub initialized : Bool → List Decl → List J
    initialized above [] = []
    initialized above (var_decl vd ∷ ds) =
        (if above && vd.has_init then suitable_variable vd else []) ++ initialized above ds
    initialized above (other_decl ∷ ds) = initialized above ds

    unfoldable pub from_declaration : Stmt → List J
    unfolding initialized
    from_declaration (decl_stmt i ds) = initialized (ltb (first_line sm (decl_stmt i ds)) line) ds
    from_declaration _ = []

    -- The last part of the loop's body, on any statement above the line
    unfoldable pub from_statement : Stmt → Result (List J)
    unfolding collect_from_expression collect_branch
    from_statement s =
        if ltb (first_line sm s) line
        then (collect_from_expression true true s >>= λ found.
            collect_branch s >>= λ branch. ok (found ++ branch))
        else ok []

    -- The loop over the statements of a block
    unfoldable pub from_body : Stmts → Result (List J)
    unfolding from_assignment from_declaration from_statement
    from_body no_stmts = ok []
    from_body (stmt s rest) = do
      assigned ← from_assignment s
      found ← from_statement s
      later ← from_body rest
      ok (assigned ++ (from_declaration s ++ (found ++ later)))

    unfoldable pub from_block : DynNode → Result (List J)
    unfolding from_body
    from_block (statement (compound i body)) = from_body body
    from_block _ = ok []

    -- `collectVisible`, on fuel for the nodes above
    unfoldable pub collect_visible : Bool → Parents → ℕ → DynNode → Result (List J)
    unfolding parameter_documents visible_globals from_block
    collect_visible use_globals parents zero n = err Error.out_of_fuel
    collect_visible use_globals parents (suc fuel) (function address params) = ok (
        parameter_documents params
        ++ (if use_globals then visible_globals (parents (function address params)) else []))
    collect_visible use_globals parents (suc fuel) n = do
      here ← from_block n
      above ← elim (parents n) [ [] ↦ ok [] | p ∷ ps ↦ collect_visible use_globals parents fuel p ]
      ok (here ++ above)

    -- `collectComponents`
    unfoldable pub collect_components : Json J → Bool → Parents → ℕ → Stmt → Result (List J)
    unfolding collect_from_expression collect_visible keep_new
    collect_components json use_globals parents fuel s = do
      from_expr ← collect_from_expression false false s
      visible ← collect_visible use_globals parents fuel (statement s)
      result ← keep_new json from_expr []
      keep_new json visible result
