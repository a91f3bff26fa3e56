-- ===== src/Transform/Components/Visible.antt =====
-- transform/TransformUtil.cpp: the collection of visible components ends.
use f1x.Prelude.{
  ℕ, zero, suc, ◌<◌, ◌≡◌, refl, List, [], ◌∷◌, ◌++◌, Bool, true, none, some, ok, arith,
}
use f1x.Transform.Clang.{
  VarDecl, Decl, var_decl, other_decl, Stmt, binary_operator, decl_ref, compound, decl_stmt, Stmts,
  no_stmts, stmt, DynNode, function, translation_unit, statement, other_node, Parents,
  SourceManager,
}
use f1x.Transform.Documents.{JsonBuilder}
use f1x.Transform.Components.{
  parameter_documents, globals, visible_globals, from_assignment, initialized, from_declaration,
  from_statement, from_body, from_block, collect_visible,
}
use f1x.Transform.Components.Made.{
  Makes, AreMade, append-AreMade, nothing, if-AreMade, ok-Makes, if-Makes, bind-Makes, both-Makes,
  suitable_variable-AreMade, collect_from_expression-Makes, collect_branch-Makes,
}

-- Assignments to references are assignments to variables, as in C.
abbrev AssignsVariable : Stmt → Type 0
AssignsVariable (binary_operator i r (decl_ref i' none) b) = ⊥
AssignsVariable _ = Unit

abbrev AssignVariables : Stmts → Type 0
AssignVariables no_stmts = Unit
AssignVariables (stmt s rest) = AssignsVariable s × AssignVariables rest

abbrev pub IsBlock : DynNode → Type 0
IsBlock (statement (compound i body)) = AssignVariables body
IsBlock _ = Unit

-- The first parents form chains that end: `rank` falls along them.
pub record IsRanked (parents : Parents) (rank : DynNode → ℕ) : Type 0 where
  pub falls : (n p : DynNode) (ps : List DynNode) → parents n ≡ p ∷ ps → rank p < rank n
  pub blocks : (n p : DynNode) (ps : List DynNode) → parents n ≡ p ∷ ps → IsBlock p

module _ {J : Type 0} (build : JsonBuilder J) where
  parameter_documents-AreMade : (vds : List VarDecl) → AreMade build (parameter_documents build vds)
  unfolding parameter_documents
  parameter_documents-AreMade [] = (nothing build)
  parameter_documents-AreMade (vd ∷ vds) =
      append-AreMade build _ _ (suitable_variable-AreMade build vd)
        (parameter_documents-AreMade vds)

  module _ (sm : SourceManager) (line : ℕ) where
    globals-AreMade : (ds : List Decl) → AreMade build (globals build sm line ds)
    unfolding globals
    globals-AreMade [] = (nothing build)
    globals-AreMade (var_decl vd ∷ ds) =
        append-AreMade build _ _ (if-AreMade build _ _ (suitable_variable-AreMade build vd))
          (globals-AreMade ds)
    globals-AreMade (other_decl ∷ ds) = globals-AreMade ds

    visible_globals-AreMade : (ps : List DynNode) → AreMade build (visible_globals build sm line ps)
    unfolding visible_globals
    visible_globals-AreMade (translation_unit ds ∷ ps) = globals-AreMade ds
    visible_globals-AreMade _ = (nothing build)

    from_assignment-Makes :
        (s : Stmt) → AssignsVariable s → Makes build (from_assignment build sm line s)
    unfolding from_assignment
    from_assignment-Makes (binary_operator i r (decl_ref i' (some vd)) b) h =
        if-Makes build _ _ _ (ok-Makes build _ (suitable_variable-AreMade build vd))
          (ok-Makes build [] (nothing build))
    from_assignment-Makes (binary_operator i r (decl_ref i' none) b) h = elim h [ ]
    from_assignment-Makes _ h = ok-Makes build [] (nothing build)

    initialized-AreMade :
        (above : Bool) (ds : List Decl) → AreMade build (initialized build sm line above ds)
    unfolding initialized
    initialized-AreMade above [] = (nothing build)
    initialized-AreMade above (var_decl vd ∷ ds) =
        append-AreMade build _ _ (if-AreMade build _ _ (suitable_variable-AreMade build vd))
          (initialized-AreMade above ds)
    initialized-AreMade above (other_decl ∷ ds) = initialized-AreMade above ds

    from_declaration-AreMade : (s : Stmt) → AreMade build (from_declaration build sm line s)
    unfolding from_declaration
    from_declaration-AreMade (decl_stmt i ds) = initialized-AreMade _ ds
    from_declaration-AreMade _ = (nothing build)

    from_statement-Makes : (s : Stmt) → Makes build (from_statement build sm line s)
    unfolding from_statement
    from_statement-Makes s =
        if-Makes build _ _ _
          (both-Makes build _ _ (collect_from_expression-Makes build true true s)
            (collect_branch-Makes build s))
          (ok-Makes build [] (nothing build))

    from_body-Makes :
        (body : Stmts) → AssignVariables body → Makes build (from_body build sm line body)
    unfolding from_body
    from_body-Makes no_stmts h = ok-Makes build [] (nothing build)
    from_body-Makes (stmt s rest) h = bind-Makes build _ _ (from_assignment-Makes s h.0) λ x p.
        bind-Makes build _ _ (from_statement-Makes s) λ y q.
          bind-Makes build _ _ (from_body-Makes rest h.1) λ z r. ok-Makes build _ (
            append-AreMade build x _ p (
              append-AreMade build _ (y ++ z) (from_declaration-AreMade s)
                (append-AreMade build y z q r)))

    from_block-Makes : (n : DynNode) → IsBlock n → Makes build (from_block build sm line n)
    unfolding from_block
    from_block-Makes (statement (compound i body)) h = from_body-Makes body h
    from_block-Makes _ h = ok-Makes build [] (nothing build)

    module _ (use_globals : Bool) (parents : Parents) (rank : DynNode → ℕ)
        (ranked : IsRanked parents rank) where
      above-Makes :
          (fuel : ℕ) (n : DynNode) (ps : List DynNode)
          → ((p : DynNode)
              → IsBlock p
              → rank p < fuel
              → Makes build (collect_visible build sm line use_globals parents fuel p))
          → rank n < suc fuel
          → parents n ≡ ps
          → Makes build (elim ps [
            | [] ↦ ok []
            | p ∷ rest ↦ collect_visible build sm line use_globals parents fuel p
          ])
      above-Makes fuel n [] ih k e = ok-Makes build [] (nothing build)
      above-Makes fuel n (p ∷ ps) ih k e =
          let less = ranked.falls n p ps e in ih p (ranked.blocks n p ps e) (omega arith)

      -- Where the rank of a node is below the fuel, `collectVisible` returns documents of components.
      pub collect_visible-Makes :
          (fuel : ℕ) (n : DynNode)
          → IsBlock n
          → rank n < fuel
          → Makes build (collect_visible build sm line use_globals parents fuel n)
      unfolding collect_visible
      collect_visible-Makes zero n h k = elim k [ ]
      collect_visible-Makes (suc fuel) (function address params) h k = ok-Makes build _ (
          append-AreMade build _ _ (parameter_documents-AreMade params) (
            if-AreMade build use_globals _
              (visible_globals-AreMade (parents (function address params)))))
      collect_visible-Makes (suc fuel) (translation_unit ds) h k =
          both-Makes build _ _ (from_block-Makes (translation_unit ds) h)
            (above-Makes fuel (translation_unit ds) _ (collect_visible-Makes fuel) k refl)
      collect_visible-Makes (suc fuel) (statement s) h k =
          both-Makes build _ _ (from_block-Makes (statement s) h)
            (above-Makes fuel (statement s) _ (collect_visible-Makes fuel) k refl)
      collect_visible-Makes (suc fuel) (other_node a) h k =
          both-Makes build _ _ (from_block-Makes (other_node a) h)
            (above-Makes fuel (other_node a) _ (collect_visible-Makes fuel) k refl)
