-- ===== src/Transform/Components/Made.antt =====
-- transform/TransformUtil.cpp: every collected component is a variable or a dereference, and the
-- collection ends.
use f1x.Prelude.{
  ◌≡◌, refl, List, [], ◌∷◌, ◌++◌, map, Bool, true, false, not, Option, none, some, String,
  if◌then◌else◌, Result, ok, ◌>>=◌, ap, sym,
}
use mathlib.Core.List.{map-append}
use f1x.Transform.Clang.{
  QualType, VarDecl, Info, Stmt, binary_operator, unary_operator, implicit_cast, explicit_cast,
  paren, member, decl_ref, array_subscript, call, if_stmt, Stmts, no_stmts, stmt,
}
use f1x.Transform.Types.{is_suitable_component_type}
use f1x.Transform.Documents.{
  JsonBuilder, to_text, variable_document, dereference_document, member_document, visit_stmt,
  stmt_to_json, var_decl_to_json,
}
use f1x.Transform.Components.{
  suitable_variable, collect_suitable, collect_from_expression, collect_arguments, collect_branch,
}

-- What the document of a component tells: the text of the pointer, for a dereference, its type and its
-- text.
pub record Component : Type 0 where
  pub base : Option String
  pub type : QualType
  pub repr : String

abbrev plain : Info → Component
plain i = record { base = none; type = i.type; repr = i.printed }

module _ {J : Type 0} (build : JsonBuilder J) where
  abbrev pub document_of : Option String → QualType → String → J
  document_of none t r = variable_document build t r
  document_of (some b) t r = dereference_document build t r b

  unfoldable pub component_document : Component → J
  component_document c = document_of c.base c.type c.repr

  -- The code returns documents of components.
  abbrev pub Makes : Result (List J) → Type 0
  Makes m = (cs : List Component) × (m ≡ ok (map component_document cs))

  abbrev pub AreMade : List J → Type 0
  AreMade js = (cs : List Component) × (js ≡ map component_document cs)

  pub append-AreMade : (xs ys : List J) → AreMade xs → AreMade ys → AreMade (xs ++ ys)
  append-AreMade xs ys (cs, e) (ds, e') =
      (cs ++ ds, rw (e, e') (sym (map-append component_document cs ds)))

  pub nothing : AreMade []
  nothing = ([], refl)

  pub if-AreMade : (b : Bool) (xs : List J) → AreMade xs → AreMade (if b then xs else [])
  if-AreMade true xs h = h
  if-AreMade false xs h = nothing

  pub ok-Makes : (js : List J) → AreMade js → Makes (ok js)
  ok-Makes js (cs, e) = (cs, ap ok e)

  pub if-Makes : (b : Bool) (m n : Result (List J)) → Makes m → Makes n → Makes (if b then m else n)
  if-Makes true m n h k = h
  if-Makes false m n h k = k

  pub bind-Makes :
      (m : Result (List J)) (f : List J → Result (List J))
      → Makes m
      → ((js : List J) → AreMade js → Makes (f js))
      → Makes (m >>= f)
  bind-Makes m f (cs, e) k = rw e (k (map component_document cs) (cs, refl))

  -- Two parts, put together.
  pub both-Makes :
      (m n : Result (List J)) → Makes m → Makes n → Makes (m >>= λ x. n >>= λ y. ok (x ++ y))
  both-Makes m n h k =
      bind-Makes m (λ x. n >>= λ y. ok (x ++ y)) h
        λ x p. bind-Makes n (λ y. ok (x ++ y)) k λ y q. ok-Makes (x ++ y) (append-AreMade x y p q)

  variable-Makes :
      (s : Stmt) (c : Component)
      → stmt_to_json build s ≡ ok (component_document c)
      → Makes (stmt_to_json build s >>= λ j. ok (j ∷ []))
  variable-Makes s c e = (c ∷ [], rw e)

  pub suitable_variable-AreMade : (vd : VarDecl) → AreMade (suitable_variable build vd)
  unfolding component_document var_decl_to_json
  suitable_variable-AreMade vd =
      if-AreMade (is_suitable_component_type vd.type) (var_decl_to_json build vd ∷ [])
        (record { base = none; type = vd.type; repr = vd.name } ∷ [], refl)

  collect_suitable-Makes :
      (suitable : Bool) (i : Info) (s : Stmt) (c : Component)
      → stmt_to_json build s ≡ ok (component_document c)
      → Makes (collect_suitable build suitable i s)
  unfolding collect_suitable
  collect_suitable-Makes suitable i s c e = if-Makes (not suitable) _ _ (variable-Makes s c e) (
      if-Makes (is_suitable_component_type i.type) _ _ (variable-Makes s c e) (ok-Makes [] nothing))

  stmt_to_json-member :
      (i : Info) (arrow : Bool) (a : Stmt)
      → (c : Component) × (stmt_to_json build (member i arrow a) ≡ ok (component_document c))
  unfolding stmt_to_json visit_stmt member_document component_document
  stmt_to_json-member i true a =
      (record { base = some (to_text a); type = i.type; repr = i.printed }, refl)
  stmt_to_json-member i false a = (plain i, refl)

  stmt_to_json-cast :
      (i : Info) → stmt_to_json build (explicit_cast i) ≡ ok (component_document (plain i))
  unfolding stmt_to_json visit_stmt component_document
  stmt_to_json-cast i = refl

  stmt_to_json-ref :
      (i : Info) (d : Option VarDecl)
      → stmt_to_json build (decl_ref i d) ≡ ok (component_document (plain i))
  unfolding stmt_to_json visit_stmt component_document
  stmt_to_json-ref i d = refl

  stmt_to_json-subscript :
      (i : Info) → stmt_to_json build (array_subscript i) ≡ ok (component_document (plain i))
  unfolding stmt_to_json visit_stmt component_document
  stmt_to_json-subscript i = refl

  pub collect_from_expression-Makes :
      (ignore_casts suitable : Bool) (s : Stmt)
      → Makes (collect_from_expression build ignore_casts suitable s)
  unfolding collect_from_expression
  collect_from_expression-Makes x y (binary_operator i r a b) =
      both-Makes _ _ (collect_from_expression-Makes x y a) (collect_from_expression-Makes x y b)
  collect_from_expression-Makes x y (unary_operator i r a) = collect_from_expression-Makes x y a
  collect_from_expression-Makes x y (implicit_cast i a) = collect_from_expression-Makes x y a
  collect_from_expression-Makes x y (explicit_cast i) =
      if-Makes x _ _ (ok-Makes [] nothing)
        (variable-Makes (explicit_cast i) (plain i) (stmt_to_json-cast i))
  collect_from_expression-Makes x y (paren i a) = collect_from_expression-Makes x y a
  collect_from_expression-Makes x y (member i arrow a) =
      let (c, e) = stmt_to_json-member i arrow a in
      collect_suitable-Makes y i (member i arrow a) c e
  collect_from_expression-Makes x y (decl_ref i d) =
      collect_suitable-Makes y i (decl_ref i d) (plain i) (stmt_to_json-ref i d)
  collect_from_expression-Makes x y (array_subscript i) =
      collect_suitable-Makes y i (array_subscript i) (plain i) (stmt_to_json-subscript i)
  collect_from_expression-Makes x y _ = ok-Makes [] nothing

  pub collect_arguments-Makes : (args : Stmts) → Makes (collect_arguments build args)
  unfolding collect_arguments
  collect_arguments-Makes no_stmts = ok-Makes [] nothing
  collect_arguments-Makes (stmt s rest) =
      both-Makes _ _ (collect_from_expression-Makes true true s) (collect_arguments-Makes rest)

  pub collect_branch-Makes : (s : Stmt) → Makes (collect_branch build s)
  unfolding collect_branch
  collect_branch-Makes (if_stmt i c (call i' args)) = collect_arguments-Makes args
  collect_branch-Makes _ = ok-Makes [] nothing
