-- ===== src/Loading/Shape.antt =====
-- repair/Util.cpp: what loaded expressions look like.
use f1x.Prelude.{
  ℕ, zero, suc, ◌≡◌, refl, List, [], ◌∷◌, All, All-append, Bool, true, false, Option, none, some,
  String, add_text, if◌then◌else◌, Result, ok, assert, Returns, Returns-bind, Returns-bind_eq,
  arith,
}
use f1x.Core.{SchemaApplication}
use f1x.Core.Expressions.{
  NodeKind, ExprType, Operator, Expression, node, Args, nil, cons, kind_eq, raw_type,
}
use f1x.Util.Operators.{kind_by_string, transformation_schema_by_string}
use f1x.Typing.{operator_output_type}
use f1x.Synthesis.Shapes.{Concrete}
use f1x.Synthesis.Abstract.Counts.{count, count_args}
use f1x.Loading.{
  Json, expect, approx_type, text_of_member, number_of_member, elements_of_member, is_complete,
  load_location, operator_of, convert_all, convert_node, convert_expression, load_components,
  load_application, load_applications, load_sa_file, load_schema_applications,
}

-- A kind that is not abstract.
abbrev IsConcreteKind : NodeKind → Type 0
IsConcreteKind NodeKind.parameter = ⊥
IsConcreteKind NodeKind.int2 = ⊥
IsConcreteKind NodeKind.bool2 = ⊥
IsConcreteKind NodeKind.cond3 = ⊥
IsConcreteKind _ = Unit

kind_by_string-IsConcreteKind : (s : String) → Returns IsConcreteKind (kind_by_string s)
unfolding kind_by_string
kind_by_string-IsConcreteKind s = ground arith

abbrev ConcreteArgs : Args → Type 0
ConcreteArgs xs =
    (count_args NodeKind.int2 xs ≡ 0)
    × (count_args NodeKind.cond3 xs ≡ 0)
    × (count_args NodeKind.bool2 xs ≡ 0)
    × (count_args NodeKind.parameter xs ≡ 0)

node-Concrete :
    (k : NodeKind) (t : ExprType) (o : Operator) (w r : String) (xs : Args)
    → IsConcreteKind k
    → ConcreteArgs xs
    → Concrete (node k t o w r xs)
unfolding count
node-Concrete k t o w r xs h c = ground (arith, h, c)

-- In each node with arguments the type is that of the operator.
mutual
  pub HasOutputTypes : Expression → Type 0
  HasOutputTypes (node k t o w r nil) = Unit
  HasOutputTypes (node k t o w r (cons x xs)) =
      (k ≡ NodeKind.operator)
      × (operator_output_type o ≡ ok t)
      × HasOutputTypes x
      × AllOutputTypes xs

  pub AllOutputTypes : Args → Type 0
  AllOutputTypes nil = Unit
  AllOutputTypes (cons x xs) = HasOutputTypes x × AllOutputTypes xs

-- No abstract node, and the output types of the operators.
abbrev pub IsLoaded : Expression → Type 0
IsLoaded e = Concrete e × HasOutputTypes e

abbrev AllLoaded : Args → Type 0
AllLoaded xs = ConcreteArgs xs × AllOutputTypes xs

cons-AllLoaded : (e : Expression) (xs : Args) → IsLoaded e → AllLoaded xs → AllLoaded (cons e xs)
unfolding count AllOutputTypes
cons-AllLoaded e xs h k = (omega (arith, h.0, k.0), (h.1, k.1))

nil-AllLoaded : AllLoaded nil
unfolding count AllOutputTypes
nil-AllLoaded = ((refl, refl, refl, refl), tt)

leaf-IsLoaded :
    (k : NodeKind) (t : ExprType) (w r : String)
    → IsConcreteKind k
    → IsLoaded (node k t Operator.none w r nil)
unfolding HasOutputTypes
leaf-IsLoaded k t w r h = (node-Concrete k t Operator.none w r nil h nil-AllLoaded.0, tt)

node-IsLoaded :
    (k : NodeKind) (t : ExprType) (o : Operator) (w r : String) (xs : Args)
    → IsConcreteKind k
    → kind_eq k NodeKind.operator ≡ true
    → operator_output_type o ≡ ok t
    → AllLoaded xs
    → IsLoaded (node k t o w r xs)
unfolding HasOutputTypes
node-IsLoaded k t o w r nil c e h p = (node-Concrete k t o w r nil c p.0, tt)
node-IsLoaded k t o w r (cons x xs) c e h p =
    (node-Concrete k t o w r (cons x xs) c p.0, (ground (arith, e), h, p.1.0, p.1.1))

assert_lem : (b : Bool) {u : Unit {0}} → assert b ≡ ok u → b ≡ true
assert_lem true e = refl
assert_lem false e = cc

abbrev pub HasLoadedInput : SchemaApplication → Type 0
HasLoadedInput sa = IsLoaded sa.original × All IsLoaded sa.components

module _ {J : Type 0} (json : Json J) where
  convert_all-AllLoaded :
      (f : J → Result Expression)
      → ((j : J) → Returns IsLoaded (f j))
      → (js : List J) → Returns AllLoaded (convert_all json f js)
  unfolding convert_all
  convert_all-AllLoaded f h [] = nil-AllLoaded
  convert_all-AllLoaded f h (j ∷ js) = Returns-bind IsLoaded AllLoaded (f j) _ (h j) λ e p.
      Returns-bind AllLoaded AllLoaded (convert_all json f js) _ (convert_all-AllLoaded f h js)
        λ xs q. cons-AllLoaded e xs p q

  convert_node-IsLoaded :
      (f : J → Result Expression)
      → ((j : J) → Returns IsLoaded (f j))
      → (k : NodeKind) (approx : ExprType) (w r : String) (o : Option J) → IsConcreteKind k
      → Returns IsLoaded (convert_node json f k approx w r o)
  unfolding convert_node
  convert_node-IsLoaded f h k approx w r none c = leaf-IsLoaded k approx w r c
  convert_node-IsLoaded f h k approx w r (some j) c =
      Returns-bind_eq IsLoaded (expect (json.get_array j)) _ λ js e₀.
        Returns-bind_eq IsLoaded (assert (kind_eq k NodeKind.operator)) _ λ u e₁.
          Returns-bind_eq IsLoaded (operator_of json js r approx) _ λ o e₂.
            Returns-bind_eq IsLoaded (operator_output_type o) _ λ t e₃.
              Returns-bind AllLoaded IsLoaded (convert_all json f js) _
                (convert_all-AllLoaded f h js)
                λ xs p. node-IsLoaded k t o w r xs c (assert_lem _ e₁) e₃ p

  convert_expression-IsLoaded :
      (fuel : ℕ) (j : J) → Returns IsLoaded (convert_expression json fuel j)
  unfolding convert_expression
  convert_expression-IsLoaded zero j = tt
  convert_expression-IsLoaded (suc fuel) j =
      Returns-bind_eq IsLoaded (text_of_member json j "kind") _ λ kind_str e₀.
        Returns-bind IsConcreteKind IsLoaded (kind_by_string kind_str) _
          (kind_by_string-IsConcreteKind kind_str)
          λ k c. Returns-bind_eq IsLoaded (text_of_member json j "type") _ λ type_str e₁.
            Returns-bind_eq IsLoaded (text_of_member json j "rawType") _ λ w e₂.
              Returns-bind_eq IsLoaded (text_of_member json j "repr") _ λ r e₃.
                convert_node-IsLoaded (convert_expression json fuel)
                  (convert_expression-IsLoaded fuel) k (approx_type type_str) w r
                  (json.member j "args") c

  load_components-AllLoaded :
      (fuel : ℕ) (js : List J) (types : List String)
      → Returns (λ r. All IsLoaded r.0) (load_components json fuel js types)
  unfolding load_components
  load_components-AllLoaded fuel [] types = tt
  load_components-AllLoaded fuel (c ∷ cs) types =
      let P = λ (r : List Expression × List String). All IsLoaded r.0 in
      Returns-bind IsLoaded P (convert_expression json fuel c) _
        (convert_expression-IsLoaded fuel c)
        λ e p. Returns-bind_eq P (text_of_member json c "type") _ λ type_str e₁.
          Returns-bind_eq P (is_complete json c type_str) _ λ complete e₂.
            Returns-bind P P
              (load_components json fuel cs
                (if complete then add_text types (raw_type e) else types))
              _
              (load_components-AllLoaded fuel cs
                (if complete then add_text types (raw_type e) else types))
              λ r q. (p, q)

  load_application-IsLoaded :
      (fuel : ℕ) (app : J) → Returns HasLoadedInput (load_application json fuel app)
  unfolding load_application
  load_application-IsLoaded fuel app =
      Returns-bind_eq HasLoadedInput (number_of_member json app "appId") _ λ app_id e₀.
        Returns-bind_eq HasLoadedInput (text_of_member json app "schema") _ λ schema_str e₁.
          Returns-bind_eq HasLoadedInput (transformation_schema_by_string schema_str) _ λ schema e₂.
            Returns-bind_eq HasLoadedInput (load_location json app) _ λ place e₃.
              Returns-bind_eq HasLoadedInput (text_of_member json app "context") _ λ context_str e₄.
                Returns-bind_eq HasLoadedInput (expect (json.member app "expression")) _ λ j e₅.
                  Returns-bind IsLoaded HasLoadedInput (convert_expression json fuel j) _
                    (convert_expression-IsLoaded fuel j)
                    λ e p.
                      Returns-bind_eq HasLoadedInput (elements_of_member json app "components") _
                        λ js e₆.
                          Returns-bind (λ r. All IsLoaded r.0) HasLoadedInput
                            (load_components json fuel js []) _
                            (load_components-AllLoaded fuel js []) λ r q. (p, q)

  load_applications-AllLoaded :
      (fuel : ℕ) (js : List J) → Returns (All HasLoadedInput) (load_applications json fuel js)
  unfolding load_applications
  load_applications-AllLoaded fuel [] = tt
  load_applications-AllLoaded fuel (j ∷ js) =
      Returns-bind HasLoadedInput (All HasLoadedInput) (load_application json fuel j) _
        (load_application-IsLoaded fuel j)
        λ sa p.
          Returns-bind (All HasLoadedInput) (All HasLoadedInput) (load_applications json fuel js) _
            (load_applications-AllLoaded fuel js) λ rest q. (p, q)

  load_sa_file-AllLoaded :
      (fuel : ℕ) (d : J) → Returns (All HasLoadedInput) (load_sa_file json fuel d)
  unfolding load_sa_file
  load_sa_file-AllLoaded fuel d =
      Returns-bind_eq (All HasLoadedInput) (expect (json.get_array d)) _
        λ js e. load_applications-AllLoaded fuel js

  -- Where the schema applications of all documents are loaded, their expressions and components hold no
  -- abstract node, and in each node with arguments the type is the output type of the operator.
  pub load_schema_applications-AllLoaded :
      (fuel : ℕ) (ds : List J)
      → Returns (All HasLoadedInput) (load_schema_applications json fuel ds)
  unfolding load_schema_applications
  load_schema_applications-AllLoaded fuel [] = tt
  load_schema_applications-AllLoaded fuel (d ∷ ds) =
      Returns-bind (All HasLoadedInput) (All HasLoadedInput) (load_sa_file json fuel d) _
        (load_sa_file-AllLoaded fuel d)
        λ xs p.
          Returns-bind (All HasLoadedInput) (All HasLoadedInput)
            (load_schema_applications json fuel ds) _ (load_schema_applications-AllLoaded fuel ds)
            λ ys q. All-append HasLoadedInput xs ys p q
