-- ===== src/Loading/Termination.antt =====
-- repair/Util.cpp: the recursion of `convertExpression` ends.
use f1x.Prelude.{
  ℕ, zero, suc, ◌<◌, ◌≡◌, ◌≢◌, refl, List, [], ◌∷◌, All, All-mono, Bool, true, false, Option, none,
  some, String, Result, ok, err, Error, ◌>>=◌, assert, arith, inl, inr, Option-cases, if◌then◌else◌,
}
use f1x.Core.Expressions.{NodeKind, ExprType, Operator, Expression, node, nil, cons, kind_eq}
use f1x.Util.Operators.{kind_by_string, binary_operator_by_string, unary_operator_by_string}
use f1x.Typing.{operator_output_type}
use f1x.Loading.{
  Json, expect, approx_type, text_of_member, operator_of, convert_all, convert_node,
  convert_expression,
}

-- The code ends, in a value or in an error of its own.
abbrev Ends {ℓ} : {A : Type ℓ} → Result A → Type ℓ
Ends m = m ≢ err Error.out_of_fuel

Ends-bind {ℓ κ} :
    {A : Type ℓ} {B : Type κ} (m : Result A) (f : A → Result B)
    → Ends m
    → ((a : A) → Ends (f a))
    → Ends (m >>= f)
Ends-bind (ok a) f h k = k a
Ends-bind (err Error.invalid_argument) f h k = λ p. cc p
Ends-bind (err Error.parse_error) f h k = λ p. cc p
Ends-bind (err Error.assertion_failed) f h k = λ p. cc p
Ends-bind (err Error.out_of_bounds) f h k = λ p. cc p
Ends-bind (err Error.out_of_fuel) f h k = λ p. h refl

ok-Ends {ℓ} : {A : Type ℓ} (a : A) → Ends (ok a)
ok-Ends a = λ p. cc p

if-Ends {ℓ} : {A : Type ℓ} (b : Bool) (m n : Result A) → Ends m → Ends n → Ends (if b then m else n)
if-Ends true m n h k = h
if-Ends false m n h k = k

parse_error-Ends {ℓ} : {A : Type ℓ} → Ends {A = A} (err Error.parse_error)
parse_error-Ends = λ p. cc p

kind_by_string-Ends : (s : String) → Ends (kind_by_string s)
unfolding kind_by_string
kind_by_string-Ends s = ground arith

unary_operator_by_string-Ends : (s : String) → Ends (unary_operator_by_string s)
unfolding unary_operator_by_string
unary_operator_by_string-Ends s = ground arith

binary_operator_by_string-Ends : (s : String) (t : ExprType) → Ends (binary_operator_by_string s t)
unfolding binary_operator_by_string
binary_operator_by_string-Ends s t = search (if-Ends, ok-Ends, parse_error-Ends) fits 4000 depth 60

operator_output_type-Ends : (o : Operator) → Ends (operator_output_type o)
unfolding operator_output_type
operator_output_type-Ends o = ground arith

expect-Ends {ℓ} : {A : Type ℓ} (o : Option A) → Ends (expect o)
expect-Ends none = λ p. cc p
expect-Ends (some a) = λ p. cc p

assert-Ends : (b : Bool) → Ends (assert b)
assert-Ends true = λ p. cc p
assert-Ends false = λ p. cc p

module _ {J : Type 0} (json : Json J) where
  text_of_member-Ends : (j : J) (name : String) → Ends (text_of_member json j name)
  text_of_member-Ends j name =
      Ends-bind (expect (json.member j name)) _ (expect-Ends (json.member j name))
        λ v. expect-Ends (json.get_string v)

  operator_of-Ends : (js : List J) (r : String) (t : ExprType) → Ends (operator_of json js r t)
  unfolding operator_of
  operator_of-Ends (a ∷ []) r t = unary_operator_by_string-Ends r
  operator_of-Ends (a ∷ b ∷ []) r t = binary_operator_by_string-Ends r t
  operator_of-Ends [] r t = parse_error-Ends
  operator_of-Ends (a ∷ b ∷ c ∷ js) r t = parse_error-Ends

  convert_all-Ends :
      (f : J → Result Expression) (js : List J)
      → All (λ j. Ends (f j)) js
      → Ends (convert_all json f js)
  unfolding convert_all
  convert_all-Ends f [] h = ok-Ends nil
  convert_all-Ends f (j ∷ js) h = Ends-bind (f j) _ h.0 λ e.
      Ends-bind (convert_all json f js) _ (convert_all-Ends f js h.1) λ rest. ok-Ends (cons e rest)

  -- A measure of the documents that falls from a value to the elements of its member `args`
  abbrev pub IsDepth : (J → ℕ) → Type 0
  IsDepth depth =
      (j args : J) (js : List J)
      → json.member j "args" ≡ some args
      → json.get_array args ≡ some js
      → All (λ a. depth a < depth j) js

  convert_node-Ends :
      (f : J → Result Expression) (k : NodeKind) (approx : ExprType) (w r : String)
      (args : Option J)
      → ((a : J) (js : List J)
          → args ≡ some a
          → json.get_array a ≡ some js
          → All (λ j. Ends (f j)) js)
      → Ends (convert_node json f k approx w r args)
  unfolding convert_node
  convert_node-Ends f k approx w r none h = ok-Ends (node k approx Operator.none w r nil)
  convert_node-Ends f k approx w r (some a) h = elim (Option-cases (json.get_array a)) [
    | inl e ↦ rw e λ p. cc p
    | inr (js, e) ↦ rw e (
        Ends-bind (assert (kind_eq k NodeKind.operator)) _
          (assert-Ends (kind_eq k NodeKind.operator))
          λ u. Ends-bind (operator_of json js r approx) _ (operator_of-Ends js r approx) λ o.
            Ends-bind (operator_output_type o) _ (operator_output_type-Ends o) λ t.
              Ends-bind (convert_all json f js) _ (convert_all-Ends f js (h a js refl e))
                λ args. ok-Ends (node k t o w r args))
  ]

  -- Where the values of the member `args` are less deep than the value that has them, as those of a
  -- document are, and the fuel is more than the depth of a value, its conversion ends: in an
  -- expression, or in an error of the code.
  pub convert_expression-ends :
      (depth : J → ℕ) (fuel : ℕ) (j : J)
      → IsDepth depth
      → depth j < fuel
      → convert_expression json fuel j ≢ err Error.out_of_fuel
  unfolding convert_expression
  convert_expression-ends depth zero j falls enough = omega (arith, enough)
  convert_expression-ends depth (suc fuel) j falls enough =
      Ends-bind (text_of_member json j "kind") _ (text_of_member-Ends j "kind") λ kind_str.
        Ends-bind (kind_by_string kind_str) _ (kind_by_string-Ends kind_str) λ k.
          Ends-bind (text_of_member json j "type") _ (text_of_member-Ends j "type") λ type_str.
            Ends-bind (text_of_member json j "rawType") _ (text_of_member-Ends j "rawType") λ w.
              Ends-bind (text_of_member json j "repr") _ (text_of_member-Ends j "repr") λ r.
                convert_node-Ends (convert_expression json fuel) k (approx_type type_str) w r
                  (json.member j "args")
                  λ a js e e'.
                    All-mono (λ x. depth x < depth j) (λ x. Ends (convert_expression json fuel x))
                      (λ x less.
                        convert_expression-ends depth fuel x falls (omega (arith, less, enough)))
                      js (falls j a js e e')
