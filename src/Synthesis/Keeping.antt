-- ===== src/Synthesis/Keeping.antt =====
-- repair/Synthesis.cpp: the single steps of `baseSubstitutions` keep the type of an expression.
use f1x.Prelude.{
  List, [], ◌∷◌, map, All, All-append, All-map, All-flat_map, All-total, Bool, true, false, ◌≡◌,
  refl, sym, arith, ok, Returns, Returns-bind_eq, if◌then◌else◌, Bool-cases, inl, inr, ◌&&◌,
  &&_split, str_eq, String,
}
use f1x.Core.{SynthesisRule}
use f1x.Core.Expressions.{
  NodeKind, ExprType, Operator, Expression, node, Args, nil, cons, type, op, raw_type, is_pointer,
  is_integer, is_boolean, null_node,
}
use f1x.Typing.{operator_output_type, operator_first_arg_type, is_pointer_arithmetic}
use f1x.Typing.Correct.{Accepts, Agree, WellTyped}
use f1x.Synthesis.Operators.{is_simplifiable, bool2_node}
use f1x.Synthesis.Depth.{expression_depth, substitution_distance}
use f1x.Synthesis.Candidates.{
  Modification, by_rule, integers_by, pointers_like, boolean_substitution, variable_substitutions,
  constant_substitutions, leaf_substitutions, with_operator, with_args, operator_mutations,
  operator_substitutions, unsigned_cast, simplify_one, simplify_two, put_back, atomic_edit,
}

-- A node with arguments is an operator, of the operator's type if it may be simplified.
abbrev pub Elaborated : Expression → Type 0
Elaborated (node k t o w r nil) = Unit
Elaborated (node k t o w r xs) =
    (k ≡ NodeKind.operator) × (is_simplifiable o ≡ true → operator_output_type o ≡ ok t)

-- All the modifications have the type `t`.
abbrev pub Keeps : ExprType → List Modification → Type 0
Keeps t = All (λ m. type m.0 ≡ t)

if_Keeps :
    (t : ExprType) (b : Bool) (ms : List Modification)
    → (b ≡ true → Keeps t ms)
    → Keeps t (if b then ms else [])
if_Keeps t true ms h = h refl
if_Keeps t false ms h = tt

is_integer-eq : (t : ExprType) → is_integer t ≡ true → t ≡ ExprType.integer
is_integer-eq t h = ground arith

is_pointer-eq : (t : ExprType) → is_pointer t ≡ true → t ≡ ExprType.pointer
is_pointer-eq t h = ground arith

is_boolean-eq : (t : ExprType) → is_boolean t ≡ true → t ≡ ExprType.boolean
is_boolean-eq t h = ground arith

module _ (components : List Expression) where
  integers_Keeps : (rule : SynthesisRule) → Keeps ExprType.integer (integers_by rule components)
  unfolding integers_by
  integers_Keeps rule =
      All-flat_map (λ _. Unit {0}) _ _
        (λ c _.
          if_Keeps _ (is_integer (type c)) ((c, by_rule rule atomic_edit) ∷ [])
            (λ h. (is_integer-eq _ h, tt)))
        components (All-total _ (λ _. tt) components)

  pointers_Keeps : (e : Expression) → Keeps ExprType.pointer (pointers_like e components)
  unfolding pointers_like
  pointers_Keeps e =
      All-flat_map (λ _. Unit {0}) _ _
        (λ c _.
          if_Keeps _ (is_pointer (type c) && str_eq (raw_type e) (raw_type c))
            ((c, by_rule SynthesisRule.substitution atomic_edit) ∷ [])
            (λ h. (is_pointer-eq _ (&&_split _ _ h).0, tt)))
        components (All-total _ (λ _. tt) components)

  variable_Keeps :
      (k : NodeKind) (t : ExprType) (o : Operator) (w r : String) (xs : Args)
      → Keeps t (variable_substitutions (node k t o w r xs) components)
  unfolding variable_substitutions
  variable_Keeps k ExprType.integer o w r xs =
      All-append _ _ _ (integers_Keeps SynthesisRule.substitution) (refl, tt)
  variable_Keeps k ExprType.pointer o w r xs =
      let e = node k ExprType.pointer o w r xs in
      All-append _ (pointers_like e components)
        ((null_node, by_rule SynthesisRule.concretization atomic_edit) ∷ []) (pointers_Keeps e)
        (refl, tt)
  variable_Keeps k _ o w r xs = tt

  constant_Keeps : (e : Expression) → Keeps (type e) (constant_substitutions e components)
  unfolding constant_substitutions
  constant_Keeps e = if_Keeps _ (is_integer (type e)) _ λ h.
      rw (is_integer-eq _ h)
        (All-append _ _ _ (integers_Keeps SynthesisRule.generalization) (refl, tt))

  pub leaf_Keeps : (e : Expression) → Keeps (type e) (leaf_substitutions e components)
  unfolding leaf_substitutions
  leaf_Keeps (node NodeKind.constant t o w r xs) =
      constant_Keeps (node NodeKind.constant t o w r xs)
  leaf_Keeps (node NodeKind.variable t o w r xs) = variable_Keeps NodeKind.variable t o w r xs
  leaf_Keeps (node NodeKind.dereference t o w r xs) = variable_Keeps NodeKind.dereference t o w r xs
  leaf_Keeps (node _ t o w r xs) = tt

pub boolean_Keeps : (e : Expression) → Returns (Keeps (type e)) (boolean_substitution e)
unfolding boolean_substitution
boolean_Keeps e = elim (Bool-cases (is_boolean (type e))) [
  | inl h ↦ rw h (
      Returns-bind_eq _ (substitution_distance e bool2_node) _
        (λ d _. (sym (is_boolean-eq _ h), tt)))
  | inr h ↦ rw h tt
]

with_operator-type : (e : Expression) (m : Operator) → type (with_operator e m).0 ≡ type e
unfolding with_operator
with_operator-type (node k t o w r xs) m = refl

with_args-type : (e : Expression) (xs : Args) → type (with_args e xs) ≡ type e
unfolding with_args
with_args-type (node k t o w r ys) xs = refl

pub operator_Keeps : (e a : Expression) → Returns (Keeps (type e)) (operator_substitutions e a)
unfolding operator_substitutions
operator_Keeps e a =
    Returns-bind_eq (Keeps (type e)) (operator_mutations (op e) a)
      (λ oms. ok (map (with_operator e) oms))
      λ oms _.
        All-map (λ _. Unit {0}) (λ m. type m.0 ≡ type e) (with_operator e)
          (λ m _. with_operator-type e m) oms (All-total _ (λ _. tt) oms)

pub put_back-Keeps :
    (xs : Expression → Args) (e : Expression) (ms : List Modification)
    → Keeps (type e) (put_back xs e ms)
unfolding put_back
put_back-Keeps xs e ms =
    All-map (λ _. Unit {0}) _ _ (λ m _. with_args-type e (xs m.0)) ms (All-total _ (λ _. tt) ms)

pub unsigned_Keeps :
    (e : Expression) (xs : Args) (a : Expression) → Keeps (type e) (unsigned_cast e xs a)
unfolding unsigned_cast
unsigned_Keeps e xs a = if_Keeps _ (is_integer (type a)) _ (λ _. (with_args-type e xs, tt))

-- The only argument of an operator that is simplified has the operator's type, and so have both.
simplified_one :
    (o : Operator) (t s : ExprType)
    → is_simplifiable o ≡ true
    → operator_output_type o ≡ ok t
    → Returns (λ c. Accepts c s) (operator_first_arg_type o)
    → s ≡ t
unfolding is_simplifiable operator_output_type operator_first_arg_type
simplified_one Operator.none t s h e k = cc
simplified_one _ t s h e k = ground arith

simplified_two :
    (o : Operator) (t : ExprType) (a b : Expression)
    → is_simplifiable o ≡ true
    → operator_output_type o ≡ ok t
    → Returns (λ c. Agree c a b) (operator_first_arg_type o)
    → (type a ≡ t) × (type b ≡ t)
unfolding is_simplifiable operator_output_type operator_first_arg_type
simplified_two Operator.none t a b h e k = cc
simplified_two _ t a b h e k = ground arith

pub simplify_one-Keeps :
    (t : ExprType) (o : Operator) (w r : String) (a : Expression)
    → WellTyped (node NodeKind.operator t o w r (cons a nil))
    → (is_simplifiable o ≡ true → operator_output_type o ≡ ok t)
    → Keeps t (simplify_one (node NodeKind.operator t o w r (cons a nil)) a)
unfolding simplify_one
simplify_one-Keeps t o w r a h out =
    if_Keeps t (is_simplifiable o) _ (λ s. (simplified_one o t (type a) s (out s) h.0, tt))

not_pointer_arithmetic : (o : Operator) → is_simplifiable o ≡ true → is_pointer_arithmetic o ≡ false
unfolding is_simplifiable
not_pointer_arithmetic Operator.none h = refl
not_pointer_arithmetic _ h = ground arith

pub simplify_two-Keeps :
    (t : ExprType) (o : Operator) (w r : String) (a b : Expression)
    → WellTyped (node NodeKind.operator t o w r (cons a (cons b nil)))
    → (is_simplifiable o ≡ true → operator_output_type o ≡ ok t)
    → Returns (Keeps t) (simplify_two (node NodeKind.operator t o w r (cons a (cons b nil))) a b)
unfolding simplify_two
simplify_two-Keeps t o w r a b h out = elim (Bool-cases (is_simplifiable o)) [
  | inl s ↦
      let agree = rw (not_pointer_arithmetic o s) at h.0 in
      let both = simplified_two o t a b s (out s) agree in
      rw s (
        Returns-bind_eq _ (expression_depth b) _
          λ _ _. Returns-bind_eq _ (expression_depth a) _ λ _ _. (both.0, (both.1, tt)))
  | inr s ↦ rw s tt
]
