-- ===== src/Synthesis/Sparse.antt =====
-- repair/Synthesis.cpp: how many abstract nodes the proposed expressions hold. A modification has one
-- at most, a condition for the abstract Boolean has at most one parameter.
use f1x.Prelude.{
  List, [], ◌∷◌, ◌++◌, map, All, All-append, All-map, All-total, Bool, true, false, arith, Result,
  ok, Returns, Returns-bind, Returns-bind_eq, if◌then◌else◌, Bool-cases, inl, inr, str_eq, ◌⊎◌,
  String,
}
use f1x.Core.{SynthesisRule, TransformationSchema}
use f1x.Core.Expressions.{
  NodeKind, ExprType, Operator, Expression, node, Args, nil, cons, type, op, repr, is_integer,
  is_boolean, true_node, false_node,
}
use f1x.Util.Builders.{apply_bool_operator, wrap_with_explicit_unsigned_cast}
use f1x.Typing.{is_pointer_arithmetic}
use f1x.Synthesis.Operators.{is_simplifiable, bool2_node}
use f1x.Synthesis.Depth.{expression_depth, substitution_distance}
use f1x.Synthesis.Abstract.Counts.{count}
use f1x.Synthesis.Candidates.{
  Modification, by_rule, boolean_substitution, with_operator, with_args, operator_mutations,
  operator_substitutions, unsigned_cast, simplify_one, simplify_two, put_back, base_substitutions,
  atomic_edit, base_modifications, expression_modifications, guard_modifications,
}
use f1x.Synthesis.Shapes.{Concrete, Sparse, if_All, leaf-Sparse}

boolean-Sparse : (e : Expression) → Returns (All (λ m. Sparse m.0)) (boolean_substitution e)
unfolding boolean_substitution count
boolean-Sparse e = elim (Bool-cases (is_boolean (type e))) [
  | inl h ↦
      rw h (Returns-bind_eq _ (substitution_distance e bool2_node) _ (λ d _. (omega arith, tt)))
  | inr h ↦ rw h tt
]

with_operator-Sparse : (e : Expression) (m : Operator) → Concrete e → Sparse (with_operator e m).0
unfolding with_operator count
with_operator-Sparse (node k t o w r xs) m h = omega arith

operator-Sparse :
    (e a : Expression) → Concrete e → Returns (All (λ m. Sparse m.0)) (operator_substitutions e a)
unfolding operator_substitutions
operator-Sparse e a h =
    Returns-bind_eq (All (λ m. Sparse m.0)) (operator_mutations (op e) a)
      (λ oms. ok (map (with_operator e) oms))
      λ oms _.
        All-map (λ _. Unit {0}) (λ m. Sparse m.0) (with_operator e)
          (λ m _. with_operator-Sparse e m h) oms (All-total _ (λ _. tt) oms)

put_back-Sparse :
    (xs : Expression → Args) (e : Expression) (ms : List Modification)
    → ((a : Expression) → Sparse a → Sparse (with_args e (xs a)))
    → All (λ m. Sparse m.0) ms
    → All (λ m. Sparse m.0) (put_back xs e ms)
unfolding put_back
put_back-Sparse xs e ms keep h = All-map (λ m. Sparse m.0) (λ m. Sparse m.0) _ (λ m. keep m.0) ms h

unsigned-Sparse :
    (e : Expression) (xs : Args) (a : Expression)
    → Sparse (with_args e xs)
    → All (λ m. Sparse m.0) (unsigned_cast e xs a)
unfolding unsigned_cast
unsigned-Sparse e xs a h =
    if_All (λ m. Sparse m.0) (is_integer (type a))
      ((with_args e xs, by_rule SynthesisRule.unsigned_cast atomic_edit) ∷ []) (h, tt)

simplify_one-Sparse : (e a : Expression) → Concrete a → All (λ m. Sparse m.0) (simplify_one e a)
unfolding simplify_one
simplify_one-Sparse e a h =
    if_All (λ m. Sparse m.0) (is_simplifiable (op e))
      ((a, by_rule SynthesisRule.simplification atomic_edit) ∷ []) (omega arith)

simplify_two-Sparse :
    (e a b : Expression)
    → Concrete a
    → Concrete b
    → Returns (All (λ m. Sparse m.0)) (simplify_two e a b)
unfolding simplify_two
simplify_two-Sparse e a b h k = elim (Bool-cases (is_simplifiable (op e))) [
  | inl s ↦ rw s (
      Returns-bind_eq _ (expression_depth b) _
        λ _ _. Returns-bind_eq _ (expression_depth a) _ λ _ _. (omega arith, (omega arith, tt)))
  | inr s ↦ rw s tt
]

abbrev IsSparse : Modification → Type 0
IsSparse m = Sparse m.0

either_Sparse :
    (b : Bool) (m : Result (List Modification))
    → Returns (All IsSparse) m
    → Returns (All IsSparse) (if b then ok [] else m)
either_Sparse true m h = tt
either_Sparse false m h = h

node_Sparse : Sparse false_node × Sparse true_node × Sparse bool2_node
unfolding count
node_Sparse = omega arith

extended_Sparse :
    (o : Operator) (e : Expression) → Concrete e → Sparse (apply_bool_operator o e bool2_node)
unfolding count apply_bool_operator
extended_Sparse o e h = omega arith

cast_Sparse : (a : Expression) → Concrete a → Sparse (wrap_with_explicit_unsigned_cast a)
unfolding count wrap_with_explicit_unsigned_cast
cast_Sparse a h = omega arith

module _ (k : NodeKind) (t : ExprType) (o : Operator) (w r : String) (a : Expression) where
  part_one : Concrete (node k t o w r (cons a nil)) → Concrete a
  unfolding count
  part_one h = omega arith

  with_one :
      Concrete (node k t o w r (cons a nil))
      → (x : Expression) → Sparse x
      → Sparse (with_args (node k t o w r (cons a nil)) (cons x nil))
  unfolding count with_args
  with_one h x s = omega arith

  module _ (b : Expression) (h : Concrete (node k t o w r (cons a (cons b nil)))) where
    parts_two : Concrete a × Concrete b
    unfolding count
    parts_two = omega arith

    with_two :
        (x y : Expression)
        → (Sparse x × Concrete y) ⊎ (Concrete x × Sparse y)
        → Sparse (with_args (node k t o w r (cons a (cons b nil))) (cons x (cons y nil)))
    unfolding count with_args
    with_two x y s = omega arith

    arguments_Sparse :
        (ls rs ss : List Modification)
        → All IsSparse ls
        → All IsSparse rs
        → All IsSparse ss
        → let e = node k t o w r (cons a (cons b nil)) in
          All IsSparse (
            put_back (λ x. cons x (cons b nil)) e ls
            ++ (put_back (λ x. cons a (cons x nil)) e rs
                ++ (unsigned_cast e (cons (wrap_with_explicit_unsigned_cast a) (cons b nil)) a
                    ++ (unsigned_cast e (cons a (cons (wrap_with_explicit_unsigned_cast b) nil)) b
                        ++ ss))))
    arguments_Sparse ls rs ss u v s =
        let e = node k t o w r (cons a (cons b nil)) in
        let cast_a = wrap_with_explicit_unsigned_cast a in
        let cast_b = wrap_with_explicit_unsigned_cast b in
        All-append IsSparse (put_back (λ x. cons x (cons b nil)) e ls) _
          (put_back-Sparse _ e ls (λ x p. with_two x b (inl (p, parts_two.1))) u)
          (All-append IsSparse (put_back (λ x. cons a (cons x nil)) e rs) _
            (put_back-Sparse _ e rs (λ x p. with_two a x (inr (parts_two.0, p))) v)
            (All-append IsSparse (unsigned_cast e (cons cast_a (cons b nil)) a) _
              (unsigned-Sparse e (cons cast_a (cons b nil)) a
                (with_two cast_a b (inl (cast_Sparse a parts_two.0, parts_two.1))))
              (All-append IsSparse (unsigned_cast e (cons a (cons cast_b nil)) b) ss
                (unsigned-Sparse e (cons a (cons cast_b nil)) b
                  (with_two a cast_b (inr (parts_two.0, cast_Sparse b parts_two.1))))
                s)))

module _ (components : List Expression) (concrete : All Concrete components) where
  base_substitutions-Sparse :
      (e : Expression)
      → Concrete e
      → Returns (All (λ m. Sparse m.0)) (base_substitutions e components)
  unfolding base_substitutions
  base_substitutions-Sparse (node k t o w r nil) h =
      let e = node k t o w r nil in
      Returns-bind (All (λ m. Sparse m.0)) _ (boolean_substitution e) _ (boolean-Sparse e)
        λ bool2 p. All-append _ bool2 _ p (leaf-Sparse components concrete e)
  base_substitutions-Sparse (node k t o w r (cons a nil)) h =
      let e = node k t o w r (cons a nil) in
      Returns-bind (All IsSparse) _ (boolean_substitution e) _ (boolean-Sparse e) λ bool2 p.
        Returns-bind (All IsSparse) _ (operator_substitutions e a) _ (operator-Sparse e a h)
          λ ops q.
            Returns-bind (All IsSparse) _ (base_substitutions a components) _
              (base_substitutions-Sparse a (part_one k t o w r a h))
              λ ms s. All-append _ bool2 _ p (
                All-append _ ops _ q (
                  All-append IsSparse (put_back (λ x. cons x nil) e ms) (simplify_one e a)
                    (put_back-Sparse (λ x. cons x nil) e ms (with_one k t o w r a h) s)
                    (simplify_one-Sparse e a (part_one k t o w r a h))))
  base_substitutions-Sparse (node k t o w r (cons a (cons b nil))) h =
      let e = node k t o w r (cons a (cons b nil)) in
      let left = base_substitutions a components in
      let (ha, hb) = parts_two k t o w r a b h in
      Returns-bind (All IsSparse) _ (boolean_substitution e) _ (boolean-Sparse e) λ bool2 p.
        Returns-bind (All IsSparse) _ (operator_substitutions e a) _ (operator-Sparse e a h)
          λ ops q.
            Returns-bind (All IsSparse) _ (if is_pointer_arithmetic o then ok [] else left) _
              (either_Sparse (is_pointer_arithmetic o) left (base_substitutions-Sparse a ha))
              λ ls u.
                Returns-bind (All IsSparse) _ (base_substitutions b components) _
                  (base_substitutions-Sparse b hb)
                  λ rs v.
                    Returns-bind (All IsSparse) _ (simplify_two e a b) _
                      (simplify_two-Sparse e a b ha hb)
                      λ ss s.
                        All-append _ bool2 _ p
                          (All-append _ ops _ q (arguments_Sparse k t o w r a b h ls rs ss u v s))
  base_substitutions-Sparse (node k t o w r (cons a (cons b (cons c xs)))) h =
      let e = node k t o w r (cons a (cons b (cons c xs))) in
      Returns-bind (All (λ m. Sparse m.0)) _ (boolean_substitution e) _ (boolean-Sparse e)
        λ bool2 p.
          Returns-bind (All (λ m. Sparse m.0)) _ (operator_substitutions e a) _
            (operator-Sparse e a h) λ ops q. All-append _ bool2 _ p q

  expression_modifications-Sparse :
      (e : Expression) → Concrete e → Returns (All IsSparse) (expression_modifications e components)
  unfolding expression_modifications
  expression_modifications-Sparse e h =
      Returns-bind (All IsSparse) _ (base_substitutions e components) _
        (base_substitutions-Sparse e h)
        λ ms p.
          let loosened = apply_bool_operator Operator.or e bool2_node in
          let tightened = apply_bool_operator Operator.and e bool2_node in
          All-append IsSparse ms _ p (
            if_All IsSparse (is_boolean (type e))
              ((loosened, by_rule SynthesisRule.loosening 2)
                ∷ (tightened, by_rule SynthesisRule.tightening 2)
                ∷ [])
              (extended_Sparse Operator.or e h, (extended_Sparse Operator.and e h, tt)))

  guard_modifications-Sparse : (e : Expression) → Returns (All IsSparse) (guard_modifications e)
  unfolding guard_modifications
  guard_modifications-Sparse e =
      let meta = by_rule SynthesisRule.substitution atomic_edit in
      All-append IsSparse (if str_eq (repr e) (repr true_node) then (false_node, meta) ∷ [] else [])
        _
        (if_All IsSparse (str_eq (repr e) (repr true_node)) ((false_node, meta) ∷ [])
          (node_Sparse.0, tt))
        (All-append IsSparse
          (if str_eq (repr e) (repr false_node) then (true_node, meta) ∷ [] else []) _
          (if_All IsSparse (str_eq (repr e) (repr false_node)) ((true_node, meta) ∷ [])
            (node_Sparse.1, tt))
          (node_Sparse.2, tt))

  -- With components that hold no abstract node: where `baseModifications` of an expression that holds none
  -- returns, every modification has one abstract node at most, the abstract condition or a parameter.
  pub base_modifications-Sparse :
      (schema : TransformationSchema) (e : Expression)
      → Concrete e
      → Returns (All (λ m. Sparse m.0)) (base_modifications schema e components)
  unfolding base_modifications expression_depth
  base_modifications-Sparse TransformationSchema.expression e h =
      expression_modifications-Sparse e h
  base_modifications-Sparse TransformationSchema.if_guard e h = guard_modifications-Sparse e
  base_modifications-Sparse TransformationSchema.initialization e h = tt
  base_modifications-Sparse _ e h = (node_Sparse.2, tt)
