-- ===== src/Synthesis/Types.antt =====
-- repair/Synthesis.cpp: a modification has the type of the expression that it replaces.
use f1x.Prelude.{
  List, [], All, All-append, ◌≡◌, refl, ok, Returns, Returns-bind, Returns-ok, Returns-bind_eq,
  assert, if◌then◌else◌, Bool-cases, inl, inr,
}
use f1x.Core.Expressions.{NodeKind, ExprType, Expression, node, nil, cons, type, is_pointer}
use f1x.Typing.{
  operator_first_arg_type, correct_types, correct_top_node, is_pointer_arithmetic, args_context,
}
use f1x.Typing.Cases.{correct_top_node_cases}
use f1x.Typing.Correct.{WellTyped, correct_types_sound}
use f1x.Synthesis.Operators.{is_simplifiable}
use f1x.Synthesis.Candidates.{
  Modification, boolean_substitution, operator_substitutions, simplify_two, base_substitutions,
}
use f1x.Synthesis.Keeping.{
  Elaborated, Keeps, leaf_Keeps, boolean_Keeps, operator_Keeps, put_back-Keeps, unsigned_Keeps,
  simplify_one-Keeps, simplify_two-Keeps,
}

module _ (components : List Expression) where
  pub base_substitutions-Keeps :
      (e : Expression)
      → WellTyped e
      → Elaborated e
      → Returns (Keeps (type e)) (base_substitutions e components)
  unfolding base_substitutions
  base_substitutions-Keeps (node k t o w r nil) h out =
      let e = node k t o w r nil in
      Returns-bind (Keeps t) _ (boolean_substitution e) _ (boolean_Keeps e)
        λ bool2 p. All-append _ bool2 _ p (leaf_Keeps components e)
  base_substitutions-Keeps (node NodeKind.operator t o w r (cons a nil)) h out =
      let e = node NodeKind.operator t o w r (cons a nil) in
      Returns-bind (Keeps t) _ (boolean_substitution e) _ (boolean_Keeps e) λ bool2 p.
        Returns-bind (Keeps t) _ (operator_substitutions e a) _ (operator_Keeps e a) λ ops q.
          Returns-bind_eq _ (base_substitutions a components) _ λ ms _. All-append _ bool2 _ p (
            All-append _ ops _ q (
              All-append _ _ _ (put_back-Keeps (λ x. cons x nil) e ms)
                (simplify_one-Keeps t o w r a h out.1)))
  base_substitutions-Keeps (node NodeKind.operator t o w r (cons a (cons b nil))) h out =
      let e = node NodeKind.operator t o w r (cons a (cons b nil)) in
      let left = base_substitutions a components in
      Returns-bind (Keeps t) _ (boolean_substitution e) _ (boolean_Keeps e) λ bool2 p.
        Returns-bind (Keeps t) _ (operator_substitutions e a) _ (operator_Keeps e a) λ ops q.
          Returns-bind_eq _ (if is_pointer_arithmetic o then ok [] else left) _ λ ls _.
            Returns-bind_eq _ (base_substitutions b components) _ λ rs _.
              Returns-bind (Keeps t) _ (simplify_two e a b) _
                (simplify_two-Keeps t o w r a b h out.1)
                λ ss s. All-append _ bool2 _ p (
                  All-append _ ops _ q (
                    All-append _ _ _ (put_back-Keeps (λ x. cons x (cons b nil)) e ls) (
                      All-append _ _ _ (put_back-Keeps (λ x. cons a (cons x nil)) e rs) (
                        All-append _ _ _ (unsigned_Keeps e _ a)
                          (All-append _ _ _ (unsigned_Keeps e _ b) s)))))
  base_substitutions-Keeps (node NodeKind.operator t o w r (cons a (cons b (cons c xs)))) h out =
      let e = node NodeKind.operator t o w r (cons a (cons b (cons c xs))) in
      Returns-bind (Keeps t) _ (boolean_substitution e) _ (boolean_Keeps e) λ bool2 p.
        Returns-bind (Keeps t) _ (operator_substitutions e a) _ (operator_Keeps e a)
          λ ops q. All-append _ bool2 _ p q
  base_substitutions-Keeps (node k t o w r (cons a xs)) h out = cc out.0

-- The correction of types keeps `Elaborated`: the nodes that it adds are not simplified.
correct_top_node-Elaborated :
    (e : Expression) (c : ExprType) → Elaborated e → Elaborated (correct_top_node e c)
unfolding correct_top_node is_simplifiable
correct_top_node-Elaborated e c h = correct_top_node_cases Elaborated e c (record {
  same = h;
  implicit_int = (refl, λ s. cc s);
  implicit_bv = (refl, λ s. cc s);
  explicit_int = (refl, λ s. cc s);
  explicit_bv = (refl, λ s. cc s);
  explicit_ptr = (refl, λ s. cc s);
  non_null = λ p. (refl, λ s. cc s);
  non_zero = (refl, λ s. cc s);
  constant_true = tt;
  constant_false = tt;
})

correct_types-Elaborated :
    (e : Expression) (c : ExprType) → Elaborated e → Returns Elaborated (correct_types e c)
unfolding correct_types
correct_types-Elaborated (node NodeKind.operator t o w r nil) c h = tt
correct_types-Elaborated (node NodeKind.operator t o w r (cons a nil)) c h =
    Returns-bind_eq _ (operator_first_arg_type o) _ λ d _.
      Returns-bind_eq _ (correct_types a d) _
        λ a' _. correct_top_node-Elaborated (node NodeKind.operator t o w r (cons a' nil)) c h
correct_types-Elaborated (node NodeKind.operator t o w r (cons a (cons b nil))) c h =
    elim (Bool-cases (is_pointer_arithmetic o)) [
      | inl p ↦
          rw (p, correct_types)
            (Returns-bind_eq _ (assert (is_pointer (type a))) _ λ _ _.
              Returns-bind_eq _ (correct_types b ExprType.integer) _ λ b' _.
                correct_top_node-Elaborated (node NodeKind.operator t o w r (cons a (cons b' nil)))
                  c h)
      | inr p ↦
          rw (p, correct_types)
            (Returns-bind_eq _ (args_context o (type a) (type b)) _ λ d _.
              Returns-bind_eq _ (correct_types a d) _ λ a' _.
                Returns-bind_eq _ (correct_types b d) _ λ b' _.
                  correct_top_node-Elaborated
                    (node NodeKind.operator t o w r (cons a' (cons b' nil))) c h)
    ]
correct_types-Elaborated (node NodeKind.operator t o w r xs) c h = tt
correct_types-Elaborated (node NodeKind.variable t o w r nil) c h =
    correct_top_node-Elaborated (node NodeKind.variable t o w r nil) c tt
correct_types-Elaborated (node NodeKind.constant t o w r nil) c h =
    correct_top_node-Elaborated (node NodeKind.constant t o w r nil) c tt
correct_types-Elaborated (node NodeKind.parameter t o w r nil) c h =
    correct_top_node-Elaborated (node NodeKind.parameter t o w r nil) c tt
correct_types-Elaborated (node NodeKind.dereference t o w r nil) c h =
    correct_top_node-Elaborated (node NodeKind.dereference t o w r nil) c tt
correct_types-Elaborated (node k t o w r nil) c h = tt
correct_types-Elaborated (node k t o w r (cons a xs)) c h = cc h.0

-- For an expression of the tool's input, in which operators have their output types: every base
-- substitution of its corrected form has, at its root, the type of that form.
pub base_substitutions-type :
    (e : Expression) (c : ExprType) (components : List Expression) {e' : Expression}
    {ms : List Modification}
    → Elaborated e
    → correct_types e c ≡ ok e'
    → base_substitutions e' components ≡ ok ms
    → All (λ m. type m.0 ≡ type e') ms
base_substitutions-type e c components {e'} h p q =
    Returns-ok (Keeps (type e')) (base_substitutions e' components)
      (base_substitutions-Keeps components e' (correct_types_sound e c p).1
        (Returns-ok Elaborated (correct_types e c) (correct_types-Elaborated e c h) p))
      q
