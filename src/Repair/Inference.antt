-- ===== src/Repair/Inference.antt =====
-- repair/Repair.cpp: from the documents with the schema applications to the search space.
use f1x.Prelude.{
  ℕ, ◌≡◌, ◌≢◌, refl, List, [], ◌∷◌, All, some, String, ok, Returns, Returns-bind, Returns-bind_eq,
  Returns-each, Returns-ok, arith, get_elem?, All-mono, assert, Bool-cases, inl, inr,
}
use f1x.Core.{SchemaApplication, Patch}
use f1x.Core.Config.{Config}
use f1x.Core.Expressions.{
  NodeKind, ExprType, Operator, Expression, node, nil, cons, type, is_pointer,
}
use f1x.Util.Builders.{
  wrap_with_implicit_int_cast, wrap_with_implicit_bv_cast, wrap_with_explicit_int_cast,
  wrap_with_explicit_bv_cast, wrap_with_explicit_ptr_cast, make_non_null_check, make_non_zero_check,
  apply_bool_operator, make_integer_const,
}
use f1x.Typing.{
  correct_types, correct_top_node, is_pointer_arithmetic, operator_first_arg_type, args_context,
}
use f1x.Typing.Cases.{correct_top_node_cases}
use f1x.Synthesis.Abstract.Counts.{count}
use f1x.Synthesis.Shapes.{Concrete}
use f1x.Generator.SearchSpace.{Generated, generate_search_space}
use f1x.Generator.SearchSpace.Distinct.{HasConcreteInput, generate_search_space-distinct}
use f1x.Loading.{Json, load_schema_applications}
use f1x.Loading.Shape.{IsLoaded, HasLoadedInput, load_schema_applications-AllLoaded}
use f1x.Repair.{expected_type, infer_types, load_search_space}

correct_top_node-Concrete :
    (e : Expression) (c : ExprType) → Concrete e → Concrete (correct_top_node e c)
unfolding count wrap_with_implicit_int_cast wrap_with_implicit_bv_cast wrap_with_explicit_int_cast
    wrap_with_explicit_bv_cast wrap_with_explicit_ptr_cast make_non_null_check make_non_zero_check
    apply_bool_operator make_integer_const
correct_top_node-Concrete e c h = correct_top_node_cases Concrete e c (record {
  same = h;
  implicit_int = omega (arith, h);
  implicit_bv = omega (arith, h);
  explicit_int = omega (arith, h);
  explicit_bv = omega (arith, h);
  explicit_ptr = omega (arith, h);
  non_null = λ p. omega (arith, h);
  non_zero = omega (arith, h);
  constant_true = (refl, refl, refl, refl);
  constant_false = (refl, refl, refl, refl);
})

unary_Concrete :
    (t : ExprType) (o : Operator) (w r : String) (a a' : Expression)
    → Concrete (node NodeKind.operator t o w r (cons a nil))
    → Concrete a'
    → Concrete (node NodeKind.operator t o w r (cons a' nil))
unfolding count
unary_Concrete t o w r a a' h k = omega (arith, h, k)

unary_part :
    (t : ExprType) (o : Operator) (w r : String) (a : Expression)
    → Concrete (node NodeKind.operator t o w r (cons a nil))
    → Concrete a
unfolding count
unary_part t o w r a h = omega (arith, h)

binary_parts :
    (t : ExprType) (o : Operator) (w r : String) (a b : Expression)
    → Concrete (node NodeKind.operator t o w r (cons a (cons b nil)))
    → Concrete a × Concrete b
unfolding count
binary_parts t o w r a b h = (omega (arith, h), omega (arith, h))

binary_Concrete :
    (t : ExprType) (o : Operator) (w r : String) (a b : Expression)
    → Concrete a
    → Concrete b
    → Concrete (node NodeKind.operator t o w r (cons a (cons b nil)))
unfolding count
binary_Concrete t o w r a b h k = omega (arith, h, k)

-- Type correction adds no abstract node.
correct_types-Concrete :
    (e : Expression) (c : ExprType) → Concrete e → Returns Concrete (correct_types e c)
unfolding correct_types
correct_types-Concrete (node NodeKind.operator t o w r (cons a nil)) c h =
    Returns-bind_eq Concrete (operator_first_arg_type o) _ λ d _.
      Returns-bind Concrete Concrete (correct_types a d) _
        (correct_types-Concrete a d (unary_part t o w r a h))
        λ a' p.
          correct_top_node-Concrete (node NodeKind.operator t o w r (cons a' nil)) c
            (unary_Concrete t o w r a a' h p)
correct_types-Concrete (node NodeKind.operator t o w r (cons a (cons b nil))) c h =
    let parts = binary_parts t o w r a b h in
    elim (Bool-cases (is_pointer_arithmetic o)) [
      | inl p ↦
          rw (p, correct_types)
            (Returns-bind_eq _ (assert (is_pointer (type a))) _ λ _ _.
              Returns-bind Concrete Concrete (correct_types b ExprType.integer) _
                (correct_types-Concrete b ExprType.integer parts.1)
                λ b' q.
                  correct_top_node-Concrete (node NodeKind.operator t o w r (cons a (cons b' nil)))
                    c (binary_Concrete t o w r a b' parts.0 q))
      | inr p ↦
          rw (p, correct_types)
            (Returns-bind_eq _ (args_context o (type a) (type b)) _ λ d _.
              Returns-bind Concrete Concrete (correct_types a d) _
                (correct_types-Concrete a d parts.0)
                λ a' q.
                  Returns-bind Concrete Concrete (correct_types b d) _
                    (correct_types-Concrete b d parts.1)
                    λ b' q'.
                      correct_top_node-Concrete
                        (node NodeKind.operator t o w r (cons a' (cons b' nil))) c
                        (binary_Concrete t o w r a' b' q q'))
    ]
correct_types-Concrete (node NodeKind.operator t o w r xs) c h = tt
correct_types-Concrete (node NodeKind.variable t o w r xs) c h =
    correct_top_node-Concrete (node NodeKind.variable t o w r xs) c h
correct_types-Concrete (node NodeKind.constant t o w r xs) c h =
    correct_top_node-Concrete (node NodeKind.constant t o w r xs) c h
correct_types-Concrete (node NodeKind.parameter t o w r xs) c h =
    correct_top_node-Concrete (node NodeKind.parameter t o w r xs) c h
correct_types-Concrete (node NodeKind.dereference t o w r xs) c h =
    correct_top_node-Concrete (node NodeKind.dereference t o w r xs) c h
correct_types-Concrete (node k t o w r xs) c h = tt

infer_types-All :
    (sas : List SchemaApplication)
    → All HasLoadedInput sas
    → Returns (All HasConcreteInput) (infer_types sas)
unfolding infer_types
infer_types-All [] h = tt
infer_types-All (sa ∷ sas) h =
    Returns-bind Concrete (All HasConcreteInput)
      (correct_types sa.original (expected_type sa.context)) _
      (correct_types-Concrete sa.original (expected_type sa.context) h.0.0.0)
      λ e p.
        Returns-bind (All HasConcreteInput) (All HasConcreteInput) (infer_types sas) _
          (infer_types-All sas h.1)
          λ rest q. ((p, All-mono IsLoaded Concrete (λ e k. k.0) sa.components h.0.1), q)

module _ {J : Type 0} (json : Json J) where
  -- In the search space that is made from loaded schema applications, patches at different indices have
  -- different ids, so that a run of the meta program tells them apart. No condition is put on the
  -- documents: where they are loaded, their types inferred and the candidates generated without a
  -- failure, no expression holds an abstract node.
  pub loaded_space-distinct :
      (cfg : Config) (euid fuel : ℕ) (ds : List J) {r : Generated} (i j : ℕ) {p q : Patch}
      → load_search_space json cfg euid fuel ds ≡ ok r
      → get_elem? r.search_space i ≡ some p
      → get_elem? r.search_space j ≡ some q
      → i ≢ j
      → p.id ≢ q.id
  unfolding load_search_space
  loaded_space-distinct cfg euid fuel ds {r} i j {p} {q} e at_i at_j differ =
      Returns-ok
        (λ (g : Generated).
          get_elem? g.search_space i ≡ some p → get_elem? g.search_space j ≡ some q → p.id ≢ q.id)
        (load_search_space json cfg euid fuel ds)
        (Returns-bind (All HasLoadedInput) _ (load_schema_applications json fuel ds) _
          (load_schema_applications-AllLoaded json fuel ds)
          λ sas h.
            Returns-bind (All HasConcreteInput) _ (infer_types sas) _ (infer_types-All sas h)
              λ typed k. Returns-each _ (generate_search_space cfg euid typed) λ g made.
                λ left right.
                  generate_search_space-distinct cfg euid typed i j k made left right differ)
        e at_i at_j
