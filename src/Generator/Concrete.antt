-- ===== src/Generator/Concrete.antt =====
-- repair/Synthesis.cpp: the patches of the search space hold no abstract node, so that they can be put
-- into the program.
use f1x.Prelude.{
  ℕ, zero, suc, ◌≡◌, refl, reverse, All, All-reverse, All-flat_map, true, false, arith, Bool-cases,
  inl, inr,
}
use f1x.Core.{PatchId, SchemaApplication, Patch, PatchMetadata}
use f1x.Core.Expressions.{NodeKind, Expression, node, Args, nil, cons}
use f1x.Util.Builders.{make_integer_const}
use f1x.Synthesis.Abstract.{
  has_node_of_kind, substitute_node_of_kind, is_abstract_expression, any_abstract,
}
use f1x.Synthesis.Abstract.Counts.{count, count_args, count-substitute-le, has_iff_count}
use f1x.Synthesis.Shapes.{Concrete, Sparse, Condition}
use f1x.Generator.Dispatch.{Instance, bool2_instances, parameter_patches, Expansion, emitted}
use f1x.Generator.Instances.{bool2_instances-Condition, candidate_patches}

abbrev pub IsConcrete : Patch → Type 0
IsConcrete p = Concrete p.modified

constant-Concrete : (i : ℕ) → Concrete (make_integer_const i)
unfolding make_integer_const count
constant-Concrete i = (refl, refl, refl, refl)

parameter_instance :
    (e : Expression) (i : ℕ)
    → Condition e
    → has_node_of_kind e NodeKind.parameter ≡ true
    → Concrete (substitute_node_of_kind e NodeKind.parameter (make_integer_const i)).1
parameter_instance e i h has =
    let c = make_integer_const i in
    let j₀ = count-substitute-le NodeKind.int2 e NodeKind.parameter c has in
    let j₁ = count-substitute-le NodeKind.cond3 e NodeKind.parameter c has in
    let j₂ = count-substitute-le NodeKind.bool2 e NodeKind.parameter c has in
    let j₃ = count-substitute-le NodeKind.parameter e NodeKind.parameter c has in
    omega (arith, j₀, j₁, j₂, j₃, constant-Concrete i)

parameter_patches-IsConcrete :
    (app : SchemaApplication) (meta : PatchMetadata) (id : PatchId) (e : Expression) (i n : ℕ)
    → Condition e
    → has_node_of_kind e NodeKind.parameter ≡ true
    → All IsConcrete (parameter_patches app meta (id, e) i n)
unfolding parameter_patches
parameter_patches-IsConcrete app meta id e i zero h has = tt
parameter_patches-IsConcrete app meta id e i (suc n) h has =
    (parameter_instance e i h has, parameter_patches-IsConcrete app meta id e (suc i) n h has)

emitted-IsConcrete : (x : Expansion) (c : Instance) → Condition c.1 → All IsConcrete (emitted x c)
unfolding emitted
emitted-IsConcrete x (id, e) h = elim (Bool-cases (has_node_of_kind e NodeKind.bool2)) [
  | inl has ↦ rw has tt
  | inr hasnt ↦ rw hasnt (elim (Bool-cases (has_node_of_kind e NodeKind.parameter)) [
    | inl p ↦ rw p (parameter_patches-IsConcrete x.app x.meta id e 0 (suc x.param_bound) h p)
    | inr p ↦ rw p (omega (arith, (has_iff_count NodeKind.parameter e).0 p))
  ])
]

Sparse-Condition :
    (e : Expression) → Sparse e → has_node_of_kind e NodeKind.bool2 ≡ false → Condition e
Sparse-Condition e h hasnt = omega (arith, (has_iff_count NodeKind.bool2 e).0 hasnt)

pub candidate_patches-IsConcrete :
    (x : Expansion) (id : PatchId) (e : Expression)
    → Sparse e
    → All Condition x.conditions
    → All IsConcrete (candidate_patches x (id, e))
unfolding candidate_patches
candidate_patches-IsConcrete x id e h k = elim (Bool-cases (has_node_of_kind e NodeKind.bool2)) [
  | inl has ↦
      let instances = bool2_instances (id, e) 0 x.conditions in
      rw has (
        All-flat_map (λ c. Condition c.1) IsConcrete (emitted x) (emitted-IsConcrete x)
          (reverse instances)
          (All-reverse (λ c. Condition c.1) instances
            (bool2_instances-Condition id e 0 x.conditions h has k)))
  | inr hasnt ↦ rw hasnt (emitted-IsConcrete x (id, e) (Sparse-Condition e h hasnt))
]

-- The counts and `isAbstractExpression` say the same.
mutual
  unfolding count is_abstract_expression

  concrete_lem : (e : Expression) → Concrete e → is_abstract_expression e ≡ false
  concrete_lem (node k t o w r xs) h = ground (arith, concrete_args_lem xs)

  concrete_args_lem :
      (xs : Args)
      → (count_args NodeKind.int2 xs ≡ 0)
        × (count_args NodeKind.cond3 xs ≡ 0)
        × (count_args NodeKind.bool2 xs ≡ 0)
        × (count_args NodeKind.parameter xs ≡ 0)
      → any_abstract xs ≡ false
  concrete_args_lem nil h = refl
  concrete_args_lem (cons x xs) h = ground (arith, concrete_lem x, concrete_args_lem xs)

pub Concrete-not_abstract : (e : Expression) → Concrete e → is_abstract_expression e ≡ false
Concrete-not_abstract e h = concrete_lem e h
