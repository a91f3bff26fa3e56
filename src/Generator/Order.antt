-- ===== src/Generator/Order.antt =====
-- repair/Synthesis.cpp: the ids of the patches. They come in a strict order, so no two are equal.
use mathlib.Core.List.{reverse-cons, append-nil, append_assoc}
use f1x.Prelude.{
  ℕ, zero, suc, ◌+◌, ◌≤◌, ◌<◌, ◌≡◌, refl, sym, ap, ◌∙◌, List, [], ◌∷◌, ◌++◌, reverse, length,
  flat_map, All, All-append, All-mono, arith, Bool-cases, inl, inr, ◌⊎◌,
}
use f1x.Core.{PatchId, SchemaApplication, Patch, PatchMetadata}
use f1x.Core.Expressions.{NodeKind, Expression}
use f1x.Synthesis.Abstract.{has_node_of_kind}
use f1x.Generator.Dispatch.{
  Instance, bool2_instances, parameter_patches, Expansion, emitted, base_id_of,
}
use f1x.Generator.Instances.{candidate_patches}

-- By the base id; then the later condition comes first, and the smaller parameter.
abbrev pub Before : Patch → Patch → Type 0
Before p q =
    (p.id.base < q.id.base)
    ⊎ ((p.id.base ≡ q.id.base)
        × ((q.id.bool2 < p.id.bool2) ⊎ ((p.id.bool2 ≡ q.id.bool2) × (p.id.param < q.id.param))))

abbrev pub Ordered : List Patch → Type 0
Ordered [] = Unit
Ordered (p ∷ ps) = All (Before p) ps × Ordered ps

pub Ordered-append :
    (ps qs : List Patch)
    → Ordered ps
    → Ordered qs
    → All (λ p. All (Before p) qs) ps
    → Ordered (ps ++ qs)
Ordered-append [] qs h k b = k
Ordered-append (p ∷ ps) qs h k b =
    (All-append (Before p) ps qs h.0 b.0, Ordered-append ps qs h.1 k b.1)

-- Each of the first list stands before each of the second, by what is known of either.
pub All-Before :
    (P Q : Patch → Type 0) (ps qs : List Patch)
    → ((p q : Patch) → P p → Q q → Before p q)
    → All P ps
    → All Q qs
    → All (λ p. All (Before p) qs) ps
All-Before P Q ps qs f h k =
    All-mono P (λ p. All (Before p) qs) (λ p u. All-mono Q (Before p) (λ q v. f p q u v) qs k) ps h

-- What the ids of the patches made from one instance share, with the range of the parameter.
abbrev Made : PatchId → ℕ → ℕ → Patch → Type 0
Made id lo hi p =
    (p.id.base ≡ id.base)
    × (p.id.int2 ≡ id.int2)
    × (p.id.bool2 ≡ id.bool2)
    × (p.id.cond3 ≡ id.cond3)
    × (lo ≤ p.id.param)
    × (p.id.param ≤ hi)

parameter_patches-Made :
    (app : SchemaApplication) (meta : PatchMetadata) (id : PatchId) (e : Expression) (i n hi : ℕ)
    → i + n ≤ suc hi
    → All (Made id i hi) (parameter_patches app meta (id, e) i n)
unfolding parameter_patches
parameter_patches-Made app meta id e i zero hi h = tt
parameter_patches-Made app meta id e i (suc n) hi h = (
  (refl, refl, refl, refl, omega arith, omega arith),
  All-mono (Made id (suc i) hi) (Made id i hi) (λ p q. omega arith) _
      (parameter_patches-Made app meta id e (suc i) n hi (omega arith)),
)

parameter_patches-Ordered :
    (app : SchemaApplication) (meta : PatchMetadata) (id : PatchId) (e : Expression) (i n : ℕ)
    → Ordered (parameter_patches app meta (id, e) i n)
unfolding parameter_patches
parameter_patches-Ordered app meta id e i zero = tt
parameter_patches-Ordered app meta id e i (suc n) = (
  All-mono (Made id (suc i) (suc i + n)) _
      (λ p q. inr (omega arith, inr (omega arith, omega arith))) _
      (parameter_patches-Made app meta id e (suc i) n (suc i + n) (omega arith)),
  parameter_patches-Ordered app meta id e (suc i) n,
)

emitted-Made :
    (x : Expansion) (id : PatchId) (e : Expression)
    → id.param ≡ 0
    → All (Made id 0 x.param_bound) (emitted x (id, e))
unfolding emitted
emitted-Made x id e h = elim (Bool-cases (has_node_of_kind e NodeKind.bool2)) [
  | inl has ↦ rw has tt
  | inr hasnt ↦ rw hasnt (elim (Bool-cases (has_node_of_kind e NodeKind.parameter)) [
    | inl p ↦
        rw p (
          parameter_patches-Made x.app x.meta id e 0 (suc x.param_bound) x.param_bound
            (omega arith))
    | inr p ↦ rw p ((refl, refl, refl, refl, omega arith, omega arith), tt)
  ])
]

emitted-Ordered : (x : Expansion) (id : PatchId) (e : Expression) → Ordered (emitted x (id, e))
unfolding emitted
emitted-Ordered x id e = elim (Bool-cases (has_node_of_kind e NodeKind.bool2)) [
  | inl has ↦ rw has tt
  | inr hasnt ↦ rw hasnt (elim (Bool-cases (has_node_of_kind e NodeKind.parameter)) [
    | inl p ↦ rw p (parameter_patches-Ordered x.app x.meta id e 0 (suc x.param_bound))
    | inr p ↦ rw p (tt, tt)
  ])
]

-- What the ids of the patches made from several instances share, with the range of the condition.
abbrev pub InRange : PatchId → ℕ → ℕ → ℕ → Patch → Type 0
InRange id lo hi bound p =
    (p.id.base ≡ id.base)
    × (p.id.int2 ≡ id.int2)
    × (lo ≤ p.id.bool2)
    × (p.id.bool2 ≤ hi)
    × (p.id.cond3 ≡ id.cond3)
    × (p.id.param ≤ bound)

flat_map-append {ℓ κ} :
    {A : Type ℓ} {B : Type κ} (f : A → List B) (xs ys : List A)
    → flat_map f (xs ++ ys) ≡ flat_map f xs ++ flat_map f ys
flat_map-append f [] ys = refl
flat_map-append f (x ∷ xs) ys =
    ap (λ zs. f x ++ zs) (flat_map-append f xs ys)
    ∙ sym (append_assoc (f x) (flat_map f xs) (flat_map f ys))

module _ (x : Expansion) (id : PatchId) (e : Expression) (no_param : id.param ≡ 0) where
  abbrev from_conditions : ℕ → List Expression → List Patch
  from_conditions i bs = flat_map (emitted x) (reverse (bool2_instances (id, e) i bs))

  abbrev first_instance : ℕ → Expression → Instance
  first_instance i b = (
    record id { bool2 = suc i },
    (f1x.Synthesis.Abstract.substitute_node_of_kind e NodeKind.bool2 b).1,
  )

  from_conditions-cons :
      (i : ℕ) (b : Expression) (bs : List Expression)
      → from_conditions i (b ∷ bs) ≡ from_conditions (suc i) bs ++ emitted x (first_instance i b)
  unfolding bool2_instances
  from_conditions-cons i b bs =
      ap (flat_map (emitted x))
        (reverse-cons (first_instance i b) (bool2_instances (id, e) (suc i) bs))
      ∙ (flat_map-append (emitted x) (reverse (bool2_instances (id, e) (suc i) bs))
            (first_instance i b ∷ [])
          ∙ ap (λ ys. from_conditions (suc i) bs ++ ys)
              (append-nil (emitted x (first_instance i b))))

  first-Made :
      (i : ℕ) (b : Expression)
      → All (InRange id (suc i) (suc i) x.param_bound) (emitted x (first_instance i b))
  first-Made i b =
      All-mono (Made (first_instance i b).0 0 x.param_bound) _ (λ p h. omega arith) _
        (emitted-Made x (first_instance i b).0 (first_instance i b).1 no_param)

  from_conditions-InRange :
      (i : ℕ) (bs : List Expression)
      → All (InRange id (suc i) (i + length bs) x.param_bound) (from_conditions i bs)
  unfolding bool2_instances
  from_conditions-InRange i [] = tt
  from_conditions-InRange i (b ∷ bs) = rw (from_conditions-cons i b bs) (
      All-append _ (from_conditions (suc i) bs) (emitted x (first_instance i b))
        (All-mono (InRange id (suc (suc i)) (suc i + length bs) x.param_bound) _
          (λ p h. omega arith) _ (from_conditions-InRange (suc i) bs))
        (All-mono (InRange id (suc i) (suc i) x.param_bound) _ (λ p h. omega arith) _
          (first-Made i b)))

  from_conditions-Ordered : (i : ℕ) (bs : List Expression) → Ordered (from_conditions i bs)
  unfolding bool2_instances
  from_conditions-Ordered i [] = tt
  from_conditions-Ordered i (b ∷ bs) = rw (from_conditions-cons i b bs) (
      Ordered-append (from_conditions (suc i) bs) (emitted x (first_instance i b))
        (from_conditions-Ordered (suc i) bs)
        (emitted-Ordered x (first_instance i b).0 (first_instance i b).1)
        (All-Before (InRange id (suc (suc i)) (suc i + length bs) x.param_bound)
          (InRange id (suc i) (suc i) x.param_bound) _ _
          (λ p q h k. inr (omega arith, inl (omega arith))) (from_conditions-InRange (suc i) bs)
          (first-Made i b)))

module _ (x : Expansion) (n : ℕ) (e : Expression) where
  -- The ids of a candidate's patches: its base id, a condition or none, a parameter within the bound.
  pub candidate_patches-InRange :
      All
        (InRange (base_id_of n) 0 (length x.conditions) x.param_bound)
        (candidate_patches x (base_id_of n, e))
  unfolding candidate_patches
  candidate_patches-InRange = elim (Bool-cases (has_node_of_kind e NodeKind.bool2)) [
    | inl has ↦ rw has (
        All-mono (InRange (base_id_of n) 1 (0 + length x.conditions) x.param_bound) _
          (λ p h. omega arith) (from_conditions x (base_id_of n) e refl 0 x.conditions)
          (from_conditions-InRange x (base_id_of n) e refl 0 x.conditions))
    | inr hasnt ↦ rw hasnt (
        All-mono (Made (base_id_of n) 0 x.param_bound) _ (λ p h. omega arith) _
          (emitted-Made x (base_id_of n) e refl))
  ]

  pub candidate_patches-Ordered : Ordered (candidate_patches x (base_id_of n, e))
  unfolding candidate_patches
  candidate_patches-Ordered = elim (Bool-cases (has_node_of_kind e NodeKind.bool2)) [
    | inl has ↦ rw has (from_conditions-Ordered x (base_id_of n) e refl 0 x.conditions)
    | inr hasnt ↦ rw hasnt (emitted-Ordered x (base_id_of n) e)
  ]
