-- ===== src/Generator/SearchSpace/Distinct.antt =====
-- repair/Synthesis.cpp: the search space as a whole. Its patches are concrete, and each has its own id.
use mathlib.Core.Option.{some-injective}
use native.Mathlib.Decide.{dec_lt}
use f1x.Prelude.{
  ℕ, zero, suc, ◌≤◌, ◌<◌, ◌≡◌, ◌≢◌, sym, ap, List, [], ◌∷◌, ◌++◌, All, All-append, All-mono,
  All-pair, All-get, get_elem?, false, some, arith, ok, Returns, Returns-bind, Returns-bind_eq,
  Returns-ok, inl, subst, String,
}
use f1x.Core.{PatchId, SchemaApplication, Patch}
use f1x.Core.Config.{Config}
use f1x.Core.Expressions.{Expression}
use f1x.Synthesis.Abstract.{is_abstract_expression}
use f1x.Synthesis.Candidates.{Modification, bool2_expressions, base_modifications}
use f1x.Synthesis.Shapes.{Concrete, Sparse, Condition, bool2_expressions-Condition}
use f1x.Synthesis.Sparse.{base_modifications-Sparse}
use f1x.Generator.Dispatch.{
  Emitted, Tables, Expansion, candidate_loop, candidate_dispatch, base_id_of, assignment,
  bool2_cases, parameter_bound,
}
use f1x.Generator.Names.{runtime_renaming}
use f1x.Generator.Instances.{candidate_patches, expand_total}
use f1x.Generator.Concrete.{candidate_patches-IsConcrete, Concrete-not_abstract}
use f1x.Generator.Order.{
  Before, Ordered, Ordered-append, All-Before, candidate_patches-InRange, candidate_patches-Ordered,
}
use f1x.Generator.SearchSpace.{
  partitioning_loop, Generated, partitioning_functions, generate_search_space,
}

-- A patch with no abstract node and a base id from `lo` on and below `hi`; two parts of the id are not
-- in use.
abbrev pub InSpace : ℕ → ℕ → Patch → Type 0
InSpace lo hi p =
    Concrete p.modified × (lo ≤ p.id.base) × (p.id.base < hi) × (p.id.int2 ≡ 0) × (p.id.cond3 ≡ 0)

abbrev Spaced : ℕ → Emitted → Type 0
Spaced base r = All (InSpace base r.next_id) r.patches × Ordered r.patches × (base ≤ r.next_id)

-- Two stretches of patches, one with the base ids that follow the other's.
join_spaces :
    (lo mid hi : ℕ) (ps qs : List Patch)
    → lo ≤ mid
    → mid ≤ hi
    → All (InSpace lo mid) ps × Ordered ps
    → All (InSpace mid hi) qs × Ordered qs
    → All (InSpace lo hi) (ps ++ qs) × Ordered (ps ++ qs)
join_spaces lo mid hi ps qs h k p q = (
  All-append (InSpace lo hi) ps qs (All-mono (InSpace lo mid) _ (λ _ u. omega arith) ps p.0)
      (All-mono (InSpace mid hi) _ (λ _ u. omega arith) qs q.0),
  Ordered-append ps qs p.1 q.1
      (All-Before (InSpace lo mid) (InSpace mid hi) ps qs (λ _ _ u v. inl (omega arith)) p.0 q.0),
)

candidate_space :
    (x : Expansion) (base : ℕ) (e : Expression)
    → Sparse e
    → All Condition x.conditions
    → All (InSpace base (suc base)) (candidate_patches x (base_id_of base, e))
      × Ordered (candidate_patches x (base_id_of base, e))
candidate_space x base e h k = (
  All-mono _ _ (λ p u. (u.0, omega (arith, u.1), omega (arith, u.1), u.1.1, u.1.4)) _
      (All-pair _ _ _ (candidate_patches-IsConcrete x (base_id_of base) e h k)
        (candidate_patches-InRange x base e)),
  candidate_patches-Ordered x base e,
)

loop_step :
    (base : ℕ) (ps : List Patch) (code : List String)
    → All (InSpace base (suc base)) ps × Ordered ps
    → (rest : Emitted) → Spaced (suc base) rest
    → Spaced base (record { code = code; patches = ps ++ rest.patches; next_id = rest.next_id })
loop_step base ps code h rest k =
    let joined =
      join_spaces base (suc base) rest.next_id ps rest.patches (omega arith) k.2 h (k.0, k.1) in
    (joined.0, joined.1, omega arith)

candidate_loop-Spaced :
    (t : Tables) (app : SchemaApplication) (conditions : List Expression) (bound base : ℕ)
    (ms : List Modification)
    → All Condition conditions
    → All (λ m. Sparse m.0) ms
    → Returns (Spaced base) (candidate_loop t app conditions bound base ms)
unfolding candidate_loop
candidate_loop-Spaced t app conditions bound base [] k h = (tt, tt, omega arith)
candidate_loop-Spaced t app conditions bound base ((e, meta) ∷ ms) k h =
    let x : Expansion = record {
      app = app;
      meta = meta;
      conditions = conditions;
      param_bound = bound;
    } in
    Returns-bind_eq (Spaced base) (assignment t "base_value" e) _ λ line _.
      rw (expand_total x (base_id_of base) e h.0 k) (
        Returns-bind (Spaced (suc base)) (Spaced base)
          (candidate_loop t app conditions bound (suc base) ms) _
          (candidate_loop-Spaced t app conditions bound (suc base) ms k h.1)
          (loop_step base (candidate_patches x (base_id_of base, e)) []
            (candidate_space x base e h.0 k)))

abbrev pub HasConcreteInput : SchemaApplication → Type 0
HasConcreteInput sa = Concrete sa.original × All Concrete sa.components

candidate_dispatch-Spaced :
    (cfg : Config) (sa : SchemaApplication) (base : ℕ)
    → HasConcreteInput sa
    → Returns (Spaced base) (candidate_dispatch cfg sa base)
unfolding candidate_dispatch
candidate_dispatch-Spaced cfg sa base h =
    Returns-bind_eq (Spaced base) (runtime_renaming sa) _ λ renaming _.
      Returns-bind (All Condition) (Spaced base) (bool2_expressions sa.components) _
        (bool2_expressions-Condition sa.components h.1)
        λ conditions k. Returns-bind_eq (Spaced base) (bool2_cases _ 0 conditions) _ λ bool2_code _.
          Returns-bind (All (λ m. Sparse m.0)) (Spaced base)
            (base_modifications sa.schema sa.original sa.components) _
            (base_modifications-Sparse sa.components h.1 sa.schema sa.original h.0)
            λ ms s.
              Returns-bind (Spaced base) (Spaced base)
                (candidate_loop _ sa conditions (parameter_bound cfg sa.context) base ms) _
                (candidate_loop-Spaced _ sa conditions (parameter_bound cfg sa.context) base ms k s)
                (λ rest r. r)

partitioning_loop-Spaced :
    (cfg : Config) (base : ℕ) (sas : List SchemaApplication)
    → All HasConcreteInput sas
    → Returns (Spaced base) (partitioning_loop cfg base sas)
unfolding partitioning_loop
partitioning_loop-Spaced cfg base [] h = (tt, tt, omega arith)
partitioning_loop-Spaced cfg base (sa ∷ sas) h =
    Returns-bind (Spaced base) (Spaced base) (candidate_dispatch cfg sa base) _
      (candidate_dispatch-Spaced cfg sa base h.0)
      λ d p.
        Returns-bind (Spaced d.next_id) (Spaced base) (partitioning_loop cfg d.next_id sas) _
          (partitioning_loop-Spaced cfg d.next_id sas h.1)
          λ rest q.
            let joined =
              join_spaces base d.next_id rest.next_id d.patches rest.patches p.2 q.2 (p.0, p.1)
                (q.0, q.1) in
            (joined.0, joined.1, omega arith)

-- The patches of a search space, with some next base id.
abbrev Whole : List Patch → Type 0
Whole ps = (hi : ℕ) × All (InSpace 1 hi) ps × Ordered ps

partitioning_functions-Spaced :
    (cfg : Config) (euid : ℕ) (sas : List SchemaApplication)
    → All HasConcreteInput sas
    → Returns (λ r. Whole r.patches) (partitioning_functions cfg euid sas)
unfolding partitioning_functions
partitioning_functions-Spaced cfg euid sas h =
    Returns-bind (Spaced 1) (λ (r : Emitted). Whole r.patches) (partitioning_loop cfg 1 sas) _
      (partitioning_loop-Spaced cfg 1 sas h) (λ r p. (r.next_id, p.0, p.1))

generate_search_space-Whole :
    (cfg : Config) (euid : ℕ) (sas : List SchemaApplication)
    → All HasConcreteInput sas
    → Returns (λ g. Whole g.search_space) (generate_search_space cfg euid sas)
unfolding generate_search_space
generate_search_space-Whole cfg euid sas h =
    Returns-bind (λ (r : Emitted). Whole r.patches) (λ (g : Generated). Whole g.search_space)
      (partitioning_functions cfg euid sas) _ (partitioning_functions-Spaced cfg euid sas h)
      (λ r p. p)

-- For schema applications whose expressions hold no abstract node, every patch of the search space that
-- `generateSearchSpace` returns is concrete: `isAbstractExpression` is false of it. Its base id is not
-- the reserved 0, and its int2 and cond3 ids are 0.
pub generate_search_space-concrete :
    (cfg : Config) (euid : ℕ) (sas : List SchemaApplication) {r : Generated}
    → All HasConcreteInput sas
    → generate_search_space cfg euid sas ≡ ok r
    → All
        (λ p.
          (is_abstract_expression p.modified ≡ false)
          × (0 < p.id.base)
          × (p.id.int2 ≡ 0)
          × (p.id.cond3 ≡ 0))
        r.search_space
generate_search_space-concrete cfg euid sas {r} h e =
    let whole : Whole r.search_space =
      Returns-ok (λ (g : Generated). Whole g.search_space) (generate_search_space cfg euid sas)
        (generate_search_space-Whole cfg euid sas h) e in
    All-mono (InSpace 1 whole.0) _
      (λ q u. (Concrete-not_abstract q.modified u.0, omega (arith, u.1), u.3, u.4)) r.search_space
      whole.1

distinct_positions :
    (ps : List Patch) (i j : ℕ) {p q : Patch}
    → Ordered ps
    → get_elem? ps i ≡ some p
    → get_elem? ps j ≡ some q
    → i < j
    → Before p q
distinct_positions [] i j h e f k = cc
distinct_positions (x ∷ ps) zero zero h e f k = absurd (omega arith)
distinct_positions (x ∷ ps) zero (suc j) {p} {q} h e f k =
    subst (λ y. Before y q) (some-injective x p e) (All-get (Before x) ps j h.0 f)
distinct_positions (x ∷ ps) (suc i) zero h e f k = absurd (omega arith)
distinct_positions (x ∷ ps) (suc i) (suc j) h e f k =
    distinct_positions ps i j h.1 e f (omega arith)

Before-irreflexive : (p q : Patch) → p.id ≡ q.id → Before p q → ⊥
Before-irreflexive p q e b =
    let base = ap (λ (id : PatchId). id.base) e in
    let bool2 = ap (λ (id : PatchId). id.bool2) e in
    let param = ap (λ (id : PatchId). id.param) e in omega (arith, base, bool2, param, b)

same_position :
    (i j : ℕ) (p q : Patch) → p.id ≡ q.id → (i < j → Before p q) → (j < i → Before q p) → i ≡ j
same_position i j p q e f g = elim (dec_lt i j) [
  | yes h ↦ absurd (Before-irreflexive p q e (f h))
  | no h ↦ elim (dec_lt j i) [
    | yes k ↦ absurd (Before-irreflexive q p (sym e) (g k))
    | no k ↦ omega arith
  ]
]

same_id_position :
    (ps : List Patch) (i j : ℕ) {p q : Patch}
    → Ordered ps
    → get_elem? ps i ≡ some p
    → get_elem? ps j ≡ some q
    → p.id ≡ q.id
    → i ≡ j
same_id_position ps i j {p} {q} h at_i at_j same =
    same_position i j p q same (distinct_positions ps i j h at_i at_j)
      (distinct_positions ps j i h at_j at_i)

-- For schema applications whose expressions hold no abstract node, the patches at different positions of
-- the search space that `generateSearchSpace` returns have different ids.
pub generate_search_space-distinct :
    (cfg : Config) (euid : ℕ) (sas : List SchemaApplication) {r : Generated} (i j : ℕ) {p q : Patch}
    → All HasConcreteInput sas
    → generate_search_space cfg euid sas ≡ ok r
    → get_elem? r.search_space i ≡ some p
    → get_elem? r.search_space j ≡ some q
    → i ≢ j
    → p.id ≢ q.id
generate_search_space-distinct cfg euid sas {r} i j h e at_i at_j differ same =
    let whole : Whole r.search_space =
      Returns-ok (λ (g : Generated). Whole g.search_space) (generate_search_space cfg euid sas)
        (generate_search_space-Whole cfg euid sas h) e in
    differ (same_id_position r.search_space i j whole.2 at_i at_j same)
