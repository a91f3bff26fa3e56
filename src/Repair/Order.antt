-- ===== src/Repair/Order.antt =====
-- repair/Repair.cpp, `prioritize`, with repair/Prioritization.cpp: the order of the search space.
use mathlib.Core.List.{Perm}
use native.Mathlib.Decide.{dec_lt}
use f1x.Prelude.{
  ℕ, ◌+◌, ◌≤◌, ◌<◌, ◌≡◌, ◌≢◌, ◌∙◌, refl, sym, List, [], ◌∷◌, All, All-mono, All-pair, true, false,
  if◌then◌else◌, Bool-cases, inl, inr, ◌⊎◌, arith, by_key, stable_sort-perm, stable_sort-IsSorted,
  stable_sort-All, IsSorted, with_key, with_key-stable_sort,
}
use f1x.Core.{PatchId, patch_id_eq, Patch, TransformationSchema, SynthesisRule}
use f1x.Prioritization.{discount, syntactic_diff, no_cost}
use f1x.Repair.{costs, record_costs, prioritize}

abbrev pub cost_in : List Patch → Patch → ℕ
cost_in ps p = costs ps p.id

-- Among patches of one distance: guards, and expressions with another operator, swapped, simplified,
-- generalized or substituted, come first, then loosened and tightened conditions, then the rest.
abbrev rank_of : TransformationSchema → SynthesisRule → ℕ
rank_of TransformationSchema.if_guard r = 0
rank_of TransformationSchema.expression SynthesisRule.operator = 0
rank_of TransformationSchema.expression SynthesisRule.swaping = 0
rank_of TransformationSchema.expression SynthesisRule.simplification = 0
rank_of TransformationSchema.expression SynthesisRule.generalization = 0
rank_of TransformationSchema.expression SynthesisRule.substitution = 0
rank_of TransformationSchema.expression SynthesisRule.loosening = 1
rank_of TransformationSchema.expression SynthesisRule.tightening = 1
rank_of s r = 2

abbrev pub rank : Patch → ℕ
rank p = rank_of p.app.schema p.meta.rule

-- A smaller distance comes first, whatever the rules are; the rank decides between equal distances.
abbrev pub Precedes : Patch → Patch → Type 0
Precedes p q =
    (p.meta.distance < q.meta.distance) ⊎ ((p.meta.distance ≡ q.meta.distance) × (rank p ≤ rank q))

abbrev pub IsRanked : List Patch → Type 0
IsRanked [] = Unit
IsRanked (p ∷ ps) = All (Precedes p) ps × IsRanked ps

abbrev pub DistinctIds : List Patch → Type 0
DistinctIds [] = Unit
DistinctIds (p ∷ ps) = All (λ q. p.id ≢ q.id) ps × DistinctIds ps

discount-rank : (s : TransformationSchema) (r : SynthesisRule) → discount s r + rank_of s r ≡ 2
discount-rank TransformationSchema.if_guard r = refl
discount-rank TransformationSchema.expression SynthesisRule.operator = refl
discount-rank TransformationSchema.expression SynthesisRule.swaping = refl
discount-rank TransformationSchema.expression SynthesisRule.simplification = refl
discount-rank TransformationSchema.expression SynthesisRule.generalization = refl
discount-rank TransformationSchema.expression SynthesisRule.substitution = refl
discount-rank TransformationSchema.expression SynthesisRule.loosening = refl
discount-rank TransformationSchema.expression SynthesisRule.tightening = refl
discount-rank TransformationSchema.expression _ = refl
discount-rank _ r = refl

syntactic_diff-Precedes : (p q : Patch) → syntactic_diff p ≤ syntactic_diff q → Precedes p q
syntactic_diff-Precedes p q h =
    let at_p = discount-rank p.app.schema p.meta.rule in
    let at_q = discount-rank q.app.schema q.meta.rule in
    elim (dec_lt p.meta.distance q.meta.distance) [
      | yes less ↦ inl less
      | no more ↦ inr (omega (arith, at_p, at_q, h), omega (arith, at_p, at_q, h))
    ]

patch_id_eq_refl : (id : PatchId) → patch_id_eq id id ≡ true
patch_id_eq_refl id = ground arith

patch_id_eq_sound : (p q : PatchId) → patch_id_eq p q ≡ true → p ≡ q
patch_id_eq_sound p q h = ground arith

patch_id_eq_other : (p q : PatchId) → p ≢ q → patch_id_eq p q ≡ false
patch_id_eq_other p q h = elim (Bool-cases (patch_id_eq p q)) [
  | inl e ↦ absurd (h (patch_id_eq_sound p q e))
  | inr e ↦ e
]

-- The cost of an id that no patch of the list has
other_cost :
    (cost : PatchId → ℕ) (id : PatchId) (ps : List Patch)
    → All (λ q. id ≢ q.id) ps
    → record_costs cost ps id ≡ cost id
other_cost cost id [] h = refl
other_cost cost id (p ∷ ps) h =
    other_cost (λ x. if patch_id_eq p.id x then syntactic_diff p else cost x) id ps h.1
    ∙ rw (patch_id_eq_other p.id id (λ e. h.0 (sym e))) refl

own_costs :
    (cost : PatchId → ℕ) (ps : List Patch)
    → DistinctIds ps
    → All (λ p. record_costs cost ps p.id ≡ syntactic_diff p) ps
own_costs cost [] h = tt
own_costs cost (p ∷ ps) h =
    let later = λ (x : PatchId). if patch_id_eq p.id x then syntactic_diff p else cost x in
    (other_cost later p.id ps h.0 ∙ rw (patch_id_eq_refl p.id) refl, own_costs later ps h.1)

sorted-IsRanked :
    (key : Patch → ℕ) (ps : List Patch)
    → All (λ p. key p ≡ syntactic_diff p) ps
    → IsSorted key ps
    → IsRanked ps
sorted-IsRanked key [] e h = tt
sorted-IsRanked key (p ∷ ps) e h = (
  All-mono _ _ (λ q u. syntactic_diff-Precedes p q (omega (arith, e.0, u.0, u.1))) ps
      (All-pair _ _ ps e.1 h.0),
  sorted-IsRanked key ps e.1 h.1,
)

-- For a search space of patches with different ids, prioritization by syntactic cost rearranges it so
-- that each patch precedes the later ones: its distance is smaller, or it is the same and the kind of
-- the patch ranks as well or better. Patches of equal cost keep their order.
pub prioritize-IsRanked :
    (ps : List Patch)
    → DistinctIds ps
    → Perm (prioritize ps (costs ps)) ps
      × IsRanked (prioritize ps (costs ps))
      × ((n : ℕ) → with_key (cost_in ps) n (prioritize ps (costs ps)) ≡ with_key (cost_in ps) n ps)
prioritize-IsRanked ps h = (
  stable_sort-perm (by_key (cost_in ps)) ps,
  sorted-IsRanked (cost_in ps) (prioritize ps (costs ps))
      (stable_sort-All (by_key (cost_in ps)) _ ps (own_costs (λ id. no_cost) ps h))
      (stable_sort-IsSorted (cost_in ps) ps),
  λ n. with_key-stable_sort (cost_in ps) n ps,
)
