-- ===== src/Generator/Instances.antt =====
-- repair/Synthesis.cpp: the expansion of a candidate ends, and its patches hold no abstract node.
use mathlib.Core.List.{append_assoc, append-nil}
use f1x.Prelude.{
  ℕ, zero, suc, ◌≤◌, ◌≡◌, refl, sym, ap, ◌∙◌, List, [], ◌∷◌, ◌++◌, reverse, length, flat_map, All,
  All-reverse, length-append, true, false, some, if◌then◌else◌, arith, Bool-cases, inl, inr,
}
use f1x.Core.{PatchId, Patch}
use f1x.Core.Expressions.{NodeKind, Expression}
use f1x.Synthesis.Abstract.{has_node_of_kind, substitute_node_of_kind}
use f1x.Synthesis.Abstract.Counts.{count-substitute-le, has_iff_count}
use f1x.Synthesis.Shapes.{Sparse, Condition}
use f1x.Generator.Dispatch.{
  Instance, bool2_instances, Expansion, pushed, emitted, expand, expansion_fuel,
}

abbrev IsCondition : Instance → Type 0
IsCondition c = Condition c.1

Condition-instance :
    (e b : Expression)
    → Sparse e
    → Condition b
    → has_node_of_kind e NodeKind.bool2 ≡ true
    → Condition (substitute_node_of_kind e NodeKind.bool2 b).1
Condition-instance e b h k has =
    let j₀ = count-substitute-le NodeKind.int2 e NodeKind.bool2 b has in
    let j₁ = count-substitute-le NodeKind.cond3 e NodeKind.bool2 b has in
    let j₂ = count-substitute-le NodeKind.bool2 e NodeKind.bool2 b has in
    let j₃ = count-substitute-le NodeKind.parameter e NodeKind.bool2 b has in
    let some_node = (has_iff_count NodeKind.bool2 e).1 has in
    omega (arith, j₀, j₁, j₂, j₃, some_node)

pub bool2_instances-Condition :
    (id : PatchId) (e : Expression) (i : ℕ) (bs : List Expression)
    → Sparse e
    → has_node_of_kind e NodeKind.bool2 ≡ true
    → All Condition bs
    → All IsCondition (bool2_instances (id, e) i bs)
unfolding bool2_instances
bool2_instances-Condition id e i [] h has k = tt
bool2_instances-Condition id e i (b ∷ bs) h has k =
    (Condition-instance e b h k.0 has, bool2_instances-Condition id e (suc i) bs h has k.1)

length-bool2_instances :
    (c : Instance) (i : ℕ) (bs : List Expression) → length (bool2_instances c i bs) ≡ length bs
unfolding bool2_instances
length-bool2_instances (id, e) i [] = refl
length-bool2_instances (id, e) i (b ∷ bs) = ap suc (length-bool2_instances (id, e) (suc i) bs)

length-reverse {ℓ} : {A : Type ℓ} (xs : List A) → length (reverse xs) ≡ length xs
length-reverse [] = refl
length-reverse (x ∷ xs) = omega (
  arith,
  ap length (mathlib.Core.List.reverse-cons x xs),
  length-append (reverse xs) (x ∷ []),
  length-reverse xs,
)

no-Condition : (e : Expression) → Condition e → has_node_of_kind e NodeKind.bool2 ≡ false
no-Condition e h = elim (Bool-cases (has_node_of_kind e NodeKind.bool2)) [
  | inl has ↦ absurd (omega (arith, (has_iff_count NodeKind.bool2 e).1 has))
  | inr none_left ↦ none_left
]

module _ (x : Expansion) where
  -- The patches of a candidate, with no stack.
  unfoldable pub candidate_patches : Instance → List Patch
  candidate_patches (id, e) =
      if has_node_of_kind e NodeKind.bool2
      then flat_map (emitted x) (reverse (bool2_instances (id, e) 0 x.conditions))
      else emitted x (id, e)

  module _ (id : PatchId) (e : Expression) where
    pushed-some :
        has_node_of_kind e NodeKind.bool2 ≡ true
        → pushed x (id, e) ≡ reverse (bool2_instances (id, e) 0 x.conditions)
    unfolding pushed
    pushed-some h = rw h

    pushed-no : has_node_of_kind e NodeKind.bool2 ≡ false → pushed x (id, e) ≡ []
    unfolding pushed
    pushed-no h = rw h

    emitted-none : has_node_of_kind e NodeKind.bool2 ≡ true → emitted x (id, e) ≡ []
    unfolding emitted
    emitted-none h = rw h

  pushed-none : (c : Instance) → IsCondition c → pushed x c ≡ []
  unfolding pushed
  pushed-none (id, e) h = rw (no-Condition e h)

  expand-conditions :
      (fuel : ℕ) (stack : List Instance) (ss : List Patch)
      → All IsCondition stack
      → length stack ≤ fuel
      → expand fuel x stack ss ≡ some (ss ++ flat_map (emitted x) stack)
  unfolding expand
  expand-conditions fuel [] ss h k = ap some (sym (append-nil ss))
  expand-conditions zero (c ∷ stack) ss h k = absurd (omega arith)
  expand-conditions (suc fuel) (c ∷ stack) ss h k =
      ap (λ s. expand fuel x (s ++ stack) (ss ++ emitted x c)) (pushed-none c h.0)
      ∙ (expand-conditions fuel stack (ss ++ emitted x c) h.1 (omega arith)
          ∙ ap some (append_assoc ss (emitted x c) (flat_map (emitted x) stack)))

  expand_step :
      (fuel : ℕ) (c : Instance) {stack : List Instance} {ps : List Patch}
      → pushed x c ≡ stack
      → emitted x c ≡ ps
      → expand (suc fuel) x (c ∷ []) [] ≡ expand fuel x (stack ++ []) ps
  unfolding expand
  expand_step fuel c {stack} p q =
      ap (λ s. expand fuel x (s ++ []) (emitted x c)) p ∙ ap (expand fuel x (stack ++ [])) q

  -- For a candidate with one abstract node at most, and conditions with a parameter at most: the loop over
  -- the stack ends with the patches of the candidate, within a round for the candidate and one for each
  -- condition.
  pub expand_total :
      (id : PatchId) (e : Expression)
      → Sparse e
      → All Condition x.conditions
      → expand (expansion_fuel x.conditions) x ((id, e) ∷ []) [] ≡ some (candidate_patches (id, e))
  unfolding candidate_patches
  expand_total id e h k = elim (Bool-cases (has_node_of_kind e NodeKind.bool2)) [
    | inl has ↦
        let instances = bool2_instances (id, e) 0 x.conditions in
        let all = bool2_instances-Condition id e 0 x.conditions h has k in
        expand_step (length x.conditions) (id, e) (pushed-some id e has) (emitted-none id e has)
        ∙ (ap (λ s. expand (length x.conditions) x s []) (append-nil (reverse instances))
            ∙ (expand-conditions (length x.conditions) (reverse instances) []
                  (All-reverse IsCondition instances all)
                  (omega (
                    arith,
                    length-reverse instances,
                    length-bool2_instances (id, e) 0 x.conditions,
                  ))
                ∙ rw has))
    | inr hasnt ↦
        expand_step (length x.conditions) (id, e) (pushed-no id e hasnt) refl
        ∙ (expand-conditions (length x.conditions) [] (emitted x (id, e)) tt (omega arith)
            ∙ (ap some (append-nil (emitted x (id, e))) ∙ rw hasnt))
  ]
