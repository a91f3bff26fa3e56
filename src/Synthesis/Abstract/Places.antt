-- ===== src/Synthesis/Abstract/Places.antt =====
-- repair/Synthesis.cpp, `substituteNodeOfKind`: which node is replaced, by its place in the tree. A place
-- is the list of the argument indexes from the root down.
use f1x.Prelude.{
  ℕ, zero, suc, ◌≡◌, refl, List, [], ◌∷◌, Bool, true, false, ◌⊎◌, inl, inr, Bool-cases,
}
use f1x.Core.Expressions.{NodeKind, Expression, node, Args, nil, cons, kind_eq}
use f1x.Synthesis.Abstract.{has_node_of_kind, any_of_kind, substitute_node_of_kind, substitute_args}

abbrev pub Place : Type 0
Place = List ℕ

-- There is a node at the place, and it has the kind.
abbrev mutual
  pub HasKindAt : NodeKind → Place → Expression → Type 0
  HasKindAt kind [] (node k t o w r xs) = kind_eq k kind ≡ true
  HasKindAt kind (i ∷ p) (node k t o w r xs) = ArgHasKindAt kind i p xs

  pub ArgHasKindAt : NodeKind → ℕ → Place → Args → Type 0
  ArgHasKindAt kind i p nil = ⊥
  ArgHasKindAt kind zero p (cons x xs) = HasKindAt kind p x
  ArgHasKindAt kind (suc i) p (cons x xs) = ArgHasKindAt kind i p xs

-- No node before the place has the kind: none on the way to it, and none in the arguments to the left.
abbrev mutual
  pub NoneBefore : NodeKind → Place → Expression → Type 0
  NoneBefore kind [] e = Unit
  NoneBefore kind (i ∷ p) (node k t o w r xs) = (kind_eq k kind ≡ false) × ArgNoneBefore kind i p xs

  pub ArgNoneBefore : NodeKind → ℕ → Place → Args → Type 0
  ArgNoneBefore kind i p nil = ⊥
  ArgNoneBefore kind zero p (cons x xs) = NoneBefore kind p x
  ArgNoneBefore kind (suc i) p (cons x xs) =
      (has_node_of_kind x kind ≡ false) × ArgNoneBefore kind i p xs

-- The tree with another one at the place, and all else kept.
abbrev mutual
  pub put_at : Place → Expression → Expression → Expression
  put_at [] s e = s
  put_at (i ∷ p) s (node k t o w r xs) = node k t o w r (put_arg i p s xs)

  pub put_arg : ℕ → Place → Expression → Args → Args
  put_arg i p s nil = nil
  put_arg zero p s (cons x xs) = cons (put_at p s x) xs
  put_arg (suc i) p s (cons x xs) = cons x (put_arg i p s xs)

-- Without a node of the kind nothing changes.
mutual
  unfolding has_node_of_kind substitute_node_of_kind

  unchanged :
      (e : Expression) (kind : NodeKind) (s : Expression)
      → has_node_of_kind e kind ≡ false
      → substitute_node_of_kind e kind s ≡ (false, e)
  unchanged (node k t o w r xs) kind s h = elim (Bool-cases (kind_eq k kind)) [
    | inl e ↦ cc (rw e at h)
    | inr e ↦ rw (e, unchanged_args xs kind s (rw e at h)) refl
  ]

  unchanged_args :
      (xs : Args) (kind : NodeKind) (s : Expression)
      → any_of_kind xs kind ≡ false
      → substitute_args xs kind s ≡ (false, xs)
  unchanged_args nil kind s h = refl
  unchanged_args (cons x xs) kind s h = elim (Bool-cases (has_node_of_kind x kind)) [
    | inl e ↦ cc (rw e at h)
    | inr e ↦ rw (unchanged x kind s e, unchanged_args xs kind s (rw e at h)) refl
  ]

abbrev pub Replaced : NodeKind → Expression → Expression → Bool × Expression → Type 0
Replaced kind s e result =
    (p : Place) × HasKindAt kind p e × NoneBefore kind p e × (result ≡ (true, put_at p s e))

abbrev ArgReplaced : NodeKind → Expression → Args → Bool × Args → Type 0
ArgReplaced kind s xs result =
    (i : ℕ) × (p : Place) × ArgHasKindAt kind i p xs
    × ArgNoneBefore kind i p xs
    × (result ≡ (true, put_arg i p s xs))

mutual
  unfolding has_node_of_kind substitute_node_of_kind

  replaced :
      (e : Expression) (kind : NodeKind) (s : Expression)
      → has_node_of_kind e kind ≡ true
      → Replaced kind s e (substitute_node_of_kind e kind s)
  replaced (node k t o w r xs) kind s h = elim (Bool-cases (kind_eq k kind)) [
    | inl e ↦ ([], e, tt, rw e refl)
    | inr e ↦
        let (i, p, at, before, same) = replaced_args xs kind s (rw e at h) in
        (i ∷ p, at, (e, before), rw (e, same) refl)
  ]

  replaced_args :
      (xs : Args) (kind : NodeKind) (s : Expression)
      → any_of_kind xs kind ≡ true
      → ArgReplaced kind s xs (substitute_args xs kind s)
  replaced_args nil kind s h = cc h
  replaced_args (cons x xs) kind s h = elim (Bool-cases (has_node_of_kind x kind)) [
    | inl e ↦ let (p, at, before, same) = replaced x kind s e in (zero, p, at, before, rw same refl)
    | inr e ↦
        let (i, p, at, before, same) = replaced_args xs kind s (rw e at h) in
        (suc i, p, at, (e, before), rw (unchanged x kind s e, same) refl)
  ]

-- `substituteNodeOfKind` either finds no node of the kind, reports false and returns the expression as it
-- is, or reports true and returns the expression with the substitution at the place of one node of the
-- kind and everything else kept; no node on the way to that place or in the arguments to the left of the
-- way has the kind.
pub substitute_node_of_kind-first :
    (e : Expression) (kind : NodeKind) (s : Expression)
    → ((has_node_of_kind e kind ≡ false) × (substitute_node_of_kind e kind s ≡ (false, e)))
      ⊎ Replaced kind s e (substitute_node_of_kind e kind s)
substitute_node_of_kind-first e kind s = elim (Bool-cases (has_node_of_kind e kind)) [
  | inl has ↦ inr (replaced e kind s has)
  | inr hasnt ↦ inl (hasnt, unchanged e kind s hasnt)
]
