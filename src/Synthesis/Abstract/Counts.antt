-- ===== src/Synthesis/Abstract/Counts.antt =====
-- repair/Synthesis.cpp: how many nodes of a kind an expression holds, before and after a replacement.
use f1x.Prelude.{ℕ, ◌+◌, ◌≤◌, ◌<◌, ◌≡◌, refl, Bool, true, false, arith}
use f1x.Core.Expressions.{NodeKind, Expression, node, Args, nil, cons, kind_eq}
use f1x.Synthesis.Abstract.{has_node_of_kind, any_of_kind, substitute_node_of_kind, substitute_args}

abbrev pub tally : Bool → ℕ
tally true = 1
tally false = 0

unfoldable mutual
  pub count : NodeKind → Expression → ℕ
  count kind (node k t o w r xs) = tally (kind_eq k kind) + count_args kind xs

  pub count_args : NodeKind → Args → ℕ
  count_args kind nil = 0
  count_args kind (cons x xs) = count kind x + count_args kind xs

mutual
  unfolding count has_node_of_kind

  has-count :
      (kind : NodeKind) (e : Expression) → has_node_of_kind e kind ≡ false → count kind e ≡ 0
  has-count kind (node k t o w r xs) h = ground (arith, any-count kind xs)

  any-count : (kind : NodeKind) (xs : Args) → any_of_kind xs kind ≡ false → count_args kind xs ≡ 0
  any-count kind nil h = refl
  any-count kind (cons x xs) h = ground (arith, has-count kind x, any-count kind xs)

mutual
  unfolding count has_node_of_kind

  count-has : (kind : NodeKind) (e : Expression) → has_node_of_kind e kind ≡ true → 0 < count kind e
  count-has kind (node k t o w r xs) h = ground (arith, count-any kind xs)

  count-any : (kind : NodeKind) (xs : Args) → any_of_kind xs kind ≡ true → 0 < count_args kind xs
  count-any kind nil h = cc
  count-any kind (cons x xs) h = ground (arith, count-has kind x, count-any kind xs)

-- Nodes of the kind are found exactly where there are some.
pub has_iff_count :
    (kind : NodeKind) (e : Expression)
    → (has_node_of_kind e kind ≡ false → count kind e ≡ 0)
      × (has_node_of_kind e kind ≡ true → 0 < count kind e)
has_iff_count kind e = (has-count kind e, count-has kind e)

-- A replacement finds a node exactly where there is one.
mutual
  unfolding has_node_of_kind substitute_node_of_kind

  found-has :
      (e : Expression) (kind : NodeKind) (s : Expression)
      → (substitute_node_of_kind e kind s).0 ≡ has_node_of_kind e kind
  found-has (node k t o w r xs) kind s = ground (arith, found-any xs kind s)

  found-any :
      (xs : Args) (kind : NodeKind) (s : Expression)
      → (substitute_args xs kind s).0 ≡ any_of_kind xs kind
  found-any nil kind s = refl
  found-any (cons x xs) kind s = ground (arith, found-has x kind s, found-any xs kind s)

abbrev when_found : Bool → ℕ → ℕ
when_found true n = n
when_found false n = 0

same_kind :
    (k kind j : NodeKind) → kind_eq k kind ≡ true → tally (kind_eq k j) ≡ tally (kind_eq kind j)
same_kind k kind j h = ground arith

-- The replaced node goes, and what stands in its place comes.
mutual
  unfolding count substitute_node_of_kind

  count-substitute :
      (j : NodeKind) (e : Expression) (kind : NodeKind) (s : Expression)
      → count j (substitute_node_of_kind e kind s).1
          + when_found (substitute_node_of_kind e kind s).0 (tally (kind_eq kind j))
        ≤ count j e + when_found (substitute_node_of_kind e kind s).0 (count j s)
  count-substitute j (node k t o w r xs) kind s =
      ground (arith, same_kind k kind j, count-substitute_args j xs kind s)

  count-substitute_args :
      (j : NodeKind) (xs : Args) (kind : NodeKind) (s : Expression)
      → count_args j (substitute_args xs kind s).1
          + when_found (substitute_args xs kind s).0 (tally (kind_eq kind j))
        ≤ count_args j xs + when_found (substitute_args xs kind s).0 (count j s)
  count-substitute_args j nil kind s = ground arith
  count-substitute_args j (cons x xs) kind s =
      ground (arith, count-substitute j x kind s, count-substitute_args j xs kind s)

-- Where an expression has a node of the kind, a replacement takes one such node out of it, and brings
-- in no more nodes of any kind than the substituted expression has.
pub count-substitute-le :
    (j : NodeKind) (e : Expression) (kind : NodeKind) (s : Expression)
    → has_node_of_kind e kind ≡ true
    → count j (substitute_node_of_kind e kind s).1 + tally (kind_eq kind j) ≤ count j e + count j s
count-substitute-le j e kind s h = ground (arith, found-has e kind s, count-substitute j e kind s)
