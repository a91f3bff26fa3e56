-- ===== src/Synthesis/Abstract.antt =====
-- repair/Synthesis.cpp: abstract nodes in expressions (`hasNodeOfKind`, `isAbstractExpression`), and
-- their replacement (`substituteNodeOfKind`).
pub mod Counts
pub mod Places
use f1x.Prelude.{Bool, true, false, if◌then◌else◌}
use f1x.Core.Expressions.{NodeKind, Expression, node, Args, nil, cons, kind_eq}
use f1x.Util.Operators.{is_abstract_node}

-- `isAbstractExpression`
unfoldable mutual
  pub is_abstract_expression : Expression → Bool
  is_abstract_expression (node k t o w r xs) =
      let inside = any_abstract xs in if is_abstract_node k then true else inside

  pub any_abstract : Args → Bool
  any_abstract nil = false
  any_abstract (cons x xs) =
      let rest = any_abstract xs in if is_abstract_expression x then true else rest

-- `hasNodeOfKind`
unfoldable mutual
  pub has_node_of_kind : Expression → NodeKind → Bool
  has_node_of_kind (node k t o w r xs) kind =
      let inside = any_of_kind xs kind in if kind_eq k kind then true else inside

  pub any_of_kind : Args → NodeKind → Bool
  any_of_kind nil kind = false
  any_of_kind (cons x xs) kind =
      let rest = any_of_kind xs kind in if has_node_of_kind x kind then true else rest

-- `substituteNodeOfKind`: the first node of the kind, with whether there was one. The loop over the
-- arguments ends at the first that holds such a node.
unfoldable mutual
  pub substitute_node_of_kind : Expression → NodeKind → Expression → Bool × Expression
  substitute_node_of_kind (node k t o w r xs) kind substitution =
      let inside = substitute_args xs kind substitution in
      if kind_eq k kind then (true, substitution) else (inside.0, node k t o w r inside.1)

  pub substitute_args : Args → NodeKind → Expression → Bool × Args
  substitute_args nil kind substitution = (false, nil)
  substitute_args (cons x xs) kind substitution =
      let first = substitute_node_of_kind x kind substitution in
      let rest = substitute_args xs kind substitution in
      if first.0 then (true, cons first.1 xs) else (rest.0, cons first.1 rest.1)
