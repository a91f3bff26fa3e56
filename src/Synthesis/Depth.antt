-- ===== src/Synthesis/Depth.antt =====
-- repair/Synthesis.cpp: the depth of an expression, by which modifications are compared.
use f1x.Prelude.{ℕ, ◌+◌, ◌-◌, ltb, if◌then◌else◌, Result, ok, ◌>>=◌}
use f1x.Core.Expressions.{NodeKind, Expression, node, Args, nil, cons}
use f1x.Synthesis.Operators.{operator_weight}

-- `expressionDepth`; `args_depth` is its loop, from the `max` found so far.
unfoldable mutual
  unfolding operator_weight

  pub expression_depth : Expression → Result ℕ
  expression_depth (node NodeKind.operator t o w r xs) = do
    max ← args_depth xs 0
    weight ← operator_weight o
    ok (max + weight)
  expression_depth (node NodeKind.variable t o w r xs) = ok 1
  expression_depth (node NodeKind.constant t o w r xs) = ok 1
  expression_depth (node NodeKind.parameter t o w r xs) = ok 1
  expression_depth (node NodeKind.dereference t o w r xs) = ok 1
  expression_depth (node NodeKind.bool2 t o w r xs) = ok 2
  expression_depth (node NodeKind.int2 t o w r xs) = ok 2
  expression_depth (node NodeKind.cond3 t o w r xs) = ok 2

  pub args_depth : Args → ℕ → Result ℕ
  args_depth nil max = ok max
  args_depth (cons x xs) max = do
    depth ← expression_depth x
    args_depth xs (if ltb max depth then depth else max)

-- `substitutionDistance`
unfoldable pub substitution_distance : Expression → Expression → Result ℕ
unfolding expression_depth
substitution_distance from to = do
  a ← expression_depth from
  b ← expression_depth to
  ok (a + b - 1)
