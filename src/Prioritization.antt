-- ===== src/Prioritization.antt =====
-- repair/Prioritization.cpp: the syntactic cost of a patch. The source counts in doubles, with steps of
-- 0.1; here a cost is in tenths, with 2 added, which keeps it natural and every comparison as it is.
use f1x.Prelude.{ℕ, ◌+◌, ◌*◌, ◌-◌}
use f1x.Core.{Patch, TransformationSchema, SynthesisRule}

-- The constants GOOD and OK, and 0
abbrev good : ℕ
good = 2

abbrev ok : ℕ
ok = 1

abbrev bad : ℕ
bad = 0

abbrev pub discount : TransformationSchema → SynthesisRule → ℕ
discount TransformationSchema.expression SynthesisRule.operator = good
discount TransformationSchema.expression SynthesisRule.swaping = good
discount TransformationSchema.expression SynthesisRule.simplification = good
discount TransformationSchema.expression SynthesisRule.generalization = good
discount TransformationSchema.expression SynthesisRule.substitution = good
discount TransformationSchema.expression SynthesisRule.loosening = ok
discount TransformationSchema.expression SynthesisRule.tightening = ok
discount TransformationSchema.if_guard r = good
discount s r = bad

-- The cost of 0
abbrev pub no_cost : ℕ
no_cost = 2

-- `syntacticDiff`
abbrev pub syntactic_diff : Patch → ℕ
syntactic_diff p = (10 * p.meta.distance + no_cost) - discount p.app.schema p.meta.rule
