-- ===== src/Samples/LocalizationRuns.antt =====
-- Runs of repair/FaultLocalization.cpp.
use f1x.Prelude.{
  ℕ, ◌+◌, ◌*◌, ◌/◌, ◌≡◌, refl, List, [], ◌∷◌, Bool, true, false, Option, none, some, String, str_eq,
  arith, ◌==◌, ltb, if◌then◌else◌,
}
use f1x.Core.{TestStatus}
use f1x.FaultLocalization.{
  CoverageTool, no_traces, trace_tests, tarantula_custom, tally, line_score, sum_scores, file_score,
  select, localize,
}
use f1x.FaultLocalization.Arithmetic.{unsigned, Double, Rules}
use f1x.FaultLocalization.Best.{IsBest, localize-IsBest}

-- Doubles in thousandths.
abbrev pub thousandths : Double ℕ
thousandths = record {
  of_nat = λ n. n * 1000;
  add = λ a b. a + b;
  div = λ a b. elim (b == 0) [ true ↦ 0 | false ↦ a * 1000 / b ];
  is_zero = λ a. a == 0;
  gt = λ a b. ltb b a;
}

gt_asymmetric_lem : (x y : ℕ) → Unit {0} → Unit {0} → ltb y x ≡ true → ltb x y ≡ false
gt_asymmetric_lem x y h k e = ground (arith, e)

not_gt_transitive_lem :
    (x y z : ℕ)
    → Unit {0}
    → Unit {0}
    → Unit {0}
    → ltb y x ≡ false
    → ltb z y ≡ false
    → ltb z x ≡ false
not_gt_transitive_lem x y z h k l e e' = ground (arith, e, e')

abbrev thousandths_rules : Rules thousandths
thousandths_rules = record {
  IsFraction = λ x. Unit;
  IsSum = λ x. Unit;
  of_nat-IsFraction = λ n h. tt;
  div-IsFraction = λ n m h k e. tt;
  share-IsFraction = λ x y h k e. tt;
  zero-IsSum = tt;
  add-IsSum = λ x y h k. tt;
  gt_asymmetric = gt_asymmetric_lem;
  not_gt_transitive = not_gt_transitive_lem;
}

-- The failing test runs a line that the passing one does not.
abbrev sample_tool : CoverageTool ℕ
sample_tool = record {
  execute = λ w t. (if str_eq t "n1" then TestStatus.fail else TestStatus.pass, w + 1);
  extract_and_save_coverage = λ w t. (
    if str_eq t "n1"
        then some (("a.c", 3 ∷ []) ∷ ("b.c", 7 ∷ 8 ∷ []) ∷ [])
        else some (("a.c", 3 ∷ []) ∷ []),
    w,
  );
}

localize-IsBest_example :
    IsBest thousandths
      (file_score thousandths
        (λ lines. lines)
        (trace_tests sample_tool ("p1" ∷ "n1" ∷ []) no_traces 0).0
        ("p1" ∷ "n1" ∷ []))
      2
      ("a.c" ∷ "b.c" ∷ "c.c" ∷ [])
      (localize thousandths
        (λ lines. lines)
        sample_tool
        2
        ("p1" ∷ "n1" ∷ [])
        ("a.c" ∷ "b.c" ∷ "c.c" ∷ [])
        0).0
localize-IsBest_example =
    localize-IsBest thousandths thousandths_rules (λ lines. lines) sample_tool 2 ("p1" ∷ "n1" ∷ [])
      ("a.c" ∷ "b.c" ∷ "c.c" ∷ []) 0

localized_example :
    localize thousandths
      (λ lines. lines)
      sample_tool
      2
      ("p1" ∷ "n1" ∷ [])
      ("a.c" ∷ "b.c" ∷ "c.c" ∷ [])
      0
    ≡ ("b.c" ∷ "a.c" ∷ [], 2)
unfolding localize select trace_tests f1x.Prelude.stable_sort f1x.FaultLocalization.record_test
    file_score f1x.FaultLocalization.record_coverage sum_scores f1x.FaultLocalization.count_tests
    f1x.FaultLocalization.count_lines f1x.Prelude.text_lookup f1x.Prelude.text_insert line_score
    tarantula_custom unsigned
localized_example = refl
