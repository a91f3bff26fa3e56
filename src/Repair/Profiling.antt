-- ===== src/Repair/Profiling.antt =====
-- repair/Repair.cpp: the tests are run once, with the runtime of the profiler.
use f1x.Prelude.{
  ℕ, suc, ◌+◌, ◌≡◌, refl, sym, ◌∙◌, ap, subst, List, [], ◌∷◌, ◌++◌, length, Bool, true, false,
  String, if◌then◌else◌, Bool-cases, inl, inr, arith,
}
use mathlib.Core.List.{append-nil, append_assoc}
use f1x.Core.{Location, TestStatus}
use f1x.SearchEngine.{is_pass}
use f1x.Profiler.{Profiler, empty_profiler, merge_trace}
use f1x.Profiler.Order.{AllInOrder, merge_trace-InOrder}

-- The runs of the tests: `clearTrace`, the run of a test, and the locations of the trace that it leaves
pub record TracedTests (W : Type 0) : Type 0 where
  pub clear_trace : W → W
  pub execute : W → String → TestStatus × W
  pub read_trace : W → List Location

-- The variables of the loop
pub record Profiled (W : Type 0) : Type 0 where
  pub num_positive : ℕ
  pub num_negative : ℕ
  pub negative_tests : List String
  pub profiler : Profiler
  pub world : W

module _ {W : Type 0} (traced : TracedTests W) where
  -- The body of the loop, for the test of an index
  unfoldable pub profile_test : ℕ → String → Profiled W → Profiled W
  profile_test i test s =
      let ran = traced.execute (traced.clear_trace s.world) test in
      let merged = merge_trace i (is_pass ran.0) (traced.read_trace ran.1) s.profiler in
      if is_pass ran.0
      then record s { num_positive = s.num_positive + 1; profiler = merged; world = ran.1 }
      else record {
        num_positive = s.num_positive;
        num_negative = s.num_negative + 1;
        negative_tests = s.negative_tests ++ test ∷ [];
        profiler = merged;
        world = ran.1;
      }

  -- The loop over the tests, from an index on
  unfoldable pub profile_tests : ℕ → List String → Profiled W → Profiled W
  profile_tests i [] s = s
  profile_tests i (test ∷ tests) s = profile_tests (suc i) tests (profile_test i test s)

  abbrev pub not_profiled : W → Profiled W
  not_profiled w = record {
    num_positive = 0;
    num_negative = 0;
    negative_tests = [];
    profiler = empty_profiler;
    world = w;
  }

  -- Where each test, by its index, gives the same verdict in every run.
  module _ (passes : ℕ → Bool) where
    -- The verdicts of tests, from an index on
    abbrev pub HaveVerdicts : ℕ → List String → Type 0
    HaveVerdicts i [] = Unit
    HaveVerdicts i (test ∷ tests) =
        ((w : W) → is_pass (traced.execute w test).0 ≡ passes i) × HaveVerdicts (suc i) tests

    -- The failing tests, from an index on
    abbrev pub failing_from : ℕ → List String → List String
    failing_from i [] = []
    failing_from i (test ∷ tests) =
        let rest = failing_from (suc i) tests in if passes i then rest else test ∷ rest

    abbrev Kept : Profiled W → Type 0
    Kept s = AllInOrder passes s.profiler.related_test_indexes

    -- What the loop makes of a state, with the failing tests among those that are run.
    abbrev Extends : List String → ℕ → Profiled W → Profiled W → Type 0
    Extends failing n s r =
        (r.negative_tests ≡ s.negative_tests ++ failing)
        × (r.num_negative ≡ s.num_negative + length failing)
        × (r.num_positive + r.num_negative ≡ s.num_positive + s.num_negative + n)
        × Kept r

    profile_test-pass :
        (i : ℕ) (test : String) (s : Profiled W)
        → is_pass (traced.execute (traced.clear_trace s.world) test).0 ≡ passes i
        → passes i ≡ true
        → Kept s
        → Extends [] 1 s (profile_test i test s)
    unfolding profile_test
    profile_test-pass i test s verdict e h =
        let ran = traced.execute (traced.clear_trace s.world) test in
        let same : is_pass ran.0 ≡ true = verdict ∙ e in
        let merged =
          subst
            (λ b.
              AllInOrder passes
                (merge_trace i b (traced.read_trace ran.1) s.profiler).related_test_indexes)
            e (merge_trace-InOrder passes i (traced.read_trace ran.1) s.profiler h) in
        rw same (sym (append-nil s.negative_tests), omega arith, omega arith, merged)

    profile_test-fail :
        (i : ℕ) (test : String) (s : Profiled W)
        → is_pass (traced.execute (traced.clear_trace s.world) test).0 ≡ passes i
        → passes i ≡ false
        → Kept s
        → Extends (test ∷ []) 1 s (profile_test i test s)
    unfolding profile_test
    profile_test-fail i test s verdict e h =
        let ran = traced.execute (traced.clear_trace s.world) test in
        let same : is_pass ran.0 ≡ false = verdict ∙ e in
        let merged =
          subst
            (λ b.
              AllInOrder passes
                (merge_trace i b (traced.read_trace ran.1) s.profiler).related_test_indexes)
            e (merge_trace-InOrder passes i (traced.read_trace ran.1) s.profiler h) in
        rw same (refl, omega arith, omega arith, merged)

    profile_tests-Extends :
        (i : ℕ) (tests : List String) (s : Profiled W)
        → HaveVerdicts i tests
        → Kept s
        → Extends (failing_from i tests) (length tests) s (profile_tests i tests s)
    unfolding profile_tests
    profile_tests-Extends i [] s v h =
        (sym (append-nil s.negative_tests), omega arith, omega arith, h)
    profile_tests-Extends i (test ∷ tests) s v h =
        let verdict = v.0 (traced.clear_trace s.world) in
        let next = profile_test i test s in
        elim (Bool-cases (passes i)) [
          | inl e ↦
              let (list, count, all, kept) = profile_test-pass i test s verdict e h in
              let (list', count', all', kept') =
                profile_tests-Extends (suc i) tests next v.1 kept in
              rw e (
                list'
                    ∙ ap (λ l. l ++ failing_from (suc i) tests)
                        (list ∙ append-nil s.negative_tests),
                omega (arith, count, count'),
                omega (arith, all, all'),
                kept',
              )
          | inr e ↦
              let (list, count, all, kept) = profile_test-fail i test s verdict e h in
              let (list', count', all', kept') =
                profile_tests-Extends (suc i) tests next v.1 kept in
              rw e (
                list'
                    ∙ (ap (λ l. l ++ failing_from (suc i) tests) list
                        ∙ append_assoc s.negative_tests (test ∷ []) (failing_from (suc i) tests)),
                omega (arith, count, count'),
                omega (arith, all, all'),
                kept',
              )
        ]

    -- Where each test has one verdict: after the loop the negative tests are the failing ones in their
    -- order, their number is the one that is compared with 0, each test is counted, and at each location
    -- the failing tests come before the passing ones.
    pub profile_tests-verdicts :
        (tests : List String) (w : W)
        → HaveVerdicts 0 tests
        → ((profile_tests 0 tests (not_profiled w)).negative_tests ≡ failing_from 0 tests)
          × ((profile_tests 0 tests (not_profiled w)).num_negative ≡ length (failing_from 0 tests))
          × ((profile_tests 0 tests (not_profiled w)).num_positive
                + (profile_tests 0 tests (not_profiled w)).num_negative
              ≡ length tests)
          × AllInOrder passes (profile_tests 0 tests (not_profiled w)).profiler.related_test_indexes
    profile_tests-verdicts tests w v =
        let (list, count, all, kept) = profile_tests-Extends 0 tests (not_profiled w) v tt in
        (list, omega (arith, count), omega (arith, all), kept)
