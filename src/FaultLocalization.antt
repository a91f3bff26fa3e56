-- ===== src/FaultLocalization.antt =====
-- repair/FaultLocalization.cpp: the files in which the failing tests run suspicious lines. Running a
-- test and reading its coverage with gcovr are parameters, and so is the arithmetic on `double`.
pub mod Arithmetic
pub mod Best
use f1x.Prelude.{
  ℕ, zero, suc, ◌+◌, ◌-◌, ◌%◌, List, [], ◌∷◌, length, Bool, true, false, Option, none, some, String,
  has_text, add_text, text_lookup, text_insert, if◌then◌else◌, ◌==◌, stable_sort,
}
use f1x.Core.{TestStatus}
use f1x.SearchEngine.{Coverage}
use f1x.FaultLocalization.Arithmetic.{Double, unsigned}

-- `tester.execute`, and `extractAndSaveCoverage` on the test's coverage file, which may throw.
pub record CoverageTool (W : Type 0) : Type 0 where
  pub execute : W → String → TestStatus × W
  pub extract_and_save_coverage : W → String → Option Coverage × W

-- `coverage` and `passedTests`
pub record Traces : Type 0 where
  pub coverage : List (String × Coverage)
  pub passed_tests : List String

-- `allLines`, `numPassed` and `numFailed` of a file; a number that is not there counts as 0.
pub record Tally : Type 0 where
  pub all_lines : List ℕ
  pub num_passed : ℕ → ℕ
  pub num_failed : ℕ → ℕ

-- `insert` on a set of lines
abbrev pub add_line : List ℕ → ℕ → List ℕ
add_line [] l = l ∷ []
add_line (k ∷ ks) l = let rest = k ∷ add_line ks l in if k == l then k ∷ ks else rest

abbrev pub one_more : ℕ → (ℕ → ℕ) → ℕ → ℕ
one_more line num k = if k == line then unsigned (num k + 1) else num k

abbrev pub no_traces : Traces
no_traces = record { coverage = []; passed_tests = [] }

-- The loop over the lines of a test's coverage
unfoldable pub count_lines : Bool → List ℕ → Tally → Tally
count_lines has_passed [] s = s
count_lines has_passed (line ∷ lines) s = count_lines has_passed lines (record {
  all_lines = add_line s.all_lines line;
  num_passed = if has_passed then one_more line s.num_passed else s.num_passed;
  num_failed = if has_passed then s.num_failed else one_more line s.num_failed;
})

abbrev pub lines_of : Traces → String → String → List ℕ
lines_of traces test filename = text_lookup [] (text_lookup [] traces.coverage test) filename

-- The loop over the tests, for one file
unfoldable pub count_tests : Traces → String → List String → Tally → Tally
count_tests traces filename [] s = s
count_tests traces filename (test ∷ tests) s =
    count_tests traces filename tests
      (count_lines (has_text test traces.passed_tests) (lines_of traces test filename) s)

abbrev pub no_lines : Tally
no_lines = record { all_lines = []; num_passed = λ k. 0; num_failed = λ k. 0 }

abbrev pub tally : Traces → List String → String → Tally
tally traces tests filename = count_tests traces filename tests no_lines

abbrev pub total_passed : Traces → ℕ
total_passed traces = unsigned (length traces.passed_tests)

-- The set holds tests of the list, so the difference does not wrap.
abbrev pub total_failed : Traces → List String → ℕ
total_failed traces tests = unsigned (length tests - length traces.passed_tests)

-- `USE_CUSTOM_SCORE`
abbrev pub use_custom_score : Bool
use_custom_score = true

module _ {W : Type 0} (tool : CoverageTool W) where
  -- `coverage[test] = extractAndSaveCoverage(coverageFile)`: a coverage that cannot be read is only
  -- logged.
  unfoldable pub record_coverage : String → Traces → W → Traces × W
  record_coverage test s w =
      let extracted = tool.extract_and_save_coverage w test in
      (
        elim extracted.0 [
          | none ↦ s
          | some c ↦ record s { coverage = text_insert test c s.coverage }
        ],
        extracted.1,
      )

  -- The outcome of a test
  unfoldable pub record_test : String → TestStatus → Traces → W → Traces × W
  record_test test TestStatus.pass s w =
      record_coverage test (record s { passed_tests = add_text s.passed_tests test }) w
  record_test test TestStatus.fail s w = record_coverage test s w
  record_test test TestStatus.timeout s w = (s, w)

  -- The loop over the tests
  unfoldable pub trace_tests : List String → Traces → W → Traces × W
  trace_tests [] s w = (s, w)
  trace_tests (test ∷ tests) s w =
      let ran = tool.execute w test in
      let recorded = record_test test ran.0 s ran.1 in trace_tests tests recorded.0 recorded.1

module _ {D : Type 0} (d : Double D) where
  unfoldable pub tarantula : ℕ → ℕ → ℕ → ℕ → D
  tarantula passed_stmt failed_stmt passed failed =
      let a = if failed == 0 then d.of_nat 0 else d.div (d.of_nat failed_stmt) (d.of_nat failed) in
      let b = if passed == 0 then d.of_nat 0 else d.div (d.of_nat passed_stmt) (d.of_nat passed) in
      if d.is_zero (d.add a b) then d.of_nat 0 else d.div a (d.add a b)

  unfoldable pub tarantula_custom : ℕ → ℕ → ℕ → ℕ → D
  tarantula_custom passed_stmt failed_stmt passed failed =
      let a = if failed == failed_stmt then d.of_nat 1 else d.of_nat 0 in
      let b = if passed == 0 then d.of_nat 0 else d.div (d.of_nat passed_stmt) (d.of_nat passed) in
      if d.is_zero (d.add a b) then d.of_nat 0 else d.div a (d.add a b)

  unfoldable pub line_score : Traces → List String → Tally → ℕ → D
  line_score traces tests s line =
      let passed_stmt = s.num_passed line in
      let failed_stmt = s.num_failed line in
      let passed = total_passed traces in
      let failed = total_failed traces tests in
      if use_custom_score
      then tarantula_custom passed_stmt failed_stmt passed failed
      else tarantula passed_stmt failed_stmt passed failed

  -- `sum`, over the lines in a given order
  unfoldable pub sum_scores : (ℕ → D) → D → List ℕ → D
  sum_scores score sum [] = sum
  sum_scores score sum (line ∷ lines) = sum_scores score (d.add sum (score line)) lines

  -- The files with a positive score at the front, up to a number of them
  unfoldable pub select : (String → D) → ℕ → List String → List String
  select score zero files = []
  select score (suc limit) [] = []
  select score (suc limit) (file ∷ files) =
      let rest = select score limit files in
      if d.gt (score file) (d.of_nat 0) then file ∷ rest else []

  -- `in_order` is the order in which the hash map from lines to scores is traversed.
  module _ (in_order : List ℕ → List ℕ) where
    unfoldable pub file_score : Traces → List String → String → D
    file_score traces tests filename =
        let s = tally traces tests filename in
        sum_scores (line_score traces tests s) (d.of_nat 0) (in_order s.all_lines)

    unfoldable pub localize :
        {W : Type 0} → CoverageTool W → ℕ → List String → List String → W → List String × W
    localize tool files_to_localize tests all_files w =
        let traced = trace_tests tool tests no_traces w in
        let score = file_score traced.0 tests in
        (
          select score files_to_localize (stable_sort (λ a b. d.gt (score a) (score b)) all_files),
          traced.1,
        )
