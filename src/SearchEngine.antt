-- ===== src/SearchEngine.antt =====
-- repair/SearchEngine.cpp: the exploration of the search space. The tests and the program under test
-- are run by a parameter, which takes the state of the world along.
pub mod PlainSearch
pub mod Reference
use f1x.Prelude.{
  ℕ, zero, suc, ◌+◌, ◌*◌, ◌/◌, List, [], ◌∷◌, ◌++◌, length, get_elem?, take, drop, Bool, true,
  false, ◌&&◌, ◌||◌, Option, none, some, String, str_eq, if◌then◌else◌, leb, not, ◌==◌,
}
use f1x.Core.{
  PatchId, patch_id_eq, Location, location_eq, Patch, TestStatus, TestPrioritization,
  PatchPrioritization,
}
use f1x.Core.Config.{Config}

-- `SearchStatistics`; times are in milliseconds.
pub record SearchStatistics : Type 0 where
  pub exploration_counter : ℕ
  pub execution_counter : ℕ
  pub timeout_counter : ℕ
  pub non_timeout_counter : ℕ
  pub non_timeout_test_time : ℕ

-- The lines that a test covers, by file.
abbrev pub Coverage : Type 0
Coverage = List (String × List ℕ)

-- The fields of `SearchEngine` that change. The maps give nothing for a key with no entry.
pub record Engine : Type 0 where
  pub stat : SearchStatistics
  pub progress : ℕ
  pub failing : List PatchId
  pub passing : String → List PatchId
  pub coverage_set : String → PatchId → Option Coverage
  pub related_test_indexes : Location → List ℕ

-- What the run of a test shows: its status and time, the ids that `Runtime::getPartition` reads behind
-- it, and the coverage that is extracted.
pub record Outcome : Type 0 where
  pub status : TestStatus
  pub time : ℕ
  pub partition : List PatchId
  pub coverage : Coverage

abbrev pub member : PatchId → List PatchId → Bool
member id [] = false
member id (x ∷ xs) = patch_id_eq x id || member id xs

abbrev pub is_pass : TestStatus → Bool
is_pass TestStatus.pass = true
is_pass _ = false

abbrev pub is_timeout : TestStatus → Bool
is_timeout TestStatus.timeout = true
is_timeout _ = false

abbrev pub is_max_failing : TestPrioritization → Bool
is_max_failing TestPrioritization.max_failing = true
is_max_failing TestPrioritization.fixed_order = false

abbrev pub is_semantic : PatchPrioritization → Bool
is_semantic PatchPrioritization.semantic_diff = true
is_semantic PatchPrioritization.syntactic_diff = false

-- The constructor
unfoldable pub init : (Location → List ℕ) → Engine
init related = record {
  stat = record {
    exploration_counter = 0;
    execution_counter = 0;
    timeout_counter = 0;
    non_timeout_counter = 0;
    non_timeout_test_time = 0;
  };
  progress = 0;
  failing = [];
  passing = λ test. [];
  coverage_set = λ test id. none;
  related_test_indexes = related;
}

-- `SHOW_PROGRESS_STEP`
abbrev pub show_progress_step : ℕ
show_progress_step = 10

-- `showProgress`; the message is not kept.
unfoldable pub show_progress : ℕ → ℕ → Engine → Engine
show_progress current total s =
    if leb s.progress (100 * current / total)
    then record s { progress = s.progress + show_progress_step }
    else s

-- `prioritizeTest`: the entry at the index comes first.
unfoldable pub prioritize_test : List ℕ → ℕ → List ℕ
prioritize_test order index = elim (get_elem? order index) [
  | none ↦ order
  | some test ↦ test ∷ (take index order ++ drop (suc index) order)
]

-- The counters, after a run.
unfoldable pub count_run : Outcome → SearchStatistics → SearchStatistics
count_run o st =
    if is_timeout o.status
    then record st {
      execution_counter = st.execution_counter + 1;
      timeout_counter = st.timeout_counter + 1;
    }
    else record st {
      execution_counter = st.execution_counter + 1;
      non_timeout_counter = st.non_timeout_counter + 1;
      non_timeout_test_time = st.non_timeout_test_time + o.time;
    }

-- The coverage of the run is that of the patch and of its partition.
unfoldable pub cover : Config → PatchId → String → Outcome → Engine → Engine
cover cfg id test o s =
    if is_semantic cfg.patch_prioritization
    then record s {
      coverage_set = λ t q.
          if str_eq t test && member q (id ∷ o.partition)
          then some o.coverage
          else s.coverage_set t q;
    }
    else s

-- The verdict of the run is that of the patch and of its partition.
unfoldable pub classify : PatchId → String → Outcome → Engine → Engine
classify id test o s =
    if is_pass o.status
    then record s {
      passing = λ t. if str_eq t test then id ∷ (o.partition ++ s.passing t) else s.passing t;
    }
    else record s { failing = id ∷ (o.partition ++ s.failing) }

-- The state after a run, as far as it does not depend on the order of tests.
unfoldable pub record_run : Config → PatchId → String → Outcome → Engine → Engine
unfolding count_run cover classify
record_run cfg id test o s =
    let counted = record s { stat = count_run o s.stat } in
    if cfg.value_teq then classify id test o (cover cfg id test o counted) else counted

-- A failing test of the location comes first from now on.
unfoldable pub reprioritize : Config → Location → ℕ → Engine → Engine
unfolding prioritize_test
reprioritize cfg loc order_index s =
    if is_max_failing cfg.test_prioritization
    then record s {
      related_test_indexes = λ l.
          if location_eq loc l
          then prioritize_test (s.related_test_indexes l) order_index
          else s.related_test_indexes l;
    }
    else s

-- `tests`, the tests by their index; the indexes that the profiler relates are indexes of tests. `run`
-- runs a patch, given the ids to compare it with, on a test; `partitionable` gives those ids.
module _ {W : Type 0} (cfg : Config) (tests : ℕ → String) (partitionable : ℕ → List PatchId)
    (run : W → Patch → List PatchId → String → Outcome × W) where
  -- The inner loop of `findNext`, over the rest of the order; the result is `passAll`.
  unfoldable pub test_loop : Patch → ℕ → List ℕ → Engine → W → Bool × Engine × W
  test_loop p order_index [] s w = (true, s, w)
  test_loop p order_index (i ∷ order) s w =
      let test = tests i in
      let known = test_loop p (suc order_index) order s w in
      let ran = run w p (partitionable p.app.id) test in
      let s' = record_run cfg p.id test ran.0 s in
      let failed : Bool × Engine × W =
        (false, reprioritize cfg p.app.location order_index s', ran.1) in
      let passed = test_loop p (suc order_index) order s' ran.1 in
      if cfg.value_teq && member p.id (s.passing test)
      then known
      else if is_pass ran.0.status
      then passed
      else failed

  -- The outer loop, over the patches from `index` on; `total` is the size of the search space.
  unfoldable pub find_loop : ℕ → ℕ → List Patch → Engine → W → ℕ × Engine × W
  find_loop total index [] s w = (index, s, w)
  find_loop total index (p ∷ ps) s w =
      let explored = show_progress index total (record s {
        stat = record s.stat { exploration_counter = s.stat.exploration_counter + 1 };
      }) in
      let skipped = find_loop total (suc index) ps explored w in
      let tried = test_loop p 0 (s.related_test_indexes p.app.location) explored w in
      let next = find_loop total (suc index) ps tried.1 tried.2 in
      if cfg.value_teq && member p.id s.failing
      then skipped
      else if tried.0
      then (index, tried.1, tried.2)
      else next

  -- `findNext`
  unfoldable pub find_next : List Patch → ℕ → Engine → W → ℕ × Engine × W
  find_next search_space from s w =
      find_loop (length search_space) from (drop from search_space) s w
