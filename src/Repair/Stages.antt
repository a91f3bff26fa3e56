-- ===== src/Repair/Stages.antt =====
-- repair/Repair.cpp: `repair`, by its stages. A stage goes on with a result, or returns a status.
pub mod Statuses
use f1x.Prelude.{
  ℕ, zero, suc, List, [], ◌∷◌, ◌++◌, map, length, Bool, true, false, not, Option, none, some,
  String, str_eq, ◌<>◌, to_string, Result, ok, err, Error, ◌>>=◌, if◌then◌else◌, ◌==◌,
}
use f1x.Core.{RepairStatus, TestStatus, Location, Patch, PatchId, PatchPrioritization}
use f1x.Core.Config.{Config}
use f1x.FaultLocalization.{CoverageTool, localize}
use f1x.FaultLocalization.Arithmetic.{Double}
use f1x.Generator.SearchSpace.{Generated}
use f1x.Loading.{Json, expect}
use f1x.Profiler.{Profiler, get_profile}
use f1x.Profiler.Coverage.{tests_at}
use f1x.Profiler.Build.{
  trace_file_name, profile_file_name, profile_header_file_name, compile_profiler, clear_trace,
}
use f1x.Runtime.Build.{runtime_header_file_name, compile_runtime}
use f1x.Project.{
  Project, ProjectFile, Machine, save_instrumented_files, save_profile_instrumented_files,
  restore_original_files, set_files, build_with_runtime, delete_coverage_files,
}
use f1x.Project.Database.{compile_db, files_from_compilation_db, initial_build}
use f1x.Project.Patches.{instrument_file}
use f1x.Project.Tester.{TestingFramework, execute, driver_is_ok}
use f1x.Repair.{Workshop, load_search_space, costs, prioritize, plausible_patches}
use f1x.Repair.Output.{output_patches}
use f1x.Repair.Profiling.{TracedTests, Profiled, profile_tests, not_profiled}
use f1x.SearchEngine.{Coverage, Engine, Outcome, init}
use f1x.Util.Messages.{dump_search_space}

-- What a stage leaves
pub data Stage (W : Type 0) (A : Type 0) : Type 0 where
  returned : RepairStatus → W → Stage W A
  continues : A → W → Stage W A

abbrev pub and_then :
    {W A B : Type 0} → Result (Stage W A) → (A → W → Result (Stage W B)) → Result (Stage W B)
and_then (err e) next = err e
and_then (ok (returned status w)) next = ok (returned status w)
and_then (ok (continues a w)) next = next a w

-- The status that is returned
abbrev pub finish : {W : Type 0} → Result (Stage W (RepairStatus × W)) → Result (RepairStatus × W)
finish (err e) = err e
finish (ok (returned status w)) = ok (status, w)
finish (ok (continues r w)) = ok r

-- What `repair` asks of other tools: rapidjson, gcovr, compilers, and files of the data directory.
pub record Tools (W J : Type 0) : Type 0 where
  pub json : Json J
  pub load : W → String → J
  pub clang_include : String
  pub equivalent : W → String → String → Bool
  pub store_commands : List String → W → W
  -- The elements of a path, and a path of elements
  pub elements : String → List String
  pub joined : List String → String
  pub current_path : W → List String
  pub seconds : ℕ → String
  pub extract_and_save_coverage : W → String → Option Coverage × W
  pub read_trace : W → List Location
  pub write_profile : List Location → W → W
  pub write_runtime : Generated → W → W
  pub show_cost : ℕ → String
  pub user_id : ℕ

-- Header files and data files
abbrev applications_file_prefix : String
applications_file_prefix = "applications"

abbrev is_semantic : PatchPrioritization → Bool
is_semantic PatchPrioritization.semantic_diff = true
is_semantic _ = false

abbrev pub file_of_path : String → ProjectFile
file_of_path path = record { relpath = path; from_line = 0; to_line = 0 }

module _ {W J D : Type 0} (tools : Tools W J) (machine : Machine W) (d : Double D)
    (in_order : List ℕ → List ℕ) (cfg : Config) (tester : TestingFramework)
    (tests : List String) where
  abbrev pub run_test : W → String → TestStatus × W
  run_test w test = execute machine cfg tools.seconds tester test w

  abbrev pub traced_tests : TracedTests W
  traced_tests = record {
    clear_trace = clear_trace machine cfg;
    execute = run_test;
    read_trace = tools.read_trace;
  }

  abbrev coverage_tool : CoverageTool W
  coverage_tool = record {
    execute = run_test;
    extract_and_save_coverage = tools.extract_and_save_coverage;
  }

  abbrev data_file : String → String
  data_file name = machine.slash cfg.data_dir name

  -- The files that are localized, if there are any
  unfoldable pub keep_localized : Project → List String → W → Result (Stage W Project)
  keep_localized project [] w = ok (returned RepairStatus.failure w)
  keep_localized project (path ∷ paths) w =
      set_files machine cfg (map file_of_path (path ∷ paths)) project w >>= λ kept.
      ok (continues kept.0 kept.1)

  -- Where no file is given, the suspicious ones are taken.
  unfoldable pub localize_files : Project → List ProjectFile → W → Result (Stage W Project)
  localize_files project (f ∷ fs) w = ok (continues project w)
  localize_files project [] w = do
    entries ← expect (tools.json.get_array (tools.load w compile_db))
    paths ← files_from_compilation_db tools.json tools.elements (tools.current_path w) entries
    let localized =
        localize d in_order coverage_tool cfg.files_to_localize tests (map tools.joined paths) w
    keep_localized project localized.0 localized.1

  -- The build, and the files to repair
  unfoldable pub prepare : Project → W → Result (Stage W Project)
  prepare project w = do
    built ←
        initial_build tools.json machine cfg tools.clang_include tools.equivalent
          (λ v. tools.load v compile_db) tools.store_commands project w
    (if not built.1
        then ok (returned RepairStatus.error built.2)
        else if not (driver_is_ok machine cfg tools.seconds tester built.2)
        then ok (returned RepairStatus.error built.2)
        else localize_files project project.files built.2)

  -- The loop that instruments the files for profiling; that the tool fails is only logged.
  unfoldable pub instrument_for_profile : Project → List ProjectFile → W → Result W
  instrument_for_profile project [] w = ok w
  instrument_for_profile project (f ∷ fs) w = do
    instrumented ← instrument_file machine cfg project f (data_file trace_file_name) none w
    instrument_for_profile project fs instrumented.1

  -- The tests are run with the profiler.
  unfoldable pub run_profile : Project → W → Result (Stage W Profiler)
  run_profile project w = do
    let built = build_with_runtime machine cfg (data_file profile_header_file_name) project w
    restored ← restore_original_files machine cfg project.files built.1
    let profiled = profile_tests traced_tests 0 tests (not_profiled traced_tests restored)
    ok (
        if profiled.num_negative == 0
        then returned RepairStatus.no_negative_tests profiled.world
        else continues profiled.profiler profiled.world)

  unfoldable pub profile_project : Project → W → Result (Stage W Profiler)
  profile_project project w = do
    instrumented ← instrument_for_profile project project.files w
    saved ← save_profile_instrumented_files machine cfg project.files instrumented
    let compiled = compile_profiler machine cfg saved
    (if compiled.0
        then run_profile project compiled.1
        else ok (returned RepairStatus.error compiled.1))

  abbrev pub applications_file : ℕ → String
  applications_file i = data_file (applications_file_prefix <> to_string i <> ".json")

  -- The loop that applies the transformation schemas, from an index on: the files with the applications
  unfoldable pub apply_schemas : Project → ℕ → List ProjectFile → W → Result (Stage W (List String))
  apply_schemas project i [] w = ok (continues [] w)
  apply_schemas project i (f ∷ fs) w = do
    let sa_file = applications_file i
    instrumented ←
        instrument_file machine cfg project f sa_file (some (data_file profile_file_name)) w
    (if machine.exists instrumented.1 sa_file
        then and_then (apply_schemas project (suc i) fs instrumented.1)
            (λ files w'. ok (continues (sa_file ∷ files) w'))
        else ok (returned RepairStatus.error instrumented.1))

  -- The profile, and the instrumentation
  unfoldable pub instrument_project :
      Project → Profiler → W → Result (Stage W (List String × Profiler))
  instrument_project project profiler w =
      let cleaned =
        if is_semantic cfg.patch_prioritization then delete_coverage_files machine cfg w else w in
      let profile = get_profile profiler in
      and_then (apply_schemas project 0 project.files (tools.write_profile profile.0 cleaned))
        λ files w'. save_instrumented_files machine cfg project.files w' >>= λ saved.
          ok (continues (files, profile.1) saved)

  -- The search space, and the build of the project with the runtime
  unfoldable pub generate_runtime : ℕ → Project → List String → W → Result (Stage W (List Patch))
  generate_runtime fuel project files w = do
    generated ← load_search_space tools.json cfg tools.user_id fuel (map (tools.load w) files)
    let compiled = compile_runtime machine cfg (tools.write_runtime generated w)
    let built =
        build_with_runtime machine cfg (data_file runtime_header_file_name) project compiled.1
    (if compiled.0
        then (restore_original_files machine cfg project.files built.1 >>= λ restored.
            ok (continues generated.search_space restored))
        else ok (returned RepairStatus.error compiled.1))

  -- The file with the search space, if there is to be one
  abbrev dump : Project → (PatchId → ℕ) → List Patch → W → Result W
  dump project cost search_space w =
      if str_eq cfg.search_space_file ""
      then ok w
      else (dump_search_space tools.show_cost search_space (map (λ f. f.relpath) project.files) cost
          >>= λ lines. ok (machine.write_lines w cfg.search_space_file lines))

  abbrev has_found : List Patch → RepairStatus
  has_found [] = RepairStatus.failure
  has_found (_ ∷ _) = RepairStatus.success

  -- The search, with a workshop and a run of a patch for the project
  module _ (shop : Project → Workshop W) (run : W → Patch → List PatchId → String → Outcome × W)
      (test_of : ℕ → String) (patch_output : String) where
    -- The plausible patches of the ordered search space are written out.
    unfoldable pub search : Project → Profiler → List Patch → W → Result (RepairStatus × W)
    search project profiler space w = do
      let search_space = prioritize space (costs space)
      dumped ← dump project (costs space) search_space w
      found ← expect (
          plausible_patches (shop project) cfg tests test_of run search_space
            (init λ loc. tests_at loc profiler.related_test_indexes) dumped)
      written ← output_patches machine cfg project patch_output found.0 found.2
      ok (has_found found.0, written)

    -- `repair`
    unfoldable pub repair : ℕ → Project → W → Result (RepairStatus × W)
    repair fuel project w = finish (
        and_then (prepare project w) λ prepared w₁.
          and_then (profile_project prepared w₁) λ profiler w₂.
            and_then (instrument_project prepared profiler w₂) λ instrumented w₃.
              and_then (generate_runtime fuel prepared instrumented.0 w₃)
                λ space w₄. search prepared instrumented.1 space w₄ >>= λ r. ok (continues r r.1))
