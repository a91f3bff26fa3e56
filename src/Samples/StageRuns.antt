-- ===== src/Samples/StageRuns.antt =====
-- A run of `repair`, repair/Repair.cpp, on a program that passes its tests.
use f1x.Prelude.{List, [], ◌∷◌, none, some, String, str_eq, Result, ok, err, to_string}
use f1x.Core.{RepairStatus, TestStatus, PatchId, Patch}
use f1x.Project.{Project}
use f1x.Project.Tester.{TestingFramework}
use f1x.Repair.{Workshop}
use f1x.Repair.Stages.{Tools, repair}
use f1x.SearchEngine.{Outcome}
use f1x.Samples.{sample_config, place}
use f1x.Samples.LocalizationRuns.{thousandths}
use f1x.Samples.LoadingRuns.{
  Document, text, array, object, no_more, element, no_member, member_of, documents,
}
use f1x.Samples.ProjectRuns.{Disk, machine, two_files, saved, put}

abbrev entry : String → Document
entry file =
    object (member_of "file" (text file) (member_of "command" (text "cc -c a.c") no_member))

abbrev database : Document
database = array (element (entry "a.c") (element (entry "b.c") no_more))

abbrev tools : Tools Disk Document
tools = record {
  json = documents;
  load = λ d p. database;
  clang_include = "/clang";
  equivalent = λ d p q. str_eq p q;
  store_commands = λ commands d. d;
  elements = λ p. p ∷ [];
  joined = λ es. elim es [ [] ↦ "" | e ∷ _ ↦ e ];
  current_path = λ d. [];
  seconds = to_string;
  extract_and_save_coverage = λ d t. (none, d);
  read_trace = λ d. place ∷ [];
  write_profile = λ locations d. d;
  write_runtime = λ g d. d;
  show_cost = to_string;
  user_id = 1000;
}

abbrev tester : TestingFramework
tester = record { driver = "test.sh"; test_timeout = 1000 }

abbrev tests : List String
tests = "p1" ∷ []

abbrev shop : Project → Workshop Disk
shop project = record {
  apply_patch = λ d p. d;
  build = λ d. d;
  execute = λ d t. (TestStatus.pass, d);
  restore_original_files = λ d. d;
  restore_instrumented_files = λ d. d;
  build_with_runtime = λ d. d;
}

abbrev run : Disk → Patch → List PatchId → String → Outcome × Disk
run d p ids t = (record { status = TestStatus.pass; time = 5; partition = []; coverage = [] }, d)

abbrev project : Project
project = record { files = two_files; build_cmd = "make"; patch_template_dir = "/tmp/templates" }

-- The files, their copies, the compilation database and the driver
abbrev disk : Disk
disk = put "test.sh" (some "exit 0") (put "compile_commands.json" (some "[]") saved)

abbrev outcome : Result (RepairStatus × Disk)
outcome =
    repair tools machine thousandths (λ lines. lines) sample_config tester tests shop run
      (λ i. "p1") "out" 5 project disk

abbrev left : Result (RepairStatus × Disk) → Disk
left (ok r) = r.1
left (err e) = disk
