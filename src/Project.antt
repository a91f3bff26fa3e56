-- ===== src/Project.antt =====
-- repair/Project.cpp: the files of a project, their copies, and its builds. The file system and the
-- commands that are run are a parameter.
pub mod Saved
pub mod Database
pub mod Patches
pub mod Tester
pub mod Surroundings
pub mod FileIds
use f1x.Prelude.{
  ℕ, zero, suc, ◌+◌, List, [], ◌∷◌, length, Bool, true, false, Option, none, some, String, str_eq,
  ◌<>◌, to_string, Result, ok, err, Error, ◌>>=◌, ◌>>◌, assert, if◌then◌else◌, ◌==◌, ltb,
}
use f1x.Core.Config.{Config}
use f1x.Util.Environment.{Environment, Variables, enter, leave}

pub record ProjectFile : Type 0 where
  pub relpath : String
  pub from_line : ℕ
  pub to_line : ℕ

pub record Project : Type 0 where
  pub files : List ProjectFile
  pub build_cmd : String
  pub patch_template_dir : String

-- What the program asks of boost::filesystem, of streams on files and of `std::system`. A copy may throw.
pub record Machine (W : Type 0) : Type 0 where
  pub exists : W → String → Bool
  pub is_executable : W → String → Bool
  pub remove : W → String → W
  pub create_directory : W → String → W
  pub copy : W → String → String → Result W
  pub rename : W → String → String → W
  pub read_lines : W → String → List String
  pub write_lines : W → String → List String → W
  -- `/` on paths, and a path as `<<` writes it
  pub slash : String → String → String
  pub quoted : String → String
  -- The exit status of a command
  pub system : W → String → ℕ × W
  pub environment : W → Environment
  pub with_environment : Environment → W → W
  pub current_path : W → String
  pub with_current_path : String → W → W

-- The destination of the output, at the end of a command
abbrev pub output_to : Config → String
output_to cfg = if cfg.verbose then " >&2" else " >/dev/null 2>&1"

-- The compilers that the builds use
abbrev pub compilers : Variables
compilers = ("CC", "f1x-cc") ∷ ("CXX", "f1x-cxx") ∷ []

-- `getFileId`: the loop over the files
unfoldable pub count_before : List ProjectFile → ProjectFile → ℕ
count_before [] file = 0
count_before (f ∷ fs) file =
    let rest = suc (count_before fs file) in if str_eq file.relpath f.relpath then 0 else rest

unfoldable pub get_file_id : List ProjectFile → ProjectFile → Result ℕ
get_file_id files file = let id = count_before files file in assert (ltb id (length files)) >> ok id

module _ {W : Type 0} (machine : Machine W) (cfg : Config) where
  -- The copy of the file of an index
  abbrev pub saved_file : String → ℕ → String
  saved_file prefix i = machine.slash cfg.data_dir (prefix <> to_string i <> ".c")

  abbrev pub remove_old : String → W → W
  remove_old path w = if machine.exists w path then machine.remove w path else w

  -- The loop of `saveFilesWithPrefix`, from an index on
  unfoldable pub save_from : String → ℕ → List ProjectFile → W → Result W
  save_from prefix i [] w = ok w
  save_from prefix i (f ∷ fs) w = do
    let destination = saved_file prefix i
    w' ← machine.copy (remove_old destination w) f.relpath destination
    save_from prefix (suc i) fs w'

  abbrev pub save_files_with_prefix : String → List ProjectFile → W → Result W
  save_files_with_prefix prefix files w = save_from prefix 0 files w

  -- The loop of `restoreFilesWithPrefix`, from an index on
  unfoldable pub restore_from : String → ℕ → List ProjectFile → W → Result W
  restore_from prefix i [] w = ok w
  restore_from prefix i (f ∷ fs) w = do
    w' ← machine.copy (remove_old f.relpath w) (saved_file prefix i) f.relpath
    restore_from prefix (suc i) fs w'

  abbrev pub restore_files_with_prefix : String → List ProjectFile → W → Result W
  restore_files_with_prefix prefix files w = restore_from prefix 0 files w

  abbrev pub save_original_files : List ProjectFile → W → Result W
  save_original_files = save_files_with_prefix "original"

  abbrev pub save_instrumented_files : List ProjectFile → W → Result W
  save_instrumented_files = save_files_with_prefix "instrumented"

  abbrev pub save_profile_instrumented_files : List ProjectFile → W → Result W
  save_profile_instrumented_files = save_files_with_prefix "profile_instrumented"

  abbrev pub restore_original_files : List ProjectFile → W → Result W
  restore_original_files = restore_files_with_prefix "original"

  abbrev pub restore_instrumented_files : List ProjectFile → W → Result W
  restore_instrumented_files = restore_files_with_prefix "instrumented"

  -- `setFiles`
  unfoldable pub set_files : List ProjectFile → Project → W → Result (Project × W)
  set_files fs project w = do w' ← save_original_files fs w; ok (record project { files = fs }, w')

  -- A command that is run in a changed environment, which the destructor restores.
  unfoldable pub system_in : Variables → String → W → ℕ × W
  system_in variables command w =
      let (original, entered) = enter variables (machine.environment w) in
      let (status, w') = machine.system (machine.with_environment entered w) command in
      (status, machine.with_environment (leave original (machine.environment w')) w')

  unfoldable pub build_in_environment : Variables → String → W → Bool × W
  build_in_environment variables base_cmd w =
      let (status, w') = system_in variables (" ( " <> base_cmd <> " ) " <> output_to cfg) w in
      (status == 0, w')

  unfoldable pub build : Project → W → Bool × W
  build project = build_in_environment compilers project.build_cmd

  -- The variables are a map, in the order of their names.
  unfoldable pub build_with_runtime : String → Project → W → Bool × W
  build_with_runtime header project =
      build_in_environment
        (("CC", "f1x-cc")
          ∷ ("CXX", "f1x-cxx")
          ∷ ("F1X_RUNTIME_H", header)
          ∷ ("F1X_RUNTIME_LIB", cfg.data_dir)
          ∷ ("LD_LIBRARY_PATH", cfg.data_dir)
          ∷ [])
        project.build_cmd

  -- `FromDirectory`: a command that is run in a directory, from which the destructor returns.
  unfoldable pub from_directory : String → (W → ℕ × W) → W → ℕ × W
  from_directory path command w =
      let (status, w') = command (machine.with_current_path path w) in
      (status, machine.with_current_path (machine.current_path w) w')

  -- `deleteCoverageFiles`; a failure is only logged.
  unfoldable pub delete_coverage_files : W → W
  delete_coverage_files w =
      (machine.system w (
        "gcovr --delete --xml"
        <> (if cfg.use_llvm_cov then " --gcov-executable=f1x-llvm-cov" else "")
        <> " >/dev/null 2>&1")).1
