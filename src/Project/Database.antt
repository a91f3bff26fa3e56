-- ===== src/Project/Database.antt =====
-- repair/Project.cpp: the compilation database, and the build that makes it. The document is read by
-- rapidjson, and paths are compared and split by boost::filesystem, which are parameters.
use Prim.Native.String.{len, slice}
use text.Mathlib.Text.{find?}
use f1x.Prelude.{
  ℕ, ◌-◌, ◌≡◌, refl, List, [], ◌∷◌, Bool, true, false, ◌&&◌, not, none, some, String, str_eq, ◌<>◌,
  Result, ok, err, Error, ◌>>=◌, if◌then◌else◌, ltb,
}
use f1x.Core.Config.{Config}
use f1x.FaultLocalization.Arithmetic.{unsigned}
use f1x.Loading.{Json, expect, text_of_member}
use f1x.Project.{ProjectFile, Project, Machine, build_in_environment, compilers}
use f1x.Util.Paths.{relative_to}

abbrev pub compile_db : String
compile_db = "compile_commands.json"

abbrev default_definition : String
default_definition = "-D__f1xapp=0ul"

-- `SOURCE_FILE_EXTENSIONS`
abbrev source_file_extensions : List String
source_file_extensions = ".c" ∷ []

-- A flag behind the first space of a command, unless the command has it. `narrow` is the type of the
-- index; without a space `substr` throws.
abbrev pub with_flag : (ℕ → ℕ) → String → String → Result String
with_flag narrow flag command = elim (find? command flag) [
  | some _ ↦ ok command
  | none ↦ elim (find? command " ") [
    | none ↦ err Error.out_of_bounds
    | some found ↦
        let index = narrow found in
        ok (slice command 0 index <> " " <> flag <> " " <> slice command index (len command))
  ]
]

-- The command of an entry, in the loop of `adjustCompileDB`
unfoldable pub adjust_command : String → String → Result String
adjust_command clang_include command = do
  included ← with_flag unsigned ("-I" <> clang_include) command
  with_flag (λ index. index) default_definition included

abbrev pub has_extension : String → String → Bool
has_extension file extension =
    ltb (len extension) (len file)
    && str_eq (slice file (len file - len extension) (len file)) extension

abbrev pub is_supported : List String → String → Bool
is_supported [] file = false
is_supported (extension ∷ extensions) file =
    let rest = is_supported extensions file in if has_extension file extension then true else rest

module _ {J : Type 0} (json : Json J) where
  -- The loop of `adjustCompileDB`: the new commands
  unfoldable pub adjust_commands : String → List J → Result (List String)
  adjust_commands clang_include [] = ok []
  adjust_commands clang_include (entry ∷ entries) = do
    command ← text_of_member json entry "command"
    adjusted ← adjust_command clang_include command
    rest ← adjust_commands clang_include entries
    ok (adjusted ∷ rest)

  -- `filesFromCompilationDB`, on the elements of paths
  unfoldable pub files_from_compilation_db :
      (String → List String) → List String → List J → Result (List (List String))
  files_from_compilation_db elements current_path [] = ok []
  files_from_compilation_db elements current_path (entry ∷ entries) = do
    file ← text_of_member json entry "file"
    rest ← files_from_compilation_db elements current_path entries
    ok (
        if is_supported source_file_extensions file
        then relative_to current_path (elements file) ∷ rest
        else rest)

  module _ (equivalent : String → String → Bool) where
    -- The loop over the entries, for a file
    unfoldable pub is_present : String → Bool → List J → Result Bool
    is_present relpath present [] = ok present
    is_present relpath present (entry ∷ entries) = do
      db_file ← text_of_member json entry "file"
      is_present relpath (if equivalent db_file relpath then true else present) entries

    unfoldable pub project_files_in_compile_db : List J → List ProjectFile → Result Bool
    project_files_in_compile_db entries [] = ok true
    project_files_in_compile_db entries (f ∷ fs) = do
      present ← is_present f.relpath false entries
      rest ← elim present [ true ↦ project_files_in_compile_db entries fs | false ↦ ok false ]
      ok rest

  module _ {W : Type 0} (machine : Machine W) (cfg : Config) (clang_include : String)
      (equivalent : W → String → String → Bool) (load : W → J) (store : List String → W → W) where
    -- The entries of the database
    abbrev pub entries_of : W → Result (List J)
    entries_of w = expect (json.get_array (load w))

    abbrev is_empty : List J → Bool
    is_empty [] = true
    is_empty (_ ∷ _) = false

    unfoldable pub reusable_compilation_database_exists : W → Result Bool
    reusable_compilation_database_exists w =
        if machine.exists w compile_db
        then (entries_of w >>= λ entries. ok (not (is_empty entries)))
        else ok false

    -- `adjustCompileDB`
    unfoldable pub adjust_compile_db : W → Result W
    adjust_compile_db w = do
      entries ← entries_of w
      commands ← adjust_commands clang_include entries
      ok (store commands w)

    -- What `initialBuild` does after the build: whether the commands were inferred.
    unfoldable pub infer_commands : Project → W → Result (Bool × W)
    infer_commands project w =
        if machine.exists w compile_db
        then (do
          entries ← entries_of w
          present ← project_files_in_compile_db (equivalent w) entries project.files
          (if present then (adjust_compile_db w >>= λ w'. ok (true, w')) else ok (false, w)))
        else ok (false, w)

    -- `initialBuild`: whether the build succeeded, and whether the commands were inferred.
    unfoldable pub initial_build : Project → W → Result (Bool × Bool × W)
    initial_build project w = do
      reusable ← reusable_compilation_database_exists w
      let command =
          if reusable then project.build_cmd else "f1x-bear sh -c \"" <> project.build_cmd <> "\""
      let built = build_in_environment machine cfg compilers command w
      inferred ← infer_commands project built.1
      ok (built.0, inferred.0, inferred.1)

-- A file that has no other name, and a command without a space
adjust_example : adjust_command "/clang" "cc -c a.c" ≡ ok "cc -D__f1xapp=0ul  -I/clang  -c a.c"
unfolding adjust_command unsigned
adjust_example = refl

adjust_without_space : adjust_command "/clang" "cc" ≡ err Error.out_of_bounds
unfolding adjust_command
adjust_without_space = refl
