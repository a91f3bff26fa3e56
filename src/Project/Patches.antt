-- ===== src/Project/Patches.antt =====
-- repair/Project.cpp: the instrumentation of files, and the application of patches.
use Prim.Native.String.{len, slice}
use text.Mathlib.Text.{find?}
use f1x.Prelude.{
  ℕ, ◌+◌, ◌%◌, [], ◌∷◌, map, get_elem?, Bool, Option, none, some, String, ◌<>◌, to_string, Result,
  ok, err, Error, ◌>>=◌, if◌then◌else◌, ◌==◌, ◌≡◌, refl,
}
use f1x.Core.{Patch}
use f1x.Core.Config.{Config}
use f1x.Util.Builders.{expression_to_string}
use f1x.Project.{ProjectFile, Project, Machine, output_to, save_files_with_prefix, get_file_id}

-- `PLACEHOLDER`
abbrev pub placeholder : String
placeholder = "F1X_EXPRESSION_PLACEHOLDER"

-- The first placeholder of a line is replaced.
unfoldable pub replace_placeholder : String → String → String
replace_placeholder replacement line = elim (find? line placeholder) [
  | none ↦ line
  | some pos ↦ slice line 0 pos <> replacement <> slice line (pos + len placeholder) (len line)
]

-- `files[i]`
abbrev pub file_at : Project → ℕ → Result ProjectFile
file_at project i = elim (get_elem? project.files i) [
  | none ↦ err Error.out_of_bounds
  | some f ↦ ok f
]

module _ {W : Type 0} (machine : Machine W) (cfg : Config) where
  -- `replacePlaceholderInFile`
  unfoldable pub replace_placeholder_in_file : String → String → W → W
  replace_placeholder_in_file file replacement w =
      let replacement_file = machine.slash cfg.data_dir "replacement.c" in
      let lines = map (replace_placeholder replacement) (machine.read_lines w file) in
      machine.rename (machine.write_lines w replacement_file lines) replacement_file file

  unfoldable pub compute_diff : Project → ProjectFile → String → W → Result W
  compute_diff project file output w = do
    let a = machine.slash "a" file.relpath
    let b = machine.slash "b" file.relpath
    let headed = machine.write_lines w output (("--- " <> a) ∷ ("+++ " <> b) ∷ [])
    id ← get_file_id project.files file
    let from_file = machine.slash cfg.data_dir ("original" <> to_string id <> ".c")
    let to_file = machine.slash cfg.data_dir ("patched" <> to_string id <> ".c")
    ok (machine.system headed ("diff " <> from_file <> " " <> to_file <> " >> " <> output)).1

  -- `instrumentFile`: for profiling if no profile is given.
  unfoldable pub instrument_file :
      Project → ProjectFile → String → Option String → W → Result (Bool × W)
  instrument_file project file output_file profile w = do
    id ← get_file_id project.files file
    let mode : String = elim profile [
      | none ↦ " --profile"
      | some path ↦ " --instrument " <> machine.quoted path
    ]
    let guard = if cfg.add_guards then "" else " --disable-guard"
    let ran = machine.system w (
        "f1x-transform "
        <> file.relpath
        <> mode
        <> guard
        <> " --from-line "
        <> to_string file.from_line
        <> " --to-line "
        <> to_string file.to_line
        <> " --file-id "
        <> to_string id
        <> " --output "
        <> output_file
        <> output_to cfg)
    ok (ran.0 == 0, ran.1)

  -- A position as an `unsigned` of 32 bits
  abbrev to_unsigned : ℕ → ℕ
  to_unsigned n = n % 4294967296

  -- The command that puts the placeholder into a file
  unfoldable pub template_command : Patch → ProjectFile → String
  template_command patch file =
      "f1x-transform "
      <> file.relpath
      <> " --apply --bl "
      <> to_string (to_unsigned patch.app.location.begin_line)
      <> " --bc "
      <> to_string (to_unsigned patch.app.location.begin_column)
      <> " --el "
      <> to_string (to_unsigned patch.app.location.end_line)
      <> " --ec "
      <> to_string (to_unsigned patch.app.location.end_column)
      <> " --patch \""
      <> placeholder
      <> "\""
      <> output_to cfg

  -- A template that is there is applied, else it is made.
  unfoldable pub apply_template : Project → Patch → W → Result (Bool × W)
  apply_template project patch w = do
    let patch_template =
        machine.slash project.patch_template_dir (to_string patch.app.id <> ".patch")
    let patched = machine.system w ("patch -p1 < " <> patch_template <> " >/dev/null 2>&1")
    if machine.exists w patch_template then ok (patched.0 == 0, patched.1) else (do
      file ← file_at project patch.app.location.file_id
      let ran = machine.system w (template_command patch file)
      saved ← save_files_with_prefix machine cfg "patched" project.files ran.1
      made ← compute_diff project file patch_template saved
      ok (ran.0 == 0, made))

  unfoldable pub apply_patch : Project → Patch → W → Result (Bool × W)
  apply_patch project patch w = do
    applied ← apply_template project patch w
    file ← file_at project patch.app.location.file_id
    text ← expression_to_string patch.modified
    let replaced = replace_placeholder_in_file file.relpath text applied.1
    saved ← save_files_with_prefix machine cfg "patched" project.files replaced
    ok (applied.0, saved)

replace_example :
    replace_placeholder "x > y" "  if (F1X_EXPRESSION_PLACEHOLDER) {" ≡ "  if (x > y) {"
unfolding replace_placeholder
replace_example = refl
