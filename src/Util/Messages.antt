-- ===== src/Util/Messages.antt =====
-- repair/Util.cpp: the texts about patches, and the file with the search space.
use f1x.Prelude.{
  ℕ, zero, suc, List, [], ◌∷◌, length, Bool, true, false, String, ◌<>◌, to_string, Result, ok, err,
  Error, ◌>>=◌, ltb, if◌then◌else◌,
}
use f1x.Core.{PatchId, TransformationSchema, SynthesisRule, Patch}
use f1x.Util.Builders.{expression_to_string}

unfoldable pub visualize_patch_id : PatchId → String
visualize_patch_id id =
    to_string id.base
    <> ":"
    <> to_string id.int2
    <> ":"
    <> to_string id.bool2
    <> ":"
    <> to_string id.cond3
    <> ":"
    <> to_string id.param

unfoldable pub visualize_transformation_schema : TransformationSchema → Result String
visualize_transformation_schema TransformationSchema.expression = ok "modify expression"
visualize_transformation_schema TransformationSchema.if_guard = ok "add if guard"
visualize_transformation_schema TransformationSchema.initialization = ok "add array initialization"
visualize_transformation_schema _ = err Error.invalid_argument

unfoldable pub visualize_synthesis_rule : SynthesisRule → Result String
visualize_synthesis_rule SynthesisRule.operator = ok "replace operator"
visualize_synthesis_rule SynthesisRule.swaping = ok "swap arguments"
visualize_synthesis_rule SynthesisRule.simplification = ok "simplify"
visualize_synthesis_rule SynthesisRule.generalization = ok "generalize"
visualize_synthesis_rule SynthesisRule.concretization = ok "concretize"
visualize_synthesis_rule SynthesisRule.loosening = ok "loosen"
visualize_synthesis_rule SynthesisRule.tightening = ok "tighten"
visualize_synthesis_rule SynthesisRule.negation = ok "negate"
visualize_synthesis_rule SynthesisRule.null_check = ok "null check"
visualize_synthesis_rule SynthesisRule.substitution = ok "substitute"
visualize_synthesis_rule _ = err Error.invalid_argument

unfoldable pub visualize_change : Patch → Result String
visualize_change el = do
  original ← expression_to_string el.app.original
  modified ← expression_to_string el.modified
  ok ("\"" <> original <> "\" ---> \"" <> modified <> "\"")

unfoldable pub visualize_element : Patch → String → Result String
visualize_element el file = do
  schema ← visualize_transformation_schema el.app.schema
  rule ← visualize_synthesis_rule el.meta.rule
  change ← visualize_change el
  ok (
      visualize_patch_id el.id
      <> " "
      <> schema
      <> " ["
      <> rule
      <> "] "
      <> change
      <> " in "
      <> file
      <> ":"
      <> to_string el.app.location.begin_line)

-- `files[id]`
abbrev pub file_name_at : List String → ℕ → Result String
file_name_at [] id = err Error.out_of_bounds
file_name_at (file ∷ files) zero = ok file
file_name_at (file ∷ files) (suc id) = file_name_at files id

-- `files[el.app->location.fileId]`
abbrev pub file_of : List String → Patch → Result String
file_of files el = file_name_at files el.app.location.file_id

-- `dumpSearchSpace`: the lines of the file. How a cost is written is a parameter.
unfoldable pub dump_search_space :
    (show_cost : ℕ → String) → List Patch → List String → (PatchId → ℕ) → Result (List String)
dump_search_space show_cost [] files cost = ok []
dump_search_space show_cost (el ∷ els) files cost = do
  file ← file_of files el
  line ← visualize_element el file
  rest ← dump_search_space show_cost els files cost
  ok ((show_cost (cost el.id) <> " " <> line) ∷ rest)

-- `MAX_PRINT_TESTS`
abbrev pub max_print_tests : ℕ
max_print_tests = 5

-- The loop over the tests that are printed
unfoldable pub print_tests : ℕ → Bool → List String → String
print_tests zero first_test tests = ""
print_tests (suc n) first_test [] = ""
print_tests (suc n) first_test (test ∷ tests) =
    (if first_test then "" else ", ") <> test <> print_tests n false tests

-- `prettyPrintTests`
unfoldable pub pretty_print_tests : List String → String
pretty_print_tests tests =
    "["
    <> print_tests max_print_tests true tests
    <> (if ltb max_print_tests (length tests) then ", ..." else "")
    <> "]"
