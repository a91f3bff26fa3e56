-- ===== src/Samples.antt =====
-- Concrete inputs: a configuration, locations, expressions and schema applications. The children run
-- the parts of the tool on them.
pub mod TypingRuns
pub mod SynthesisRuns
pub mod RuntimeRuns
pub mod SearchRuns
pub mod ProfilerRuns
pub mod SpaceRuns
pub mod CallRuns
pub mod LocalizationRuns
pub mod LoadingRuns
pub mod ProjectRuns
pub mod TransformRuns
pub mod HandlerRuns
pub mod UtilRuns
pub mod RepairRuns
pub mod StageRuns
use f1x.Prelude.{ℕ, List, [], ◌∷◌, String, Bool, true, false}
use f1x.Core.{
  PatchId, Location, TransformationSchema, SynthesisRule, LocationContext, SchemaApplication,
  PatchMetadata, Patch, TestPrioritization, PatchPrioritization,
}
use f1x.Core.Config.{Config}
use f1x.Core.Expressions.{
  NodeKind, ExprType, Operator, Expression, node, Args, nil, cons, true_node,
}

abbrev pub sample_config : Config
sample_config = record {
  global_variables = false;
  verbose = false;
  validate_patches = false;
  generate_all = true;
  search_space_file = "";
  statistics_file = "";
  data_dir = "/tmp";
  output_patch_metadata = false;
  remove_intermediate_data = true;
  insert_assignments = false;
  add_guards = true;
  max_condition_parameter = 1;
  max_expression_parameter = 1;
  value_teq = true;
  dependency_teq = false;
  test_prioritization = TestPrioritization.max_failing;
  patch_prioritization = PatchPrioritization.syntactic_diff;
  files_to_localize = 10;
  use_llvm_cov = false;
  output_one_per_location = false;
  output_top = 0;
}

abbrev pub variable_of : ExprType → String → String → Expression
variable_of t raw name = node NodeKind.variable t Operator.none raw name nil

abbrev pub x_node : Expression
x_node = variable_of ExprType.integer "int" "x"

abbrev pub y_node : Expression
y_node = variable_of ExprType.integer "int" "y"

-- `x > y`
abbrev pub comparison : Expression
comparison =
    node NodeKind.operator ExprType.boolean Operator.gt "int" ">" (cons x_node (cons y_node nil))

abbrev pub place : Location
place = record { file_id = 0; begin_line = 3; begin_column = 1; end_line = 3; end_column = 9 }

-- A guard to insert in front of a statement, over the variable `x`.
abbrev pub guard_application : SchemaApplication
guard_application = record {
  id = 1;
  schema = TransformationSchema.if_guard;
  location = place;
  context = LocationContext.condition;
  original = true_node;
  components = x_node ∷ [];
  complete_pointee_types = [];
}

abbrev pub patch_number : ℕ → Patch
patch_number n = record {
  id = record { base = n; int2 = 0; bool2 = 0; cond3 = 0; param = 0 };
  app = guard_application;
  modified = comparison;
  meta = record { rule = SynthesisRule.substitution; distance = n };
}
