-- ===== src/Core/Config.antt =====
-- repair/Global.h: the configuration that the parts of the tool read.
use f1x.Prelude.{ℕ, Bool, String}
use f1x.Core.{TestPrioritization, PatchPrioritization}

pub record Config : Type 0 where
  pub global_variables : Bool
  pub verbose : Bool
  pub validate_patches : Bool
  pub generate_all : Bool
  pub search_space_file : String
  pub statistics_file : String
  pub data_dir : String
  pub output_patch_metadata : Bool
  pub remove_intermediate_data : Bool
  pub insert_assignments : Bool
  pub add_guards : Bool
  pub max_condition_parameter : ℕ
  pub max_expression_parameter : ℕ
  pub value_teq : Bool
  pub dependency_teq : Bool
  pub test_prioritization : TestPrioritization
  pub patch_prioritization : PatchPrioritization
  pub files_to_localize : ℕ
  pub use_llvm_cov : Bool
  pub output_one_per_location : Bool
  pub output_top : ℕ
