-- ===== src/Runtime/Build.antt =====
-- repair/Runtime.cpp: the compilation of the generated runtime.
use f1x.Prelude.{Bool, none, some, String, ◌<>◌, ◌==◌}
use f1x.Core.Config.{Config}
use f1x.Profiler.Build.{runtime_compiler, runtime_optimization}
use f1x.Project.{Machine, output_to, from_directory}

abbrev pub runtime_source_file_name : String
runtime_source_file_name = "rt.cpp"

abbrev pub runtime_header_file_name : String
runtime_header_file_name = "rt.h"

module _ {W : Type 0} (machine : Machine W) (cfg : Config) where
  -- The compiler of the environment, if there is one
  abbrev pub compiler_in : W → String
  compiler_in w = elim (machine.environment w "F1X_RUNTIME_CXX") [
    | some compiler ↦ compiler
    | none ↦ runtime_compiler
  ]

  -- `Runtime::compile`
  unfoldable pub compile_runtime : W → Bool × W
  compile_runtime w =
      let ran =
        from_directory machine cfg cfg.data_dir
          (λ v. machine.system v (
            compiler_in v
            <> " "
            <> runtime_optimization
            <> " -fPIC "
            <> runtime_source_file_name
            <> " -shared -lrt -std=c++11 -o libf1xrt.so"
            <> output_to cfg))
          w in
      (ran.0 == 0, ran.1)
