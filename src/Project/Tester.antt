-- ===== src/Project/Tester.antt =====
-- repair/Project.cpp: the execution of a test.
use f1x.Prelude.{ℕ, [], ◌∷◌, Bool, false, String, ◌<>◌, if◌then◌else◌, ◌==◌}
use f1x.Core.{TestStatus}
use f1x.Core.Config.{Config}
use f1x.Project.{Machine, output_to, system_in}

-- `TestingFramework`; how the timeout is written in seconds is a parameter.
pub record TestingFramework : Type 0 where
  pub driver : String
  pub test_timeout : ℕ

-- `TIMEOUT_EXIT_CODE`
abbrev pub timeout_exit_code : ℕ
timeout_exit_code = 124

abbrev pub test_status : ℕ → TestStatus
test_status status =
    if status == 0
    then TestStatus.pass
    else if status == timeout_exit_code
    then TestStatus.timeout
    else TestStatus.fail

module _ {W : Type 0} (machine : Machine W) (cfg : Config) (seconds : ℕ → String) where
  unfoldable pub execute : TestingFramework → String → W → TestStatus × W
  execute tester test_id w =
      let (status, w') =
        system_in machine cfg (("LD_LIBRARY_PATH", cfg.data_dir) ∷ [])
          ("timeout "
            <> seconds tester.test_timeout
            <> "s "
            <> tester.driver
            <> " "
            <> test_id
            <> output_to cfg)
          w in
      (test_status status, w')

  unfoldable pub driver_is_ok : TestingFramework → W → Bool
  driver_is_ok tester w =
      if machine.exists w tester.driver then machine.is_executable w tester.driver else false
