-- ===== src/Project/Surroundings.antt =====
-- repair/Project.cpp: the environment around the commands that are run.
use f1x.Prelude.{◌≡◌, ◌≢◌, ◌∙◌, ◌⊎◌, false, none, String}
use f1x.Core.Config.{Config}
use f1x.Util.Environment.{
  Environment, Variables, enter, leave, IsMap, is_set, leave-same, leave-enter,
}
use f1x.Project.{Machine, system_in}

-- The documented behaviour of `getenv` and `setenv`, and of `std::system`, whose child process has an
-- environment of its own.
pub record EnvironmentRules {W : Type 0} (machine : Machine W) : Type 0 where
  pub environment-with_environment :
      (e : Environment) (w : W) (n : String)
      → machine.environment (machine.with_environment e w) n ≡ e n
  pub environment-system :
      (w : W) (command n : String)
      → machine.environment (machine.system w command).1 n ≡ machine.environment w n

module _ {W : Type 0} (machine : Machine W) (cfg : Config) (rules : EnvironmentRules machine) where
  -- A command that is run in a changed environment, a build or a test, leaves the variables that had a
  -- value before and those that it does not set as they were.
  pub system_in-environment :
      (vars : Variables) (command : String) (w : W) (n : String)
      → IsMap vars
      → (machine.environment w n ≢ none) ⊎ (is_set vars n ≡ false)
      → machine.environment (system_in machine cfg vars command w).1 n ≡ machine.environment w n
  unfolding system_in
  system_in-environment vars command w n h k =
      let old = machine.environment w in
      let entered = (enter vars old).1 in
      let ran = (machine.system (machine.with_environment entered w) command).1 in
      rules.environment-with_environment (leave (enter vars old).0 (machine.environment ran)) ran n
      ∙ (leave-same n (enter vars old).0 (machine.environment ran) entered (
            rules.environment-system (machine.with_environment entered w) command n
            ∙ rules.environment-with_environment entered w n)
          ∙ leave-enter vars old n h k)
