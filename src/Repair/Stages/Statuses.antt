-- ===== src/Repair/Stages/Statuses.antt =====
-- repair/Repair.cpp: what `repair` returns for a program that passes its tests.
use f1x.Prelude.{ℕ, ◌≡◌, ◌≢◌, List, All, true, String, Result, ok, err}
use f1x.Core.{RepairStatus}
use f1x.Core.Config.{Config}
use f1x.FaultLocalization.Arithmetic.{Double}
use f1x.Profiler.{Profiler}
use f1x.Project.{Project, Machine}
use f1x.Project.Tester.{TestingFramework}
use f1x.Repair.Stages.{Stage, returned, continues, Tools, run_test}
use f1x.SearchEngine.{is_pass}

-- The stage stops, and not with a success.
abbrev Stops : {W A : Type 0} → Result (Stage W A) → Type 0
Stops (err e) = Unit
Stops (ok (returned status w)) = status ≢ RepairStatus.success
Stops (ok (continues a w)) = ⊥

-- The stage goes on, or stops with another status than success.
abbrev Fails : {W A : Type 0} → Result (Stage W A) → Type 0
Fails (err e) = Unit
Fails (ok (returned status w)) = status ≢ RepairStatus.success
Fails (ok (continues a w)) = Unit

module _ {W J D : Type 0} (tools : Tools W J) (machine : Machine W) (d : Double D)
    (in_order : List ℕ → List ℕ) (cfg : Config) (tester : TestingFramework)
    (tests : List String) where
  -- Every run of a test passes.
  abbrev pub AllPass : List String → Type 0
  AllPass =
      All λ test.
        (w : W) → is_pass (run_test tools machine d in_order cfg tester tests w test).0 ≡ true
