-- ===== src/Calls/Programs.antt =====
-- repair/Synthesis.cpp: the program under test, linked with the generated functions.
use f1x.Prelude.{ℕ, Bool, true, ◌&&◌, Option, none, some, if◌then◌else◌}
use f1x.Core.{PatchId}
use f1x.Runtime.{Memory}
use f1x.Calls.{Evaluation, agrees, call}

-- The program under test, as far as it meets the generated function: it ends, or it makes a call and goes
-- on with the value that it gets.
pub data Program (V : Type 0) (A : Type 0) : Type 0 where
  ended : A → Program V A
  calls : Evaluation V → (V → Program V A) → Program V A

-- A run with a candidate. The outer `none` is for fuel that ran out, the inner one for an abort.
module _ {V A : Type 0} (same_value : V → V → Bool) (no_value : V) where
  unfoldable pub run_program : ℕ → PatchId → Program V A → Memory → Option (Option A × Memory)
  run_program fuel id (ended a) m = some (some a, m)
  run_program fuel id (calls evaluate next) m =
      elim (call true same_value no_value fuel evaluate id m) [
        | none ↦ none
        | some (aborted, value, m') ↦
            let more = run_program fuel id (next value) m' in
            if aborted then some (none, m') else more
      ]

  -- What a candidate does to the program, without the array.
  abbrev pub behaviour : PatchId → Program V A → Option A
  behaviour id (ended a) = some a
  behaviour id (calls evaluate next) =
      let more = behaviour id (next (evaluate id).1) in if (evaluate id).0 then none else more

  -- The second candidate agrees with the first in each call of the first.
  abbrev pub follows : PatchId → Program V A → PatchId → Bool
  follows id (ended a) q = true
  follows id (calls evaluate next) q =
      let more = follows id (next (evaluate id).1) q in
      agrees same_value (evaluate id).0 (evaluate id).1 (evaluate q)
      && (if (evaluate id).0 then true else more)
