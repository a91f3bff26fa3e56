-- ===== src/Samples/CallRuns.antt =====
-- Runs of a program with the functions that repair/Synthesis.cpp generates.
use f1x.Prelude.{
  ℕ, ◌+◌, ◌≡◌, refl, List, [], ◌∷◌, ◌++◌, true, false, some, ok, arith, ◌==◌, ==_iff, ltb,
}
use f1x.Core.{PatchId}
use f1x.Runtime.{Memory, input_terminator, get_partition, write}
use f1x.Calls.{Evaluation}
use f1x.Calls.Filter.{kept_ids}
use f1x.Calls.Programs.{Program, ended, calls, run_program, behaviour, follows}
use f1x.Calls.Equivalence.{partition_run, follows-behaviour}

abbrev id_number : ℕ → PatchId
id_number n = record { base = n; int2 = 0; bool2 = 0; cond3 = 0; param = 0 }

-- The patches 1, 2 and 3 have the value 5, patch 4 has the value 6, and the others abort.
abbrev value_of : Evaluation ℕ
value_of p = (ltb 4 p.base, elim (ltb p.base 4) [ true ↦ 5 | false ↦ 6 ])

-- At the second place only the patches 1 and 3 have the same value.
abbrev parity_of : Evaluation ℕ
parity_of p = (false, elim (p.base == 2) [ true ↦ 0 | false ↦ 1 ])

abbrev two_calls : ℕ → Program ℕ ℕ
two_calls v = calls parity_of λ w. ended (v + w)

abbrev no_ids : Memory
no_ids i = id_number 0

abbrev candidates : List PatchId
candidates = id_number 2 ∷ id_number 3 ∷ id_number 4 ∷ []

partition_run_example :
    (m' : Memory) × (run_program ◌==◌ 0 10
        (id_number 1)
        (calls value_of two_calls)
        (write 0 (candidates ++ input_terminator ∷ []) no_ids)
      ≡ some (behaviour ◌==◌ 0 (id_number 1) (calls value_of two_calls), m'))
    × (get_partition 10 m'
        ≡ ok (kept_ids (follows ◌==◌ 0 (id_number 1) (calls value_of two_calls)) candidates))
partition_run_example =
    partition_run ◌==◌ 0 10 (id_number 1) value_of two_calls no_ids candidates
      (omega arith, (omega arith, (omega arith, tt))) (omega arith)

-- Patch 3 is the one that is left.
kept_example :
    kept_ids (follows ◌==◌ 0 (id_number 1) (calls value_of two_calls)) candidates ≡ id_number 3 ∷ []
kept_example = refl

follows-behaviour_example :
    behaviour ◌==◌ 0 (id_number 3) (calls value_of two_calls)
    ≡ behaviour ◌==◌ 0 (id_number 1) (calls value_of two_calls)
follows-behaviour_example =
    follows-behaviour ◌==◌ 0 (λ v w. (==_iff v w).0) (id_number 1) (id_number 3)
      (calls value_of two_calls) refl
