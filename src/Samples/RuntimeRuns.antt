-- ===== src/Samples/RuntimeRuns.antt =====
-- Runs of repair/Runtime.cpp.
use f1x.Prelude.{◌>>=◌, ℕ, zero, suc, ◌≡◌, refl, [], ◌∷◌, ok, err, Error, arith}
use f1x.Core.{PatchId}
use f1x.Runtime.Untouched.{set_partition-get_partition}
use f1x.Runtime.{
  set_partition, Memory, output_terminator, get_partition, get_partition-written,
  get_partition-unterminated,
}

abbrev id_number : ℕ → PatchId
id_number n = record { base = n; int2 = 0; bool2 = 0; cond3 = 0; param = 0 }

-- Two ids and the terminator, then more ids.
abbrev terminated : Memory
terminated zero = id_number 4
terminated (suc zero) = id_number 7
terminated (suc (suc zero)) = output_terminator
terminated (suc (suc (suc n))) = id_number 9

abbrev unterminated : Memory
unterminated i = id_number (suc i)

get_partition-written_example :
    get_partition 1000000 terminated ≡ ok (id_number 4 ∷ id_number 7 ∷ [])
get_partition-written_example =
    get_partition-written 1000000 terminated (id_number 4 ∷ id_number 7 ∷ []) (refl, (refl, refl))
      (omega arith, (omega arith, tt)) (omega arith)

get_partition-unterminated_example : get_partition 1000000 unterminated ≡ err Error.out_of_bounds
get_partition-unterminated_example =
    get_partition-unterminated 1000000 unterminated (λ i h. omega arith)

set_partition-get_partition_example :
    (set_partition 1000000 (id_number 4 ∷ []) unterminated >>= get_partition 1000000) ≡ ok []
set_partition-get_partition_example =
    set_partition-get_partition 1000000 (id_number 4 ∷ []) unterminated (omega arith, tt)
      (omega arith)
