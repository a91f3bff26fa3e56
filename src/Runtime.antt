-- ===== src/Runtime.antt =====
-- repair/Runtime.cpp: the partition of patches that the tool shares with the program under test, an
-- array in shared memory that ends with a terminator.
pub mod Untouched
pub mod Build
use f1x.Prelude.{
  ℕ, zero, suc, ◌+◌, ◌<◌, ◌≡◌, refl, List, [], ◌∷◌, ◌++◌, length, All, ltb, Result, ok, err, Error,
  ◌>>◌, assert, if◌then◌else◌, ◌==◌, arith, ap,
}
use mathlib.Core.List.{append-nil, append_assoc}
use f1x.Core.{PatchId, patch_id_eq}

abbrev pub input_terminator : PatchId
input_terminator = record { base = 0; int2 = 0; bool2 = 0; cond3 = 0; param = 0 }

abbrev pub output_terminator : PatchId
output_terminator = record { base = 0; int2 = 0; bool2 = 0; cond3 = 0; param = 1 }

-- The array by its entries; only those below its size may be accessed.
abbrev pub Memory : Type 0
Memory = ℕ → PatchId

unfoldable pub write : ℕ → List PatchId → Memory → Memory
write index [] m i = m i
write index (id ∷ ids) m i = if i == index then id else write (suc index) ids m i

-- `setPartition`, on an array of `size` entries (`MAX_PARTITION_SIZE`)
unfoldable pub set_partition : ℕ → List PatchId → Memory → Result Memory
unfolding write
set_partition size ids m = do
  assert (ltb (length ids) size)
  ok (write 0 (ids ++ input_terminator ∷ []) m)

-- The loop of `getPartition` from `index` on, with `room` entries left in the array. The entry behind
-- the last is read before `index` is compared with the size.
unfoldable pub get_loop : ℕ → ℕ → Memory → List PatchId → Result (List PatchId)
get_loop zero index m result = err Error.out_of_bounds
get_loop (suc room) index m result =
    let more = get_loop room (suc index) m (result ++ m index ∷ []) in
    if patch_id_eq (m index) output_terminator
    then ok result
    else if patch_id_eq (m index) input_terminator
    then ok []
    else more

-- `getPartition`
unfoldable pub get_partition : ℕ → Memory → Result (List PatchId)
unfolding get_loop
get_partition size m = get_loop size 0 m []

-- An id that is no terminator.
abbrev pub IsPatch : PatchId → Type 0
IsPatch id = 0 < id.base

-- The array holds the ids from `index` on, and the given entry behind them.
abbrev pub Holds : Memory → ℕ → List PatchId → PatchId → Type 0
Holds m index [] last = m index ≡ last
Holds m index (id ∷ ids) last = (m index ≡ id) × Holds m (suc index) ids last

get_loop-Holds :
    (room index : ℕ) (m : Memory) (ids result : List PatchId)
    → Holds m index ids output_terminator
    → All IsPatch ids
    → length ids < room
    → get_loop room index m result ≡ ok (result ++ ids)
unfolding get_loop
get_loop-Holds zero index m ids result h k r = elim r [ ]
get_loop-Holds (suc room) index m [] result h k r =
    rw h (ap ok (mathlib.Core.Path.sym (append-nil result)))
get_loop-Holds (suc room) index m (id ∷ ids) result h k r = ground (
  arith,
  get_loop-Holds room (suc index) m ids (result ++ id ∷ []),
  append_assoc result (id ∷ []) ids,
)

-- Patches in the array with the output terminator behind them, which is still inside the array, are
-- read back as they are.
pub get_partition-written :
    (size : ℕ) (m : Memory) (ids : List PatchId)
    → Holds m 0 ids output_terminator
    → All IsPatch ids
    → length ids < size
    → get_partition size m ≡ ok ids
unfolding get_partition
get_partition-written size m ids h k r = get_loop-Holds size 0 m ids [] h k r

get_loop-unterminated :
    (room index : ℕ) (m : Memory) (result : List PatchId)
    → ((i : ℕ) → i < index + room → IsPatch (m i))
    → get_loop room index m result ≡ err Error.out_of_bounds
unfolding get_loop
get_loop-unterminated zero index m result h = refl
get_loop-unterminated (suc room) index m result h =
    let here : IsPatch (m index) = h index (omega arith) in
    let ih : get_loop room (suc index) m (result ++ m index ∷ []) ≡ err Error.out_of_bounds =
      get_loop-unterminated room (suc index) m (result ++ m index ∷ [])
        (λ i k. h i (omega arith)) in
    ground (arith, here, ih)

-- If each entry of the array is a patch, so that no terminator stops the loop, the entry behind the array
-- is read: an index equal to the size passes the comparison with it.
pub get_partition-unterminated :
    (size : ℕ) (m : Memory)
    → ((i : ℕ) → i < size → IsPatch (m i))
    → get_partition size m ≡ err Error.out_of_bounds
unfolding get_partition
get_partition-unterminated size m h = get_loop-unterminated size 0 m [] (λ i k. h i (omega arith))
