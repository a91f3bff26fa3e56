-- ===== src/Runtime/Untouched.antt =====
-- repair/Runtime.cpp: a partition that the program under test leaves as it was written.
use f1x.Prelude.{
  ℕ, zero, suc, ◌≤◌, ◌<◌, ◌≡◌, refl, ◌∙◌, List, [], ◌∷◌, ◌++◌, length, All, true, ltb, ok, ◌>>=◌,
  arith,
}
use f1x.Core.{PatchId}
use f1x.Runtime.{
  Memory, IsPatch, Holds, input_terminator, write, set_partition, get_loop, get_partition,
}

pub Holds-same :
    (m m' : Memory) (index : ℕ) (ids : List PatchId) (last : PatchId)
    → ((j : ℕ) → index ≤ j → m' j ≡ m j)
    → Holds m index ids last
    → Holds m' index ids last
Holds-same m m' index [] last f h = f index (omega arith) ∙ h
Holds-same m m' index (id ∷ ids) last f h = (
  f index (omega arith) ∙ h.0,
  Holds-same m m' (suc index) ids last (λ j k. f j (omega arith)) h.1,
)

write-here :
    (index : ℕ) (id : PatchId) (ids : List PatchId) (m : Memory)
    → write index (id ∷ ids) m index ≡ id
unfolding write
write-here index id ids m = ground arith

write-later :
    (index : ℕ) (id : PatchId) (ids : List PatchId) (m : Memory) (j : ℕ)
    → suc index ≤ j
    → write index (id ∷ ids) m j ≡ write (suc index) ids m j
unfolding write
write-later index id ids m j h = ground (arith, h)

pub write-Holds :
    (index : ℕ) (ids : List PatchId) (last : PatchId) (m : Memory)
    → Holds (write index (ids ++ last ∷ []) m) index ids last
write-Holds index [] last m = write-here index last [] m
write-Holds index (id ∷ ids) last m = (
  write-here index id (ids ++ last ∷ []) m,
  Holds-same (write (suc index) (ids ++ last ∷ []) m) _ (suc index) ids last
      (write-later index id (ids ++ last ∷ []) m) (write-Holds (suc index) ids last m),
)

get_loop-input :
    (room index : ℕ) (m : Memory) (ids result : List PatchId)
    → Holds m index ids input_terminator
    → All IsPatch ids
    → length ids < room
    → get_loop room index m result ≡ ok []
unfolding get_loop
get_loop-input zero index m ids result h k r = elim r [ ]
get_loop-input (suc room) index m [] result h k r = rw h refl
get_loop-input (suc room) index m (id ∷ ids) result h k r =
    ground (arith, get_loop-input room (suc index) m ids (result ++ m index ∷ []))

-- For patches that leave room for the terminator: a partition that was set, and that nothing wrote to,
-- is read as the empty partition.
pub set_partition-get_partition :
    (size : ℕ) (ids : List PatchId) (m : Memory)
    → All IsPatch ids
    → length ids < size
    → (set_partition size ids m >>= get_partition size) ≡ ok []
unfolding set_partition get_partition
set_partition-get_partition size ids m k r =
    let fits : ltb (length ids) size ≡ true = ground (arith, r) in
    rw fits (get_loop-input size 0 _ ids [] (write-Holds 0 ids input_terminator m) k r)
