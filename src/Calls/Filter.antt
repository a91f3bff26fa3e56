-- ===== src/Calls/Filter.antt =====
-- repair/Synthesis.cpp: the array is filtered in place.
use f1x.Prelude.{
  ℕ, suc, ◌+◌, ◌≤◌, ◌<◌, ◌≡◌, refl, ap, ◌∙◌, List, [], ◌∷◌, ◌++◌, length, All, Bool, true, ◌&&◌,
  if◌then◌else◌, arith, Bool-cases, inl, inr,
}
use f1x.Core.{PatchId}
use f1x.Runtime.{Memory, Holds}
use f1x.Calls.{assign}

-- The ids of a list that a test keeps.
abbrev pub kept_ids : (PatchId → Bool) → List PatchId → List PatchId
kept_ids f [] = []
kept_ids f (id ∷ ids) = let rest = kept_ids f ids in if f id then id ∷ rest else rest

pub kept_ids-All :
    (P : PatchId → Type 0) (f : PatchId → Bool) (ids : List PatchId)
    → All P ids
    → All P (kept_ids f ids)
kept_ids-All P f [] h = tt
kept_ids-All P f (id ∷ ids) h = elim (Bool-cases (f id)) [
  | inl e ↦ rw e (h.0, kept_ids-All P f ids h.1)
  | inr e ↦ rw e (kept_ids-All P f ids h.1)
]

pub length-kept_ids :
    (f : PatchId → Bool) (ids : List PatchId) → length (kept_ids f ids) ≤ length ids
length-kept_ids f [] = omega arith
length-kept_ids f (id ∷ ids) = ground (arith, length-kept_ids f ids)

pub kept_ids_twice :
    (f g : PatchId → Bool) (ids : List PatchId)
    → kept_ids g (kept_ids f ids) ≡ kept_ids (λ q. f q && g q) ids
kept_ids_twice f g [] = refl
kept_ids_twice f g (id ∷ ids) = elim (Bool-cases (f id)) [
  | inl e ↦ rw e (ap (λ qs. if g id then id ∷ qs else qs) (kept_ids_twice f g ids))
  | inr e ↦ rw e (kept_ids_twice f g ids)
]

pub kept_ids-same :
    (f g : PatchId → Bool)
    → ((q : PatchId) → f q ≡ g q)
    → (ids : List PatchId) → kept_ids f ids ≡ kept_ids g ids
kept_ids-same f g h [] = refl
kept_ids-same f g h (id ∷ ids) =
    rw (h id) (ap (λ qs. if g id then id ∷ qs else qs) (kept_ids-same f g h ids))

pub kept_ids_all : (ids : List PatchId) → kept_ids (λ q. true) ids ≡ ids
kept_ids_all [] = refl
kept_ids_all (id ∷ ids) = ap (λ qs. id ∷ qs) (kept_ids_all ids)

-- The array holds the ids from `index` on, whatever comes behind them.
abbrev pub Written : Memory → ℕ → List PatchId → Type 0
Written m index [] = Unit
Written m index (id ∷ ids) = (m index ≡ id) × Written m (suc index) ids

pub Written-same :
    (m m' : Memory) (index : ℕ) (ids : List PatchId)
    → ((j : ℕ) → j < index + length ids → m' j ≡ m j)
    → Written m index ids
    → Written m' index ids
Written-same m m' index [] f h = tt
Written-same m m' index (id ∷ ids) f h =
    (f index (omega arith) ∙ h.0, Written-same m m' (suc index) ids (λ j k. f j (omega arith)) h.1)

Written-snoc :
    (m : Memory) (index : ℕ) (ids : List PatchId) (id : PatchId)
    → Written m index ids
    → m (index + length ids) ≡ id
    → Written m index (ids ++ id ∷ [])
Written-snoc m index [] id h e = (ap m (omega arith) ∙ e, tt)
Written-snoc m index (x ∷ ids) id h e =
    let same : suc index + length ids ≡ index + suc (length ids) = omega arith in
    (h.0, Written-snoc m (suc index) ids id h.1 (ap m same ∙ e))

pub Holds-Written :
    (m : Memory) (index : ℕ) (ids : List PatchId) (last : PatchId)
    → Written m index ids
    → m (index + length ids) ≡ last
    → Holds m index ids last
Holds-Written m index [] last h e = let same : index ≡ index + 0 = omega arith in ap m same ∙ e
Holds-Written m index (x ∷ ids) last h e =
    let same : suc index + length ids ≡ index + suc (length ids) = omega arith in
    (h.0, Holds-Written m (suc index) ids last h.1 (ap m same ∙ e))

pub assign-here : (m : Memory) (k : ℕ) (id : PatchId) → assign m k id k ≡ id
unfolding assign
assign-here m k id = ground arith

pub assign-before : (m : Memory) (k j : ℕ) (id : PatchId) → j < k → assign m k id j ≡ m j
unfolding assign
assign-before m k j id h = ground arith

pub assign-behind : (m : Memory) (k j : ℕ) (id : PatchId) → k < j → assign m k id j ≡ m j
unfolding assign
assign-behind m k j id h = ground arith

pub Written-assign :
    (m : Memory) (ids : List PatchId) (id : PatchId)
    → Written m 0 ids
    → Written (assign m (length ids) id) 0 (ids ++ id ∷ [])
Written-assign m ids id h =
    let same : 0 + length ids ≡ length ids = omega arith in
    Written-snoc (assign m (length ids) id) 0 ids id
      (Written-same m _ 0 ids (λ j k. assign-before m (length ids) j id (omega arith)) h)
      (ap (assign m (length ids) id) same ∙ assign-here m (length ids) id)
