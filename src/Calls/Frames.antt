-- ===== src/Calls/Frames.antt =====
-- repair/Synthesis.cpp: the rounds of a generated function, from the second on.
use mathlib.Core.List.{append_assoc, append-nil}
use f1x.Prelude.{
  ℕ, zero, suc, ◌+◌, ◌≤◌, ◌<◌, ◌≡◌, refl, sym, ap, ◌∙◌, List, [], ◌∷◌, ◌++◌, length, All, Bool,
  true, false, Option, some, if◌then◌else◌, ltb, arith, Bool-cases, inl, inr, length-append, subst,
}
use f1x.Core.{PatchId}
use f1x.Runtime.{Memory, Holds, IsPatch, output_terminator}
use f1x.Runtime.Untouched.{Holds-same}
use f1x.Calls.{Evaluation, Frame, assign, new_frame, agrees, visit, rounds, call}
use f1x.Calls.Filter.{
  kept_ids, Written, Written-assign, assign-behind, Holds-Written, Written-same, assign-before,
  assign-here,
}

module _ {V : Type 0} (same_value : V → V → Bool) (no_value : V) (evaluate : Evaluation V)
    (value : V) (panic : Bool) where
  abbrev pub frame : ℕ → ℕ → Frame V
  frame i n = record {
    output_value = value;
    output_initialized = true;
    input_index = i;
    output_index = n;
    output_panic = panic;
  }

  abbrev pub same : PatchId → Bool
  same id = agrees same_value panic value (evaluate id)

  -- The rounds end with a list of ids in the array.
  abbrev pub Ends : Option (Frame V × Memory) → List PatchId → Type 0
  Ends o ids = (i : ℕ) × (m : Memory) × (o ≡ some (frame i (length ids), m)) × Written m 0 ids

  -- The rounds behind a visit.
  abbrev pub remaining : ℕ → ℕ → ℕ → Memory → Option (Frame V × Memory)
  remaining fuel i n m =
      if ltb 0 (m i).base
      then rounds true same_value no_value fuel evaluate (m i) (frame (i + 1) n) m
      else some (frame i n, m)

  visit-agrees :
      (id : PatchId) (i n : ℕ) (m : Memory)
      → same id ≡ true
      → visit true same_value no_value evaluate id (frame i n) m ≡ (frame i (n + 1), assign m n id)
  unfolding visit
  visit-agrees id i n m e = rw e refl

  visit-differs :
      (id : PatchId) (i n : ℕ) (m : Memory)
      → same id ≡ false
      → visit true same_value no_value evaluate id (frame i n) m ≡ (frame i n, m)
  unfolding visit
  visit-differs id i n m e = rw e refl

  rounds-agrees :
      (fuel : ℕ) (id : PatchId) (i n : ℕ) (m : Memory)
      → same id ≡ true
      → rounds true same_value no_value (suc fuel) evaluate id (frame i n) m
        ≡ remaining fuel i (suc n) (assign m n id)
  unfolding rounds
  rounds-agrees fuel id i n m e =
      let next : n + 1 ≡ suc n = omega arith in rw (visit-agrees id i n m e, next) refl

  rounds-differs :
      (fuel : ℕ) (id : PatchId) (i n : ℕ) (m : Memory)
      → same id ≡ false
      → rounds true same_value no_value (suc fuel) evaluate id (frame i n) m ≡ remaining fuel i n m
  unfolding rounds
  rounds-differs fuel id i n m e = rw (visit-differs id i n m e) refl

  remaining-last :
      (fuel i n : ℕ) (m : Memory) → (m i).base ≡ 0 → remaining fuel i n m ≡ some (frame i n, m)
  remaining-last fuel i n m e = rw e refl

  remaining-next :
      (fuel i n : ℕ) (m : Memory) (id : PatchId)
      → m i ≡ id
      → 0 < id.base
      → remaining fuel i n m ≡ rounds true same_value no_value fuel evaluate id (frame (suc i) n) m
  remaining-next fuel i n m id e h =
      let next : i + 1 ≡ suc i = omega arith in rw (e, next) (ground (arith, h))

  -- The ids that agree are moved to the front; the rest of the array still holds what is to be read.
  pub remaining-Ends :
      (rest : List PatchId) (fuel i : ℕ) (m : Memory) (done : List PatchId) (last : PatchId)
      → Written m 0 done
      → Holds m i rest last
      → last.base ≡ 0
      → All IsPatch rest
      → length done ≤ i
      → length rest ≤ fuel
      → Ends (remaining fuel i (length done) m) (done ++ kept_ids same rest)
  remaining-Ends [] fuel i m done last w h z k below enough =
      rw (append-nil done)
        (i, m, remaining-last fuel i (length done) m (ap (λ (id : PatchId). id.base) h ∙ z), w)
  remaining-Ends (id ∷ rest) zero i m done last w h z k below enough = elim enough [ ]
  remaining-Ends (id ∷ rest) (suc fuel) i m done last w h z k below enough =
      let e = remaining-next (suc fuel) i (length done) m id h.0 k.0 in
      elim (Bool-cases (same id)) [
        | inl s ↦
            let m' = assign m (length done) id in
            let longer : length (done ++ id ∷ []) ≡ suc (length done) =
              omega (arith, length-append done (id ∷ [])) in
            let steps : remaining (suc fuel) i (length done) m
                ≡ remaining fuel (suc i) (length (done ++ id ∷ [])) m' =
              e
              ∙ (rounds-agrees fuel id (suc i) (length done) m s
                  ∙ ap (λ n. remaining fuel (suc i) n m') (sym longer)) in
            let ih =
              remaining-Ends rest fuel (suc i) m' (done ++ id ∷ []) last
                (Written-assign m done id w)
                (Holds-same m m' (suc i) rest last
                  (λ j q. assign-behind m (length done) j id (omega arith)) h.1)
                z k.1 (omega (arith, longer)) (omega arith) in
            rw (s, steps)
              (subst (Ends (remaining fuel (suc i) (length (done ++ id ∷ [])) m'))
                (append_assoc done (id ∷ []) (kept_ids same rest)) ih)
        | inr d ↦
            let steps : remaining (suc fuel) i (length done) m
                ≡ remaining fuel (suc i) (length done) m =
              e ∙ rounds-differs fuel id (suc i) (length done) m d in
            rw (d, steps)
              (remaining-Ends rest fuel (suc i) m done last w h.1 z k.1 (omega arith) (omega arith))
      ]

module _ {V : Type 0} (same_value : V → V → Bool) (no_value : V) (evaluate : Evaluation V)
    (id : PatchId) where
  -- The ids that agree with the candidate on a call.
  abbrev pub agreeing : PatchId → Bool
  agreeing q = agrees same_value (evaluate id).0 (evaluate id).1 (evaluate q)

  first_round :
      (fuel : ℕ) (m : Memory)
      → rounds true same_value no_value
          (suc fuel)
          evaluate
          id
          (new_frame true same_value no_value)
          m
        ≡ remaining same_value no_value evaluate (evaluate id).1 (evaluate id).0 fuel 0 0 m
  unfolding rounds visit
  first_round fuel m = refl

  call-rounds :
      (fuel i n : ℕ) (m m' : Memory)
      → rounds true same_value no_value fuel evaluate id (new_frame true same_value no_value) m
        ≡ some (frame same_value no_value evaluate (evaluate id).1 (evaluate id).0 i n, m')
      → call true same_value no_value fuel evaluate id m
        ≡ some ((evaluate id).0, (evaluate id).1, assign m' n output_terminator)
  unfolding call
  call-rounds fuel i n m m' e = rw (e, call) refl

  -- A call leaves the ids that agree with the candidate in the array, with the output terminator behind
  -- them.
  pub call-Holds :
      (fuel : ℕ) (ids : List PatchId) (last : PatchId) (m : Memory)
      → Holds m 0 ids last
      → last.base ≡ 0
      → All IsPatch ids
      → length ids < fuel
      → (m' : Memory) × (call true same_value no_value fuel evaluate id m
          ≡ some ((evaluate id).0, (evaluate id).1, m'))
        × Holds m' 0 (kept_ids agreeing ids) output_terminator
  call-Holds zero ids last m h z k enough = elim enough [ ]
  call-Holds (suc fuel) ids last m h z k enough =
      let (i, m', e, w) =
        remaining-Ends same_value no_value evaluate (evaluate id).1 (evaluate id).0 ids fuel 0 m []
          last tt h z k (omega arith) (omega arith) in
      let kept = kept_ids agreeing ids in
      let n = length kept in
      let here : 0 + n ≡ n = omega arith in
      (
        assign m' n output_terminator,
        call-rounds (suc fuel) i n m m' (first_round fuel m ∙ e),
        Holds-Written (assign m' n output_terminator) 0 kept output_terminator
            (Written-same m' _ 0 kept (λ j q. assign-before m' n j output_terminator (omega arith))
              w)
            (ap (assign m' n output_terminator) here ∙ assign-here m' n output_terminator),
      )
