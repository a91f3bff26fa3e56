-- ===== src/Calls/Equivalence.antt =====
-- repair/Synthesis.cpp and repair/Runtime.cpp: a run of the program under test, from `setPartition` to
-- `getPartition`. The patches that stay in the array are those that behave as the one that ran.
use f1x.Prelude.{
  ℕ, ◌<◌, ◌≡◌, refl, sym, ap, ◌∙◌, List, [], ◌∷◌, ◌++◌, length, All, Bool, true, false, none, some,
  arith, Bool-cases, inl, inr, subst, ok, &&_split,
}
use f1x.Core.{PatchId}
use f1x.Runtime.{
  Memory, Holds, IsPatch, output_terminator, input_terminator, get_partition, write,
  get_partition-written,
}
use f1x.Runtime.Untouched.{write-Holds}
use f1x.Calls.{Evaluation, call}
use f1x.Calls.Filter.{
  kept_ids, kept_ids-All, length-kept_ids, kept_ids_twice, kept_ids-same, kept_ids_all,
}
use f1x.Calls.Programs.{Program, ended, calls, run_program, behaviour, follows}
use f1x.Calls.Frames.{agreeing, call-Holds}

module _ {V : Type 0} (same_value : V → V → Bool) (no_value : V) where
  agrees-panic :
      (id q : PatchId) (evaluate : Evaluation V)
      → agreeing same_value no_value evaluate id q ≡ true
      → (evaluate id).0 ≡ true
      → (evaluate q).0 ≡ true
  agrees-panic id q evaluate h e = ground (arith, h, e)

  agrees-value :
      (id q : PatchId) (evaluate : Evaluation V)
      → agreeing same_value no_value evaluate id q ≡ true
      → (evaluate id).0 ≡ false
      → ((evaluate q).0 ≡ false) × (same_value (evaluate id).1 (evaluate q).1 ≡ true)
  agrees-value id q evaluate h e = ground (arith, h, e)

module _ {V A : Type 0} (same_value : V → V → Bool) (no_value : V) where
  -- The terminator that is left in the array
  abbrev closing : Program V A → PatchId → PatchId
  closing (ended a) last = last
  closing (calls evaluate next) last = output_terminator

  closing-output : (p : Program V A) → closing p output_terminator ≡ output_terminator
  closing-output (ended a) = refl
  closing-output (calls evaluate next) = refl

  run_program-abort :
      (fuel : ℕ) (id : PatchId) (evaluate : Evaluation V) (next : V → Program V A) (m m' : Memory)
      → call true same_value no_value fuel evaluate id m
        ≡ some ((evaluate id).0, (evaluate id).1, m')
      → (evaluate id).0 ≡ true
      → run_program same_value no_value fuel id (calls evaluate next) m ≡ some (none, m')
  unfolding run_program
  run_program-abort fuel id evaluate next m m' e p = rw (e, p, run_program) refl

  run_program-return :
      (fuel : ℕ) (id : PatchId) (evaluate : Evaluation V) (next : V → Program V A) (m m' : Memory)
      → call true same_value no_value fuel evaluate id m
        ≡ some ((evaluate id).0, (evaluate id).1, m')
      → (evaluate id).0 ≡ false
      → run_program same_value no_value fuel id (calls evaluate next) m
        ≡ run_program same_value no_value fuel id (next (evaluate id).1) m'
  unfolding run_program
  run_program-return fuel id evaluate next m m' e p = rw (e, p, run_program) refl

  behaviour-abort :
      (id : PatchId) (evaluate : Evaluation V) (next : V → Program V A)
      → (evaluate id).0 ≡ true
      → behaviour same_value no_value id (calls evaluate next) ≡ none
  behaviour-abort id evaluate next e = rw e refl

  behaviour-return :
      (id : PatchId) (evaluate : Evaluation V) (next : V → Program V A)
      → (evaluate id).0 ≡ false
      → behaviour same_value no_value id (calls evaluate next)
        ≡ behaviour same_value no_value id (next (evaluate id).1)
  behaviour-return id evaluate next e = rw e refl

  module _ (id : PatchId) (evaluate : Evaluation V) (next : V → Program V A)
      (ids : List PatchId) where
    abbrev f : PatchId → Bool
    f = agreeing same_value no_value evaluate id

    kept_ids-abort :
        (evaluate id).0 ≡ true
        → kept_ids f ids ≡ kept_ids (follows same_value no_value id (calls evaluate next)) ids
    kept_ids-abort e = kept_ids-same f _ (λ q. rw e (ground arith)) ids

    kept_ids-return :
        (evaluate id).0 ≡ false
        → kept_ids (follows same_value no_value id (next (evaluate id).1)) (kept_ids f ids)
          ≡ kept_ids (follows same_value no_value id (calls evaluate next)) ids
    kept_ids-return e =
        kept_ids_twice f (follows same_value no_value id (next (evaluate id).1)) ids
        ∙ kept_ids-same _ _ (λ q. rw e refl) ids

  run_program-Holds :
      (fuel : ℕ) (id : PatchId) (p : Program V A) (m : Memory) (ids : List PatchId) (last : PatchId)
      → Holds m 0 ids last
      → last.base ≡ 0
      → All IsPatch ids
      → length ids < fuel
      → (m' : Memory) × (run_program same_value no_value fuel id p m
          ≡ some (behaviour same_value no_value id p, m'))
        × Holds m' 0 (kept_ids (follows same_value no_value id p) ids) (closing p last)
  unfolding run_program
  run_program-Holds fuel id (ended a) m ids last h z k enough = (m, refl, rw (kept_ids_all ids) h)
  run_program-Holds fuel id (calls evaluate next) m ids last h z k enough =
      let f = agreeing same_value no_value evaluate id in
      let (m₁, e, h₁) = call-Holds same_value no_value evaluate id fuel ids last m h z k enough in
      elim (Bool-cases (evaluate id).0) [
        | inl aborts ↦ (
          m₁,
          run_program-abort fuel id evaluate next m m₁ e aborts
              ∙ ap (λ b. some (b, m₁)) (sym (behaviour-abort id evaluate next aborts)),
          subst (λ qs. Holds m₁ 0 qs output_terminator) (kept_ids-abort id evaluate next ids aborts)
              h₁,
        )
        | inr returns ↦
            let (m₂, e₂, h₂) =
              run_program-Holds fuel id (next (evaluate id).1) m₁ (kept_ids f ids) output_terminator
                h₁ refl (kept_ids-All IsPatch f ids k) (omega (arith, length-kept_ids f ids)) in
            (
              m₂,
              run_program-return fuel id evaluate next m m₁ e returns
                  ∙ (e₂ ∙ ap (λ b. some (b, m₂)) (sym (behaviour-return id evaluate next returns))),
              subst
                  (λ t.
                    Holds m₂ 0 (kept_ids (follows same_value no_value id (calls evaluate next)) ids)
                      t)
                  (closing-output (next (evaluate id).1))
                  (subst (λ qs. Holds m₂ 0 qs (closing (next (evaluate id).1) output_terminator))
                    (kept_ids-return id evaluate next ids returns) h₂),
            )
      ]

  -- The partition protocol: with patches that leave room for the terminator, and a program under test that
  -- ends after at least one call, a run from `setPartition` on ends, with the behaviour of the candidate
  -- that runs, and `getPartition` then reads the patches that agreed with it in each call, in their
  -- order.
  pub partition_run :
      (size : ℕ) (id : PatchId) (evaluate : Evaluation V) (next : V → Program V A) (m : Memory)
      (ids : List PatchId)
      → All IsPatch ids
      → length ids < size
      → (m' : Memory) × (run_program same_value no_value size id
            (calls evaluate next)
            (write 0 (ids ++ input_terminator ∷ []) m)
          ≡ some (behaviour same_value no_value id (calls evaluate next), m'))
        × (get_partition size m'
            ≡ ok (kept_ids (follows same_value no_value id (calls evaluate next)) ids))
  partition_run size id evaluate next m ids k enough =
      let p = calls evaluate next in
      let g = follows same_value no_value id p in
      let (m', e, h) =
        run_program-Holds size id p (write 0 (ids ++ input_terminator ∷ []) m) ids input_terminator
          (write-Holds 0 ids input_terminator m) refl k enough in
      (
        m',
        e,
        get_partition-written size m' (kept_ids g ids) h (kept_ids-All IsPatch g ids k)
            (omega (arith, length-kept_ids g ids)),
      )

  follows-return :
      (id q : PatchId) (evaluate : Evaluation V) (next : V → Program V A)
      → follows same_value no_value id (calls evaluate next) q ≡ true
      → (evaluate id).0 ≡ false
      → follows same_value no_value id (next (evaluate id).1) q ≡ true
  follows-return id q evaluate next h e = (&&_split _ _ (rw e at h)).1

  -- Value-based test equivalence: where values that compare equal are equal, a patch that agrees with
  -- the candidate that runs in each of its calls has the same behaviour.
  pub follows-behaviour :
      ((v w : V) → same_value v w ≡ true → v ≡ w)
      → (id q : PatchId) (p : Program V A) → follows same_value no_value id p q ≡ true
      → behaviour same_value no_value q p ≡ behaviour same_value no_value id p
  follows-behaviour sound id q (ended a) h = refl
  follows-behaviour sound id q (calls evaluate next) h =
      let agree = (&&_split _ _ h).0 in
      elim (Bool-cases (evaluate id).0) [
        | inl e ↦
            behaviour-abort q evaluate next (agrees-panic same_value no_value id q evaluate agree e)
            ∙ sym (behaviour-abort id evaluate next e)
        | inr e ↦
            let (p, s) = agrees-value same_value no_value id q evaluate agree e in
            let same : (evaluate id).1 ≡ (evaluate q).1 = sound _ _ s in
            behaviour-return q evaluate next p
            ∙ (ap (λ v. behaviour same_value no_value q (next v)) (sym same)
                ∙ (follows-behaviour sound id q (next (evaluate id).1)
                      (follows-return id q evaluate next h e)
                    ∙ sym (behaviour-return id evaluate next e)))
      ]
