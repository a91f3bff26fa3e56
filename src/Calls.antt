-- ===== src/Calls.antt =====
-- repair/Synthesis.cpp, `partitioningFunctions`: what a generated function does when the program under
-- test calls it. It evaluates the candidate that runs, then those in shared memory, and leaves there
-- the ones that agree. The dispatch on candidates is a parameter.
pub mod Frames
pub mod Filter
pub mod Programs
pub mod Equivalence
use f1x.Prelude.{
  ℕ, zero, suc, ◌+◌, List, [], ◌∷◌, Bool, true, false, ◌&&◌, ◌||◌, not, Option, none, some,
  if◌then◌else◌, ◌==◌, ltb,
}
use f1x.Core.{PatchId}
use f1x.Runtime.{Memory, output_terminator}

-- What the dispatch leaves for a candidate: `current_panic` and `base_value`.
abbrev pub Evaluation : Type 0 → Type 0
Evaluation V = PatchId → Bool × V

-- The local variables
pub record Frame (V : Type 0) : Type 0 where
  pub output_value : V
  pub output_initialized : Bool
  pub input_index : ℕ
  pub output_index : ℕ
  pub output_panic : Bool

-- One entry of the array is assigned.
unfoldable pub assign : Memory → ℕ → PatchId → Memory
assign m index id i = if i == index then id else m i

-- The test in front of the assignment to the array.
abbrev pub agrees : {V : Type 0} → (V → V → Bool) → Bool → V → Bool × V → Bool
agrees same_value panic value (current_panic, base_value) =
    (panic && current_panic) || (not panic && (not current_panic && same_value value base_value))

-- `value_teq` is the setting `cfg.valueTEQ`, by which the array is in use.
module _ {V : Type 0} (value_teq : Bool) (same_value : V → V → Bool) (no_value : V) where
  abbrev pub new_frame : Frame V
  new_frame = record {
    output_value = no_value;
    output_initialized = false;
    input_index = 0;
    output_index = 0;
    output_panic = false;
  }

  -- From the dispatch on a candidate to the next test of `__f1xids`.
  unfoldable pub visit : Evaluation V → PatchId → Frame V → Memory → Frame V × Memory
  visit evaluate id f m =
      let first : Frame V = record f {
        output_panic = (evaluate id).0;
        output_value = (evaluate id).1;
        output_initialized = true;
      } in
      let kept : Frame V × Memory =
        if value_teq
        then (record f { output_index = f.output_index + 1 }, assign m f.output_index id)
        else (f, m) in
      if not f.output_initialized
      then (first, m)
      else if agrees same_value f.output_panic f.output_value (evaluate id)
      then kept
      else (f, m)

  -- The rounds from the label on. `none` if the fuel runs out.
  unfoldable pub rounds : ℕ → Evaluation V → PatchId → Frame V → Memory → Option (Frame V × Memory)
  rounds zero evaluate id f m = none
  rounds (suc fuel) evaluate id f m =
      let (f', m') = visit evaluate id f m in
      let read = m' f'.input_index in
      let more = rounds fuel evaluate read (record f' { input_index = f'.input_index + 1 }) m' in
      if value_teq && ltb 0 read.base then more else some (f', m')

  -- A call: whether it aborts, the value it returns, and the array.
  unfoldable pub call : ℕ → Evaluation V → PatchId → Memory → Option (Bool × V × Memory)
  call fuel evaluate id m = elim (rounds fuel evaluate id new_frame m) [
    | none ↦ none
    | some (f, m') ↦ some (
      f.output_panic,
      f.output_value,
      (if value_teq then assign m' f.output_index output_terminator else m'),
    )
  ]
