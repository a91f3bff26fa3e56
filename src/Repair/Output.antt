-- ===== src/Repair/Output.antt =====
-- repair/Repair.cpp: the source diffs of the plausible patches.
use f1x.Prelude.{
  ℕ, suc, ◌≡◌, refl, ap, List, [], ◌∷◌, true, false, ◌&&◌, String, ◌<>◌, to_string, Result, ok,
  ◌>>=◌, if◌then◌else◌, Bool-cases, inl, inr, arith,
}
use f1x.Core.{Patch}
use f1x.Core.Config.{Config}
use f1x.Profiler.{has_index}
use f1x.Project.{Project, Machine, restore_original_files}
use f1x.Project.Patches.{file_at, apply_patch, compute_diff}

-- The patches, with their indices from one on, whose location is not among those before
abbrev pub first_ones : ℕ → List ℕ → List Patch → List (ℕ × Patch)
first_ones i locations [] = []
first_ones i locations (p ∷ ps) =
    let skipped = first_ones (suc i) locations ps in
    let more = first_ones (suc i) (p.app.id ∷ locations) ps in
    if has_index p.app.id locations then skipped else (i, p) ∷ more

module _ {W : Type 0} (machine : Machine W) (cfg : Config) (project : Project) where
  -- A patch is applied, compared with the original, and taken back.
  unfoldable pub output_diff : String → Patch → W → Result W
  output_diff patch_file p w = do
    applied ← apply_patch machine cfg project p w
    file ← file_at project p.app.location.file_id
    made ← compute_diff machine cfg project file patch_file applied.1
    restore_original_files machine cfg project.files made

  module _ (patch_output : String) where
    abbrev pub patch_file : ℕ → String
    patch_file i = machine.slash patch_output (to_string i <> ".patch")

    -- The loop over the plausible patches, from an index on, with `patchLocations`
    unfoldable pub output_all : ℕ → List ℕ → List Patch → W → Result W
    output_all i locations [] w = ok w
    output_all i locations (p ∷ ps) w =
        let skipped = output_all (suc i) locations ps w in
        let more = output_all (suc i) (p.app.id ∷ locations) ps in
        if cfg.output_one_per_location && has_index p.app.id locations
        then skipped
        else (output_diff (patch_file i) p w >>= more)

    -- The diffs of the plausible patches
    unfoldable pub output_patches : List Patch → W → Result W
    output_patches [] w = ok w
    output_patches (p ∷ ps) w =
        let made =
          if machine.exists w patch_output then w else machine.create_directory w patch_output in
        if cfg.generate_all then output_all 0 [] (p ∷ ps) made else output_diff patch_output p w

    -- Diffs of patches, by their indices, one after the other
    abbrev pub output_each : List (ℕ × Patch) → W → Result W
    output_each [] w = ok w
    output_each (o ∷ os) w = output_diff (patch_file o.0) o.1 w >>= output_each os

    pub output_all-first_ones :
        (i : ℕ) (locations : List ℕ) (ps : List Patch) (w : W)
        → cfg.output_one_per_location ≡ true
        → output_all i locations ps w ≡ output_each (first_ones i locations ps) w
    unfolding output_all
    output_all-first_ones i locations [] w one = refl
    output_all-first_ones i locations (p ∷ ps) w one =
        elim (Bool-cases (has_index p.app.id locations)) [
          | inl e ↦
              let both : (cfg.output_one_per_location && has_index p.app.id locations) ≡ true =
                ground (arith, one, e) in
              rw (both, e) (output_all-first_ones (suc i) locations ps w one)
          | inr e ↦
              let both : (cfg.output_one_per_location && has_index p.app.id locations) ≡ false =
                ground (arith, one, e) in
              rw (both, e)
                (ap (λ (rest : W → Result W). output_diff (patch_file i) p w >>= rest)
                  (λ k w'. output_all-first_ones (suc i) (p.app.id ∷ locations) ps w' one k))
        ]
