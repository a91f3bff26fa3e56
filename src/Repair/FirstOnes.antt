-- ===== src/Repair/FirstOnes.antt =====
-- repair/Repair.cpp: which plausible patches are written out where there is one for each location.
use f1x.Prelude.{
  ℕ, suc, ◌+◌, ◌≡◌, refl, sym, ◌∙◌, ap, subst, List, [], ◌∷◌, All, All-mono, get_elem?, Bool, true,
  false, ◌||◌, some, String, if◌then◌else◌, ◌==◌, Bool-cases, inl, inr, ◌⊎◌, arith,
}
use f1x.Core.{Patch}
use f1x.Core.Config.{Config}
use f1x.Profiler.{has_index}
use f1x.Project.{Project, Machine}
use f1x.Repair.Output.{output_all, output_each, first_ones, output_all-first_ones}

-- No two of the patches have one location.
abbrev pub HaveDistinctLocations : List (ℕ × Patch) → Type 0
HaveDistinctLocations [] = Unit
HaveDistinctLocations (o ∷ os) =
    All (λ q. (q.1.app.id == o.1.app.id) ≡ false) os × HaveDistinctLocations os

-- The location is that of one of the patches.
abbrev pub has_location : ℕ → List (ℕ × Patch) → Bool
has_location l [] = false
has_location l (o ∷ os) = let rest = has_location l os in if l == o.1.app.id then true else rest

has_index-later :
    (l k : ℕ) (ls : List ℕ)
    → has_index l (k ∷ ls) ≡ false
    → ((l == k) ≡ false) × (has_index l ls ≡ false)
has_index-later l k ls h = ground (arith, h)

first_ones-new :
    (i : ℕ) (locations : List ℕ) (ps : List Patch)
    → All (λ o. has_index o.1.app.id locations ≡ false) (first_ones i locations ps)
first_ones-new i locations [] = tt
first_ones-new i locations (p ∷ ps) = elim (Bool-cases (has_index p.app.id locations)) [
  | inl e ↦ rw e (first_ones-new (suc i) locations ps)
  | inr e ↦ rw e (
    e,
    All-mono _ _ (λ o h. (has_index-later o.1.app.id p.app.id locations h).1)
        (first_ones (suc i) (p.app.id ∷ locations) ps)
        (first_ones-new (suc i) (p.app.id ∷ locations) ps),
  )
]

first_ones-HaveDistinctLocations :
    (i : ℕ) (locations : List ℕ) (ps : List Patch)
    → HaveDistinctLocations (first_ones i locations ps)
first_ones-HaveDistinctLocations i locations [] = tt
first_ones-HaveDistinctLocations i locations (p ∷ ps) =
    elim (Bool-cases (has_index p.app.id locations)) [
      | inl e ↦ rw e (first_ones-HaveDistinctLocations (suc i) locations ps)
      | inr e ↦ rw e (
        All-mono _ _ (λ o h. (has_index-later o.1.app.id p.app.id locations h).0)
            (first_ones (suc i) (p.app.id ∷ locations) ps)
            (first_ones-new (suc i) (p.app.id ∷ locations) ps),
        first_ones-HaveDistinctLocations (suc i) (p.app.id ∷ locations) ps,
      )
    ]

first_ones-cases :
    (i : ℕ) (locations : List ℕ) (p : Patch) (ps : List Patch)
    → ((has_index p.app.id locations ≡ true)
        × (first_ones i locations (p ∷ ps) ≡ first_ones (suc i) locations ps))
      ⊎ (first_ones i locations (p ∷ ps) ≡ (i, p) ∷ first_ones (suc i) (p.app.id ∷ locations) ps)
first_ones-cases i locations p ps = elim (Bool-cases (has_index p.app.id locations)) [
  | inl e ↦ inl (e, rw e refl)
  | inr e ↦ inr (rw e refl)
]

-- Each location is that of an earlier patch, or of one that is written out.
abbrev IsSeen : List ℕ → List (ℕ × Patch) → Patch → Type 0
IsSeen locations os q = (has_index q.app.id locations || has_location q.app.id os) ≡ true

first_ones-IsSeen :
    (i : ℕ) (locations : List ℕ) (ps : List Patch)
    → All (IsSeen locations (first_ones i locations ps)) ps
first_ones-IsSeen i locations [] = tt
first_ones-IsSeen i locations (p ∷ ps) = elim (first_ones-cases i locations p ps) [
  | inl (e, same) ↦
      subst (λ os. All (IsSeen locations os) (p ∷ ps)) (sym same)
        (rw e refl, first_ones-IsSeen (suc i) locations ps)
  | inr same ↦
      subst (λ os. All (IsSeen locations os) (p ∷ ps)) (sym same)
        (
          ground arith,
          All-mono _ _ (λ q h. ground (arith, h)) ps
              (first_ones-IsSeen (suc i) (p.app.id ∷ locations) ps),
        )
]

first_ones-index :
    (i : ℕ) (locations : List ℕ) (ps : List Patch)
    → All (λ o. (k : ℕ) × (o.0 ≡ i + k) × (get_elem? ps k ≡ some o.1)) (first_ones i locations ps)
first_ones-index i locations [] = tt
first_ones-index i locations (p ∷ ps) = elim (Bool-cases (has_index p.app.id locations)) [
  | inl e ↦ rw e (
      All-mono _ _ (λ o x. (suc x.0, omega (arith, x.1), x.2)) (first_ones (suc i) locations ps)
        (first_ones-index (suc i) locations ps))
  | inr e ↦ rw e (
    (0, omega arith, refl),
    All-mono _ _ (λ o x. (suc x.0, omega (arith, x.1), x.2))
        (first_ones (suc i) (p.app.id ∷ locations) ps)
        (first_ones-index (suc i) (p.app.id ∷ locations) ps),
  )
]

module _ {W : Type 0} (machine : Machine W) (cfg : Config) (project : Project)
    (patch_output : String) where
  -- Where one patch is to be written out for each location: the loop writes diffs of patches one after
  -- the other, each to the file of its index among the plausible patches, no two of them at one location,
  -- and one for the location of each plausible patch.
  pub output_all-one_per_location :
      (ps : List Patch) (w : W)
      → cfg.output_one_per_location ≡ true
      → (os : List (ℕ × Patch)) × (output_all machine cfg project patch_output 0 [] ps w
          ≡ output_each machine cfg project patch_output os w)
        × All (λ o. get_elem? ps o.0 ≡ some o.1) os
        × HaveDistinctLocations os
        × All (λ p. has_location p.app.id os ≡ true) ps
  output_all-one_per_location ps w one = (
    first_ones 0 [] ps,
    output_all-first_ones machine cfg project patch_output 0 [] ps w one,
    All-mono _ _ (λ o x. let same : o.0 ≡ x.0 = omega (arith, x.1) in ap (get_elem? ps) same ∙ x.2)
        (first_ones 0 [] ps) (first_ones-index 0 [] ps),
    first_ones-HaveDistinctLocations 0 [] ps,
    first_ones-IsSeen 0 [] ps,
  )
