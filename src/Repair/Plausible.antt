-- ===== src/Repair/Plausible.antt =====
-- repair/Repair.cpp, the loop of `repair`: which patches it collects.
use mathlib.Core.List.{append-nil}
use f1x.Prelude.{
  ℕ, zero, suc, ◌+◌, ◌-◌, ◌≤◌, ◌<◌, ◌≡◌, refl, sym, ap, ◌∙◌, List, [], ◌∷◌, ◌++◌, length, get_elem?,
  take, drop, All, Bool, true, false, ◌&&◌, ◌||◌, Option, none, some, String, leb, ◌==◌, arith, inl,
  inr,
}
use f1x.Core.{PatchId, Location, Patch}
use f1x.Core.Config.{Config}
use f1x.SearchEngine.{Engine, Outcome, member, is_pass, find_next, init}
use f1x.SearchEngine.PlainSearch.{first_plausible, pick}
use f1x.SearchEngine.Reference.{plausible, IsSound, find_next-first, init-IsSound}
use f1x.Repair.{Workshop, partitionable, take_one, patch_loop, validated, plausible_patches}
use f1x.Repair.Remaining.{
  plausible_of, limited, first_plausible-Next, room, room-nil, enough, room-enough, room-more,
  if_true, if_false, ||_right, ||_false, more_found,
}

abbrev pub collected : {W : Type 0} → Option (List Patch × Engine × W) → Option (List Patch)
collected none = none
collected (some r) = some r.0

-- The conditions are those of the search: a test gives the same verdict on a patch each time, and the ids
-- reported behind a run are those of patches of the same location with the same verdict.
module _ {W : Type 0} (shop : Workshop W) (cfg : Config) (test_names : List String)
    (tests : ℕ → String) (run : W → Patch → List PatchId → String → Outcome × W)
    (search_space : List Patch) (verdict : PatchId → String → Bool)
    (location_of : PatchId → Location) (related : Location → List ℕ)
    (run_verdict : (w : W) (p : Patch) (t : String)
      → is_pass (run w p (partitionable search_space p.app.id) t).0.status ≡ verdict p.id t)
    (run_partition : (w : W) (p : Patch) (t : String) (q : PatchId)
      → member q (run w p (partitionable search_space p.app.id) t).0.partition ≡ true
      → (location_of q ≡ location_of p.id) × (verdict q t ≡ verdict p.id t))
    (located : All (λ p. p.app.location ≡ location_of p.id) search_space) where
  abbrev ids : ℕ → List PatchId
  ids = partitionable search_space

  abbrev good : PatchId → Bool
  good = plausible tests verdict location_of related

  abbrev True : Engine → Type 0
  True = IsSound tests verdict location_of related

  abbrev loop : ℕ → ℕ → List Patch → Engine → W → Option (List Patch × Engine × W)
  loop = patch_loop shop cfg test_names tests run search_space

  patch_loop-all :
      (fuel last : ℕ) (found : List Patch) (s : Engine) (w : W)
      → cfg.generate_all ≡ true
      → True s
      → last ≤ length search_space
      → length search_space < fuel + last
      → collected (loop fuel last found s w)
        ≡ some (
            found
            ++ room cfg.output_top (length found) (plausible_of good (drop last search_space)))
  unfolding patch_loop
  patch_loop-all zero last found s w all h lo hi = ground (arith, lo, hi)
  patch_loop-all (suc fuel) last found s w all h lo hi =
      let spec =
        find_next-first cfg tests ids run verdict location_of related run_verdict run_partition last
          search_space s w h located in
      let next = find_next cfg tests ids run search_space last s w in
      let P = λ (o : Option (List Patch × Engine × W)).
        collected o
        ≡ some (
            found
            ++ room cfg.output_top (length found) (plausible_of good (drop last search_space))) in
      elim (first_plausible-Next good search_space last lo) [
        | inl (r, left) ↦
            let none_left : some found
                ≡ some (
                    found
                    ++ room cfg.output_top (length found)
                        (plausible_of good (drop last search_space))) =
              rw (left, room-nil cfg.output_top (length found), append-nil found) refl in
            let at_end : (next.0 == length search_space) ≡ true = ground (arith, spec.0 ∙ r) in
            pick (leb (length search_space) last)
              (next.0 == length search_space || enough cfg.output_top (length found)) P
              (λ e. none_left) (λ e e'. none_left) (λ e e'. cc)
        | inr (p, above, below, at, left) ↦
            let n : next.0 ≡ first_plausible good last (drop last search_space) = spec.0 in
            let found_at : get_elem? search_space next.0 ≡ some p =
              ap (get_elem? search_space) n ∙ at in
            let ih =
              patch_loop-all fuel (suc next.0) (found ++ p ∷ []) next.1 next.2 all spec.1
                (omega (arith, n, below)) (omega (arith, n, above, hi)) in
            let left' : plausible_of good (drop last search_space)
                ≡ p ∷ plausible_of good (drop (suc next.0) search_space) =
              left ∙ ap (λ k. p ∷ plausible_of good (drop (suc k) search_space)) (sym n) in
            let inside : (next.0 == length search_space) ≡ false = ground (arith, n, below) in
            let m = length found in
            pick (leb (length search_space) last)
              (next.0 == length search_space || enough cfg.output_top m) P
              (λ e. ground (arith, e, above, below))
              (λ e e'.
                let full : enough cfg.output_top m ≡ true = ||_right _ _ inside e' in
                rw (left', room-enough cfg.output_top m _ full, append-nil found) refl)
              (λ e e'.
                let open_room =
                  room-more cfg.output_top m p (plausible_of good (drop (suc next.0) search_space))
                    (||_false _ _ e').1 in
                rw found_at (
                  if_true cfg.generate_all _ P all (
                    ih
                    ∙ (ap some (more_found found p cfg.output_top _)
                        ∙ ap (λ qs. some (found ++ qs))
                            (sym (ap (room cfg.output_top m) left' ∙ open_room))))))
      ]

  patch_loop-one :
      (fuel : ℕ) (s : Engine) (w : W)
      → cfg.generate_all ≡ false
      → True s
      → collected (loop (suc fuel) 0 [] s w) ≡ some (take 1 (plausible_of good search_space))
  unfolding patch_loop take_one
  patch_loop-one fuel s w one h =
      let spec =
        find_next-first cfg tests ids run verdict location_of related run_verdict run_partition 0
          search_space s w h located in
      let next = find_next cfg tests ids run search_space 0 s w in
      let P = λ (o : Option (List Patch × Engine × W)).
        collected o ≡ some (take 1 (plausible_of good search_space)) in
      let no_bound : enough cfg.output_top 0 ≡ false = ground arith in
      elim (first_plausible-Next good search_space 0 (omega arith)) [
        | inl (r, left) ↦
            let none_left : some [] ≡ some (take 1 (plausible_of good search_space)) =
              rw left refl in
            let at_end : (next.0 == length search_space) ≡ true = ground (arith, spec.0 ∙ r) in
            pick (leb (length search_space) 0)
              (next.0 == length search_space || enough cfg.output_top 0) P (λ e. none_left)
              (λ e e'. none_left) (λ e e'. cc)
        | inr (p, above, below, at, left) ↦
            let n : next.0 ≡ first_plausible good 0 (drop 0 search_space) = spec.0 in
            let found_at : get_elem? search_space next.0 ≡ some p =
              ap (get_elem? search_space) n ∙ at in
            let inside : (next.0 == length search_space) ≡ false = ground (arith, n, below) in
            pick (leb (length search_space) 0)
              (next.0 == length search_space || enough cfg.output_top 0) P
              (λ e. ground (arith, e, below)) (λ e e'. cc (||_right _ _ inside e', no_bound))
              (λ e e'.
                rw found_at
                  (if_false cfg.generate_all _ P one (sym (ap (λ qs. some (take 1 qs)) left))))
      ]

  validated-collected :
      (o : Option (List Patch × Engine × W))
      → (cfg.validate_patches && cfg.generate_all) ≡ false
      → collected (validated shop cfg test_names tests run search_space o) ≡ collected o
  unfolding validated
  validated-collected none e = refl
  validated-collected (some (found, s, w)) e =
      if_false {A = Option (List Patch × Engine × W)} (cfg.validate_patches && cfg.generate_all) _
        (λ o. collected o ≡ some found) e refl

  room-zero : (top : ℕ) (ps : List Patch) → room top 0 ps ≡ limited top ps
  room-zero zero ps = refl
  room-zero (suc n) ps = ap (λ k. take k ps) same
    where
      same : suc n - 0 ≡ suc n
      same = omega arith

  True-record : True (init related)
  True-record = init-IsSound tests verdict location_of related

  -- Under the same conditions on tests and partitions, and with patches at the locations of their ids:
  -- where all patches are asked for and none is validated again, the loop ends, and has collected the
  -- plausible patches of the search space in their order, up to the bound on their number.
  pub plausible_patches-all :
      (w : W)
      → cfg.generate_all ≡ true
      → cfg.validate_patches ≡ false
      → collected (plausible_patches shop cfg test_names tests run search_space (init related) w)
        ≡ some (limited cfg.output_top (plausible_of good search_space))
  unfolding plausible_patches
  plausible_patches-all w all unchecked =
      validated-collected (loop (suc (length search_space)) 0 [] (init related) w)
        (ground (arith, all, unchecked))
      ∙ patch_loop-all (suc (length search_space)) 0 [] (init related) w all True-record
          (omega arith) (omega arith)
      ∙ ap some (room-zero cfg.output_top (plausible_of good search_space))

  -- Under the same conditions: where one patch is asked for, the loop ends with the first plausible patch
  -- of the search space, or with none if there is none, whatever the validation of that patch returns.
  pub plausible_patches-one :
      (w : W)
      → cfg.generate_all ≡ false
      → collected (plausible_patches shop cfg test_names tests run search_space (init related) w)
        ≡ some (take 1 (plausible_of good search_space))
  unfolding plausible_patches
  plausible_patches-one w one =
      validated-collected (loop (suc (length search_space)) 0 [] (init related) w)
        (ground (arith, one))
      ∙ patch_loop-one (length search_space) (init related) w one True-record
