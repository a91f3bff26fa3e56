-- ===== src/SearchEngine/Reference.antt =====
-- repair/SearchEngine.cpp: the exploration with test equivalence and reordered tests finds what a plain
-- search finds, one that runs every related test on every patch.
use f1x.Prelude.{
  ℕ, suc, ◌+◌, ◌≡◌, refl, sym, ap, ◌∙◌, List, [], ◌∷◌, length, drop, All, drop-All, Bool, true,
  false, ◌&&◌, String, arith, Bool-cases, inl, inr, &&_split,
}
use f1x.Core.{PatchId, patch_id_eq, Location, location_eq, Patch}
use f1x.Core.Config.{Config}
use f1x.SearchEngine.{
  Engine, Outcome, member, is_pass, is_max_failing, show_progress, record_run, reprioritize,
  test_loop, find_loop, find_next, init,
}
use f1x.SearchEngine.PlainSearch.{
  all_pass, first_plausible, pick, all_pass-true, all_pass-false, first_plausible-true,
  first_plausible-false, all_pass-prioritize, patch_id_eq_sound, record_run-related,
  record_run-failing, record_run-passing,
}

-- What a patch is measured by: `verdict` says whether it passes a test, `related` which tests a location
-- has.
module _ (tests : ℕ → String) (verdict : PatchId → String → Bool) (location_of : PatchId → Location)
    (related : Location → List ℕ) where
  abbrev pub passes : PatchId → ℕ → Bool
  passes id i = verdict id (tests i)

  -- A patch is plausible if it passes the tests related to its location.
  abbrev pub plausible : PatchId → Bool
  plausible id = all_pass (passes id) (related (location_of id))

  -- What the engine has on record is true.
  pub record IsSound (s : Engine) : Type 0 where
    pub refuted : (q : PatchId) → member q s.failing ≡ true → plausible q ≡ false
    pub confirmed : (q : PatchId) (t : String) → member q (s.passing t) ≡ true → verdict q t ≡ true
    pub reordered :
        (q : PatchId) (loc : Location)
        → all_pass (passes q) (s.related_test_indexes loc) ≡ all_pass (passes q) (related loc)

  pub init-IsSound : IsSound (init related)
  unfolding init
  init-IsSound = record {
    refuted = λ q h. cc h;
    confirmed = λ q t h. cc h;
    reordered = λ q loc. refl;
  }

  reprioritize-IsSound :
      (cfg : Config) (loc : Location) (k : ℕ) (s : Engine)
      → IsSound s
      → IsSound (reprioritize cfg loc k s)
  unfolding reprioritize
  reprioritize-IsSound cfg loc k s h = elim (Bool-cases (is_max_failing cfg.test_prioritization)) [
    | inl e ↦
        rw (e, reprioritize)
          (record {
            refuted = h.refuted;
            confirmed = h.confirmed;
            reordered = λ q l. elim (Bool-cases (location_eq loc l)) [
              | inl same ↦
                  rw same
                    (all_pass-prioritize (passes q) (s.related_test_indexes l) k ∙ h.reordered q l)
              | inr other ↦ rw other (h.reordered q l)
            ];
          })
    | inr e ↦ rw (e, reprioritize) h
  ]

  -- The counters and the progress are not part of the record.
  explore-IsSound :
      (index total : ℕ) (s : Engine)
      → IsSound s
      → IsSound (
          show_progress index total (record s {
            stat = record s.stat { exploration_counter = s.stat.exploration_counter + 1 };
          }))
  unfolding show_progress
  explore-IsSound index total s h = record {
    refuted = λ q. ground (arith, h.refuted q);
    confirmed = λ q t. ground (arith, h.confirmed q t);
    reordered = λ q loc. ground (arith, h.reordered q loc);
  }

-- What the search relies on: a test gives the same verdict on a patch each
-- time, and the ids that the runtime reports behind a run stand for patches of the same location that
-- the test gives the same verdict (value-based test equivalence).
module _ {W : Type 0} (cfg : Config) (tests : ℕ → String) (partitionable : ℕ → List PatchId)
    (run : W → Patch → List PatchId → String → Outcome × W) (verdict : PatchId → String → Bool)
    (location_of : PatchId → Location) (related : Location → List ℕ)
    (run_verdict : (w : W) (p : Patch) (t : String)
      → is_pass (run w p (partitionable p.app.id) t).0.status ≡ verdict p.id t)
    (run_partition : (w : W) (p : Patch) (t : String) (q : PatchId)
      → member q (run w p (partitionable p.app.id) t).0.partition ≡ true
      → (location_of q ≡ location_of p.id) × (verdict q t ≡ verdict p.id t)) where
  abbrev on_test : PatchId → ℕ → Bool
  on_test = passes tests verdict location_of related

  abbrev good : PatchId → Bool
  good = plausible tests verdict location_of related

  abbrev True : Engine → Type 0
  True = IsSound tests verdict location_of related

  module _ (w : W) (p : Patch) (t : String) where
    abbrev outcome : Outcome
    outcome = (run w p (partitionable p.app.id) t).0

    -- A patch that shares the run of `p` is of its location, and has its verdict.
    shares :
        (q : PatchId)
        → member q (p.id ∷ outcome.partition) ≡ true
        → (location_of q ≡ location_of p.id) × (verdict q t ≡ verdict p.id t)
    shares q h = elim (Bool-cases (patch_id_eq p.id q)) [
      | inl e ↦
          let same = patch_id_eq_sound p.id q e in
          (ap location_of (sym same), ap (λ id. verdict id t) (sym same))
      | inr e ↦ run_partition w p t q (ground (arith, h, e))
    ]

    -- A run keeps the record true, if a failure refutes what it stands for.
    record_run-IsSound :
        (s : Engine)
        → True s
        → ((q : PatchId)
            → is_pass outcome.status ≡ false
            → member q (p.id ∷ outcome.partition) ≡ true
            → good q ≡ false)
        → True (record_run cfg p.id t outcome s)
    record_run-IsSound s h refute = record {
      refuted = λ q e. elim (record_run-failing cfg p.id t outcome s q e) [
        | inl (f, m) ↦ refute q f m
        | inr old ↦ h.refuted q old
      ];
      confirmed = λ q t' e. elim (record_run-passing cfg p.id t outcome s q t' e) [
        | inl (f, same, m) ↦ rw same ((shares q m).1 ∙ (sym (run_verdict w p t) ∙ f))
        | inr old ↦ h.confirmed q t' old
      ];
      reordered = λ q loc.
          ap (all_pass (on_test q)) (record_run-related cfg p.id t outcome s loc)
          ∙ h.reordered q loc;
    }

  module _ (p : Patch) (located : p.app.location ≡ location_of p.id) where
    -- The rest of the order decides, for the patches of the location, what the tests before it left
    -- open.
    abbrev Decides : List ℕ → Type 0
    Decides order =
        (q : PatchId)
        → location_of q ≡ location_of p.id
        → all_pass (on_test q) order ≡ false
        → good q ≡ false

    Decides-tail : (i : ℕ) (order : List ℕ) → Decides (i ∷ order) → Decides order
    Decides-tail i order d q same e = d q same (ground (arith, e))

    -- A run keeps the record true.
    ran_IsSound :
        (i : ℕ) (order : List ℕ) (s : Engine) (w : W)
        → True s
        → Decides (i ∷ order)
        → let ran = run w p (partitionable p.app.id) (tests i) in
          True (record_run cfg p.id (tests i) ran.0 s)
    ran_IsSound i order s w h d =
        let t = tests i in
        record_run-IsSound w p t s h λ q f m.
          let shared = shares w p t q m in
          let fails : verdict q t ≡ false = shared.1 ∙ (sym (run_verdict w p t) ∙ f) in
          d q shared.0 (rw fails)

    -- The inner loop answers whether the patch on_test the rest of its tests.
    test_loop-lem :
        (k : ℕ) (order : List ℕ) (s : Engine) (w : W)
        → True s
        → Decides order
        → let r = test_loop cfg tests partitionable run p k order s w in
          (r.0 ≡ all_pass (on_test p.id) order) × True r.1
    unfolding test_loop
    test_loop-lem k [] s w h d = (refl, h)
    test_loop-lem k (i ∷ order) s w h d =
        let ids = partitionable p.app.id in
        let t = tests i in
        let ran = run w p ids t in
        let s' = record_run cfg p.id t ran.0 s in
        let d' = Decides-tail i order d in
        let sound : True s' = ran_IsSound i order s w h d in
        let ih_known = test_loop-lem (suc k) order s w h d' in
        let ih_passed = test_loop-lem (suc k) order s' ran.1 sound d' in
        pick {A = Bool × Engine × W} (cfg.value_teq && member p.id (s.passing t))
          (is_pass ran.0.status) (λ r. (r.0 ≡ all_pass (on_test p.id) (i ∷ order)) × True r.1)
          (λ known.
            let v = h.confirmed p.id t (&&_split _ _ known).1 in
            (ih_known.0 ∙ sym (all_pass-true (on_test p.id) i order v), ih_known.1))
          (λ unknown passed.
            let v = sym (run_verdict w p t) ∙ passed in
            (ih_passed.0 ∙ sym (all_pass-true (on_test p.id) i order v), ih_passed.1))
          (λ unknown failed.
            let v = sym (run_verdict w p t) ∙ failed in
            (
              sym (all_pass-false (on_test p.id) i order v),
              reprioritize-IsSound tests verdict location_of related cfg p.app.location k s' sound,
            ))

  abbrev pub Located : List Patch → Type 0
  Located = All (λ p. p.app.location ≡ location_of p.id)

  find_loop-lem :
      (total index : ℕ) (ps : List Patch) (s : Engine) (w : W)
      → True s
      → Located ps
      → let r = find_loop cfg tests partitionable run total index ps s w in
        (r.0 ≡ first_plausible good index ps) × True r.1
  unfolding find_loop first_plausible
  find_loop-lem total index [] s w h l = (refl, h)
  find_loop-lem total index (p ∷ ps) s w h l =
      let s₁ = show_progress index total (record s {
        stat = record s.stat { exploration_counter = s.stat.exploration_counter + 1 };
      }) in
      let order = s.related_test_indexes p.app.location in
      let tried = test_loop cfg tests partitionable run p 0 order s₁ w in
      let sound : True s₁ = explore-IsSound tests verdict location_of related index total s h in
      let same_order : all_pass (on_test p.id) order ≡ good p.id =
        h.reordered p.id p.app.location ∙ ap (λ loc. all_pass (on_test p.id) (related loc)) l.0 in
      let decides : Decides p l.0 order = λ q e f.
        sym (
          h.reordered q p.app.location
          ∙ ap (λ loc. all_pass (on_test q) (related loc)) (l.0 ∙ sym e))
        ∙ f in
      let answer = test_loop-lem p l.0 0 order s₁ w sound decides in
      let verdict_of : tried.0 ≡ good p.id = answer.0 ∙ same_order in
      let known = find_loop-lem total (suc index) ps s₁ w sound l.1 in
      let next = find_loop-lem total (suc index) ps tried.1 tried.2 answer.1 l.1 in
      pick {A = ℕ × Engine × W} (cfg.value_teq && member p.id s.failing) tried.0
        (λ r. (r.0 ≡ first_plausible good index (p ∷ ps)) × True r.1)
        (λ failing.
          let v = h.refuted p.id (&&_split _ _ failing).1 in
          (known.0 ∙ sym (first_plausible-false good index p ps v), known.1))
        (λ unknown passed.
          let v = sym verdict_of ∙ passed in
          (sym (first_plausible-true good index p ps v), answer.1))
        (λ unknown failed.
          let v = sym verdict_of ∙ failed in
          (next.0 ∙ sym (first_plausible-false good index p ps v), next.1))

  -- Where a test gives the same verdict on a patch each time, and the ids reported behind a run are those
  -- of patches of the same location with the same verdict: `findNext`, from a record that is true and on
  -- patches that stand at the location of their id, returns the index of the first plausible patch from
  -- the given index on, as a plain search does, and the record that it leaves is true.
  pub find_next-first :
      (from : ℕ) (ps : List Patch) (s : Engine) (w : W)
      → True s
      → Located ps
      → let r = find_next cfg tests partitionable run ps from s w in
        (r.0 ≡ first_plausible good from (drop from ps)) × True r.1
  unfolding find_next
  find_next-first from ps s w h l =
      find_loop-lem (length ps) from (drop from ps) s w h (drop-All _ from ps l)
