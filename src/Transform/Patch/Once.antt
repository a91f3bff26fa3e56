-- ===== src/Transform/Patch/Once.antt =====
-- transform/PatchApplication.cpp: one match is patched.
use mathlib.Core.List.{append-nil}
use f1x.Prelude.{
  ◌≡◌, refl, List, [], ◌∷◌, ◌++◌, Bool, true, false, if◌then◌else◌, arith, inl, inr, Bool-cases, ap,
  sym, ◌∙◌,
}
use f1x.Core.{Location, location_eq, location_eq_sound}
use f1x.Profiler.{covers}
use f1x.Transform.Clang.{SourceManager, Parents, info}
use f1x.Transform.Places.{get_expanded_loc, current_location}
use f1x.Transform.Locations.{location_eq_comm, covers-cons, covers-first, covers-rest, covers-other}
use f1x.Transform.Settings.{TransformConfig}
use f1x.Transform.Schema.{Edit, Match, expression_match, guard_match, matched}
use f1x.Transform.Profile.{Traced}
use f1x.Transform.Patch.{is_patched, patch_edits, patch_match, apply_at_match, apply_all}

module _ (cfg : TransformConfig) (sm : SourceManager) (parents : Parents) where
  abbrev at : Match → Location
  at m = current_location sm cfg.file_id (matched m)

  abbrev is_main : Match → Bool
  is_main m = sm.in_main_file (get_expanded_loc sm (info (matched m)).range).first

  -- The location of the patch
  abbrev target : Location
  target = record {
    file_id = cfg.file_id;
    begin_line = cfg.begin_line;
    begin_column = cfg.begin_column;
    end_line = cfg.end_line;
    end_column = cfg.end_column;
  }

  -- The edits for the first match at the location of the patch, if it stands in the main file
  abbrev pub first_patch_edits : List Match → List Edit
  first_patch_edits [] = []
  first_patch_edits (m ∷ ms) =
      let rest = first_patch_edits ms in
      if is_patched cfg sm parents (at m)
      then (if is_main m then patch_edits cfg sm parents m else [])
      else rest

  is_patched-target : (m : Match) → is_patched cfg sm parents (at m) ≡ location_eq (at m) target
  unfolding is_patched current_location
  is_patched-target m = ground arith

  apply_at_match-patch_at :
      (m : Match) (st : Traced)
      → apply_at_match cfg sm parents m st
        ≡ patch_match cfg sm parents (matched m) (patch_edits cfg sm parents m) st
  unfolding apply_at_match
  apply_at_match-patch_at (expression_match s) st = refl
  apply_at_match-patch_at (guard_match s) st = refl

  -- After the location of the patch, no match is edited.
  step-done :
      (m : Match) (st : Traced)
      → covers st.already_matched target ≡ true
      → let st' = apply_at_match cfg sm parents m st in
        (covers st'.already_matched target ≡ true) × (st'.edits ≡ st.edits)
  unfolding patch_match
  step-done m st h = elim (Bool-cases (covers st.already_matched (at m))) [
    | inl c ↦ rw (apply_at_match-patch_at m st, c) (h, refl)
    | inr c ↦
        let apart = covers-other st.already_matched target (at m) h c in
        let other : is_patched cfg sm parents (at m) ≡ false =
          is_patched-target m ∙ location_eq_comm (at m) target ∙ apart in
        let still = covers-cons (at m) target st.already_matched h in
        elim (Bool-cases (is_main m)) [
          | inl e ↦ rw (apply_at_match-patch_at m st, c, e, other) (still, refl)
          | inr e ↦ rw (apply_at_match-patch_at m st, c, e) (still, refl)
        ]
  ]

  all-done :
      (ms : List Match) (st : Traced)
      → covers st.already_matched target ≡ true
      → (apply_all cfg sm parents ms st).edits ≡ st.edits
  unfolding apply_all
  all-done [] st h = refl
  all-done (m ∷ ms) st h =
      let (here, same) = step-done m st h in
      all-done ms (apply_at_match cfg sm parents m st) here ∙ same

  -- A match elsewhere adds no edit.
  step-elsewhere :
      (m : Match) (st : Traced)
      → is_patched cfg sm parents (at m) ≡ false
      → covers st.already_matched target ≡ false
      → let st' = apply_at_match cfg sm parents m st in
        (covers st'.already_matched target ≡ false) × (st'.edits ≡ st.edits)
  unfolding patch_match
  step-elsewhere m st p h = elim (Bool-cases (covers st.already_matched (at m))) [
    | inl c ↦ rw (apply_at_match-patch_at m st, c) (h, refl)
    | inr c ↦
        let apart : location_eq (at m) target ≡ false = sym (is_patched-target m) ∙ p in
        let still : covers (at m ∷ st.already_matched) target ≡ false =
          rw (covers-rest (at m) target st.already_matched apart) h in
        elim (Bool-cases (is_main m)) [
          | inl e ↦ rw (apply_at_match-patch_at m st, c, e, p) (still, refl)
          | inr e ↦ rw (apply_at_match-patch_at m st, c, e) (still, refl)
        ]
  ]

  -- A match at the location of the patch gets its edits, in the main file.
  step-patched :
      (m : Match) (st : Traced)
      → is_patched cfg sm parents (at m) ≡ true
      → covers st.already_matched target ≡ false
      → let st' = apply_at_match cfg sm parents m st in
        (covers st'.already_matched target ≡ true)
        × (st'.edits ≡ st.edits ++ (if is_main m then patch_edits cfg sm parents m else []))
  unfolding patch_match
  step-patched m st p h =
      let same = location_eq_sound (at m) target (sym (is_patched-target m) ∙ p) in
      let fresh : covers st.already_matched (at m) ≡ false =
        ap (covers st.already_matched) same ∙ h in
      let found : covers (at m ∷ st.already_matched) target ≡ true =
        covers-first (at m) target st.already_matched (sym (is_patched-target m) ∙ p) in
      elim (Bool-cases (is_main m)) [
        | inl e ↦ rw (apply_at_match-patch_at m st, fresh, e, p) (found, refl)
        | inr e ↦ rw (apply_at_match-patch_at m st, fresh, e) (found, sym (append-nil st.edits))
      ]

  -- If the location of the patch was not matched before, a run over the matches of a file adds
  -- the edits of the first match at that location, or none if there is no such match, or if it
  -- does not stand in the main file.
  pub apply_all-first :
      (ms : List Match) (st : Traced)
      → covers st.already_matched target ≡ false
      → (apply_all cfg sm parents ms st).edits ≡ st.edits ++ first_patch_edits ms
  unfolding apply_all
  apply_all-first [] st h = sym (append-nil st.edits)
  apply_all-first (m ∷ ms) st h = elim (Bool-cases (is_patched cfg sm parents (at m))) [
    | inl p ↦
        let (found, edits) = step-patched m st p h in
        rw p (all-done ms (apply_at_match cfg sm parents m st) found ∙ edits)
    | inr p ↦
        let (fresh, same) = step-elsewhere m st p h in
        rw p (
          apply_all-first ms (apply_at_match cfg sm parents m st) fresh
          ∙ ap (λ es. es ++ first_patch_edits ms) same)
  ]
