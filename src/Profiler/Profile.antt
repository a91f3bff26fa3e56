-- ===== src/Profiler/Profile.antt =====
-- repair/Profiler.cpp: the profile that `getProfile` writes after the trace of a failing test.
use f1x.Prelude.{
  ℕ, ◌≡◌, ap, refl, subst, List, [], ◌∷◌, true, false, arith, Bool-cases, ◌⊎◌, inl, inr, All,
  All-mono,
}
use f1x.Core.{Location, location_eq, location_eq_sound}
use f1x.Profiler.{Related, Profiler, has_index, covers, at_locations, merge_trace, get_profile}
use f1x.Profiler.Coverage.{
  tests_at, IsRelated, read_trace-keeps, at_locations-IsRelated, narrow-IsRelated,
  merge_trace-covers, merge_trace-related,
}

covers-All :
    (trace ls : List Location) (loc : Location)
    → All (λ l. covers trace l ≡ true) ls
    → covers ls loc ≡ true
    → covers trace loc ≡ true
covers-All trace [] loc h c = cc c
covers-All trace (l ∷ ls) loc h c = elim (Bool-cases (location_eq l loc)) [
  | inl e ↦ subst (λ k. covers trace k ≡ true) (location_eq_sound l loc e) h.0
  | inr e ↦ covers-All trace ls loc h.1 (rw e at c)
]

tests_at-dropped :
    (loc : Location) (kept : List Location) (related : Related)
    → covers kept loc ≡ false
    → tests_at loc (at_locations kept related) ≡ []
unfolding at_locations
tests_at-dropped loc kept [] c = refl
tests_at-dropped loc kept ((l, js) ∷ rest) c = elim (Bool-cases (covers kept l)) [
  | inl e ↦ elim (Bool-cases (location_eq l loc)) [
    | inl d ↦ cc (ap (covers kept) (location_eq_sound l loc d), e, c)
    | inr d ↦ rw (e, d) (tests_at-dropped loc kept rest c)
  ]
  | inr e ↦ rw e (tests_at-dropped loc kept rest c)
]

has_index-cons : (i j : ℕ) (js : List ℕ) → has_index i js ≡ true → has_index i (j ∷ js) ≡ true
has_index-cons i j js h = ground (arith, h)

has_index-All : (js : List ℕ) → All (λ j. has_index j js ≡ true) js
has_index-All [] = tt
has_index-All (j ∷ js) =
    (ground arith, All-mono _ _ (λ i h. has_index-cons i j js h) js (has_index-All js))

module _ (i : ℕ) (trace : List Location) (s : Profiler) where
  -- The test of the trace and the tests from before are related to the location.
  abbrev pub HasTests : Location → List ℕ → Type 0
  HasTests loc js =
      (has_index i js ≡ true)
      × All (λ j. has_index j js ≡ true) (tests_at loc s.related_test_indexes)

  kept_test :
      (j : ℕ) (loc : Location)
      → covers trace loc ≡ true
      → covers (merge_trace i false trace s).interesting_locations loc ≡ true
      → IsRelated j loc s.related_test_indexes
      → IsRelated j loc (get_profile (merge_trace i false trace s)).1.related_test_indexes
  unfolding get_profile merge_trace
  kept_test j loc covered interesting h = at_locations-IsRelated j loc _ _ interesting (
      narrow-IsRelated j loc trace s.interesting_locations _ covered
        (read_trace-keeps j i false loc trace s.related_test_indexes h))

  own_test :
      (loc : Location)
      → covers trace loc ≡ true
      → covers (merge_trace i false trace s).interesting_locations loc ≡ true
      → IsRelated i loc (get_profile (merge_trace i false trace s)).1.related_test_indexes
  unfolding get_profile
  own_test loc covered interesting =
      at_locations-IsRelated i loc _ _ interesting (merge_trace-related i false trace s loc covered)

  -- In the profile after the trace of a failing test, each location is either written, covered by the
  -- trace, and related to this test and to every test that it was related to before, or not written and
  -- without related tests.
  pub get_profile-merge_trace :
      (loc : Location)
      → ((covers (get_profile (merge_trace i false trace s)).0 loc ≡ true)
          × (covers trace loc ≡ true)
          × HasTests loc
              (tests_at loc (get_profile (merge_trace i false trace s)).1.related_test_indexes))
        ⊎ ((covers (get_profile (merge_trace i false trace s)).0 loc ≡ false)
            × (tests_at loc (get_profile (merge_trace i false trace s)).1.related_test_indexes
                ≡ []))
  unfolding get_profile
  get_profile-merge_trace loc =
      let merged = merge_trace i false trace s in
      elim (Bool-cases (covers merged.interesting_locations loc)) [
        | inl e ↦
            let covered =
              covers-All trace merged.interesting_locations loc (merge_trace-covers i trace s) e in
            inl (
              e,
              covered,
              (
                own_test loc covered e,
                All-mono _ _ (λ j h. kept_test j loc covered e h) _ (has_index-All _),
              ),
            )
        | inr e ↦
            inr (e, tests_at-dropped loc merged.interesting_locations merged.related_test_indexes e)
      ]
