-- ===== src/Profiler/Coverage.antt =====
-- repair/Profiler.cpp: which locations are interesting, and which tests are related to them.
use f1x.Prelude.{
  ℕ, ◌≡◌, ap, ◌∙◌, List, [], ◌∷◌, ◌++◌, Bool, true, false, if◌then◌else◌, arith, Bool-cases, inl,
  inr, All, All-mono,
}
use f1x.Core.{Location, location_eq, location_eq_sound}
use f1x.Profiler.{
  Related, Profiler, has_index, covers, add_index, add_related, read_trace, at_locations,
  intersection, location_set, narrow, merge_trace,
}

intersection-covers :
    (ls covered : List Location) → All (λ l. covers covered l ≡ true) (intersection ls covered)
unfolding intersection
intersection-covers [] covered = tt
intersection-covers (l ∷ ls) covered = elim (Bool-cases (covers covered l)) [
  | inl e ↦ rw e (e, intersection-covers ls covered)
  | inr e ↦ rw e (intersection-covers ls covered)
]

location_eq_refl : (l : Location) → location_eq l l ≡ true
location_eq_refl l = ground arith

covers-cons :
    (l : Location) (trace ls : List Location)
    → All (λ k. covers trace k ≡ true) ls
    → All (λ k. covers (l ∷ trace) k ≡ true) ls
covers-cons l trace ls h = All-mono _ _ (λ k e. ground (arith, e)) ls h

location_set-covers :
    (trace : List Location) → All (λ l. covers trace l ≡ true) (location_set trace)
unfolding location_set
location_set-covers [] = tt
location_set-covers (l ∷ ls) =
    let rest = covers-cons l ls (location_set ls) (location_set-covers ls) in
    elim (Bool-cases (covers ls l)) [
      | inl e ↦ rw e rest
      | inr e ↦ rw e (ground (arith, location_eq_refl l), rest)
    ]

narrow-covers :
    (trace ls : List Location) (related : Related)
    → All (λ l. covers trace l ≡ true) (narrow trace ls related).interesting_locations
unfolding narrow
narrow-covers trace [] related = location_set-covers trace
narrow-covers trace (l ∷ ls) related = intersection-covers (l ∷ ls) trace

pub merge_trace-covers :
    (i : ℕ) (trace : List Location) (s : Profiler)
    → All (λ l. covers trace l ≡ true) (merge_trace i false trace s).interesting_locations
unfolding merge_trace
merge_trace-covers i trace s =
    narrow-covers trace s.interesting_locations (read_trace i false trace s.related_test_indexes)

-- The tests of a location
abbrev pub tests_at : Location → Related → List ℕ
tests_at loc [] = []
tests_at loc ((l, js) ∷ rest) = if location_eq l loc then js else tests_at loc rest

has_index-snoc_self : (i : ℕ) (js : List ℕ) → has_index i (js ++ i ∷ []) ≡ true
has_index-snoc_self i [] = ground arith
has_index-snoc_self i (j ∷ js) = ground (arith, has_index-snoc_self i js)

has_index-add_index : (i : ℕ) (p : Bool) (js : List ℕ) → has_index i (add_index i p js) ≡ true
unfolding add_index
has_index-add_index i p js = elim (Bool-cases (has_index i js)) [
  | inl old ↦ rw old old
  | inr new ↦ elim (Bool-cases p) [
    | inl e ↦ rw (new, e) (has_index-snoc_self i js)
    | inr e ↦ rw (new, e) (ground arith)
  ]
]

-- The test is related to the location.
abbrev pub IsRelated : ℕ → Location → Related → Type 0
IsRelated i loc related = has_index i (tests_at loc related) ≡ true

add_related-IsRelated :
    (i : ℕ) (p : Bool) (loc : Location) (related : Related)
    → IsRelated i loc (add_related i p loc related)
unfolding add_related
add_related-IsRelated i p loc [] = rw (location_eq_refl loc) (has_index-add_index i p [])
add_related-IsRelated i p loc ((l, js) ∷ rest) = elim (Bool-cases (location_eq l loc)) [
  | inl e ↦ rw (e, e) (has_index-add_index i p js)
  | inr e ↦ rw (e, e) (add_related-IsRelated i p loc rest)
]

has_index-snoc_other :
    (i j : ℕ) (js : List ℕ) → has_index i js ≡ true → has_index i (js ++ j ∷ []) ≡ true
has_index-snoc_other i j [] h = cc
has_index-snoc_other i j (k ∷ js) h = ground (arith, h, has_index-snoc_other i j js)

has_index-add_index_other :
    (i j : ℕ) (p : Bool) (js : List ℕ)
    → has_index i js ≡ true
    → has_index i (add_index j p js) ≡ true
unfolding add_index
has_index-add_index_other i j p js h = elim (Bool-cases (has_index j js)) [
  | inl old ↦ rw old h
  | inr new ↦ elim (Bool-cases p) [
    | inl e ↦ rw (new, e) (has_index-snoc_other i j js h)
    | inr e ↦ rw (new, e) (ground (arith, h))
  ]
]

add_related-keeps :
    (i j : ℕ) (p : Bool) (loc other : Location) (related : Related)
    → IsRelated i loc related
    → IsRelated i loc (add_related j p other related)
unfolding add_related
add_related-keeps i j p loc other [] h = cc
add_related-keeps i j p loc other ((l, js) ∷ rest) h = elim (Bool-cases (location_eq l other)) [
  | inl e ↦ elim (Bool-cases (location_eq l loc)) [
    | inl d ↦ rw (e, d) (has_index-add_index_other i j p js (rw d at h))
    | inr d ↦ rw (e, d) (rw d at h)
  ]
  | inr e ↦ elim (Bool-cases (location_eq l loc)) [
    | inl d ↦ rw (e, d) (rw d at h)
    | inr d ↦ rw (e, d) (add_related-keeps i j p loc other rest (rw d at h))
  ]
]

pub read_trace-keeps :
    (i j : ℕ) (p : Bool) (loc : Location) (trace : List Location) (related : Related)
    → IsRelated i loc related
    → IsRelated i loc (read_trace j p trace related)
unfolding read_trace
read_trace-keeps i j p loc [] related h = h
read_trace-keeps i j p loc (l ∷ trace) related h =
    read_trace-keeps i j p loc trace _ (add_related-keeps i j p loc l related h)

read_trace-IsRelated :
    (i : ℕ) (p : Bool) (loc : Location) (trace : List Location) (related : Related)
    → covers trace loc ≡ true
    → IsRelated i loc (read_trace i p trace related)
unfolding read_trace
read_trace-IsRelated i p loc [] related h = cc
read_trace-IsRelated i p loc (l ∷ trace) related h = elim (Bool-cases (location_eq l loc)) [
  | inl e ↦
      let same = location_eq_sound l loc e in
      rw same (
        read_trace-keeps i i p loc trace (add_related i p loc related)
          (add_related-IsRelated i p loc related))
  | inr e ↦ read_trace-IsRelated i p loc trace (add_related i p l related) (ground (arith, h, e))
]

pub at_locations-IsRelated :
    (i : ℕ) (loc : Location) (kept : List Location) (related : Related)
    → covers kept loc ≡ true
    → IsRelated i loc related
    → IsRelated i loc (at_locations kept related)
unfolding at_locations
at_locations-IsRelated i loc kept [] c h = h
at_locations-IsRelated i loc kept ((l, js) ∷ rest) c h = elim (Bool-cases (location_eq l loc)) [
  | inl d ↦
      let stays : covers kept l ≡ true = ap (covers kept) (location_eq_sound l loc d) ∙ c in
      rw (stays, d) (rw d at h)
  | inr d ↦ elim (Bool-cases (covers kept l)) [
    | inl e ↦ rw (e, d) (at_locations-IsRelated i loc kept rest c (rw d at h))
    | inr e ↦ rw e (at_locations-IsRelated i loc kept rest c (rw d at h))
  ]
]

pub narrow-IsRelated :
    (i : ℕ) (loc : Location) (trace ls : List Location) (related : Related)
    → covers trace loc ≡ true
    → IsRelated i loc related
    → IsRelated i loc (narrow trace ls related).related_test_indexes
unfolding narrow
narrow-IsRelated i loc trace [] related c h = h
narrow-IsRelated i loc trace (l ∷ ls) related c h = at_locations-IsRelated i loc trace related c h

-- After a trace is merged, the test is related to each location of the trace.
pub merge_trace-related :
    (i : ℕ) (is_passing : Bool) (trace : List Location) (s : Profiler) (loc : Location)
    → covers trace loc ≡ true
    → has_index i (tests_at loc (merge_trace i is_passing trace s).related_test_indexes) ≡ true
unfolding merge_trace
merge_trace-related i true trace s loc c =
    read_trace-IsRelated i true loc trace s.related_test_indexes c
merge_trace-related i false trace s loc c =
    narrow-IsRelated i loc trace s.interesting_locations _ c
      (read_trace-IsRelated i false loc trace s.related_test_indexes c)
