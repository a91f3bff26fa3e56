-- ===== src/Profiler/Order.antt =====
-- repair/Profiler.cpp: the order of the tests at a location, and which locations are left.
use f1x.Prelude.{
  ℕ, ◌≡◌, refl, List, [], ◌∷◌, ◌++◌, Bool, true, false, ◌==◌, if◌then◌else◌, arith, Bool-cases, inl,
  inr, All,
}
use f1x.Core.{Location, location_eq}
use f1x.Profiler.{
  Related, Profiler, has_index, covers, add_index, add_related, read_trace, at_locations, narrow,
  merge_trace,
}

-- What holds of both branches holds of a conditional.
if_then : (P : Profiler → Type 0) (b : Bool) (x y : Profiler) → P x → P y → P (if b then x else y)
if_then P true x y h k = h
if_then P false x y h k = k

module _ (passes : ℕ → Bool) where
  -- Behind a passing test come passing tests only, and no test comes twice.
  abbrev pub InOrder : List ℕ → Type 0
  InOrder [] = Unit
  InOrder (i ∷ js) =
      (passes i ≡ true → All (λ j. passes j ≡ true) js) × (has_index i js ≡ false) × InOrder js

  abbrev pub AllInOrder : Related → Type 0
  AllInOrder = All (λ entry. InOrder entry.1)

  snoc_passing :
      (i : ℕ) (js : List ℕ)
      → passes i ≡ true
      → All (λ j. passes j ≡ true) js
      → All (λ j. passes j ≡ true) (js ++ i ∷ [])
  snoc_passing i [] e h = (e, tt)
  snoc_passing i (j ∷ js) e h = (h.0, snoc_passing i js e h.1)

  has_index-snoc :
      (i j : ℕ) (js : List ℕ)
      → has_index j js ≡ false
      → (j == i) ≡ false
      → has_index j (js ++ i ∷ []) ≡ false
  has_index-snoc i j [] h d = ground (arith, h, d)
  has_index-snoc i j (k ∷ js) h d = ground (arith, has_index-snoc i j js, h, d)

  snoc-InOrder :
      (i : ℕ) (js : List ℕ)
      → passes i ≡ true
      → has_index i js ≡ false
      → InOrder js
      → InOrder (js ++ i ∷ [])
  snoc-InOrder i [] e new h = (λ p. tt, refl, tt)
  snoc-InOrder i (j ∷ js) e new h = (
    λ p. snoc_passing i js e (h.0 p),
    has_index-snoc i j js h.1 (ground (arith, new)),
    snoc-InOrder i js e (ground (arith, new)) h.2,
  )

  add_index-InOrder : (i : ℕ) (js : List ℕ) → InOrder js → InOrder (add_index i (passes i) js)
  unfolding add_index
  add_index-InOrder i js h = elim (Bool-cases (has_index i js)) [
    | inl old ↦ rw old h
    | inr new ↦ elim (Bool-cases (passes i)) [
      | inl e ↦ rw (new, e) (snoc-InOrder i js e new h)
      | inr e ↦ rw (new, e) (λ p. cc (p, e), new, h)
    ]
  ]

  add_related-InOrder :
      (i : ℕ) (loc : Location) (related : Related)
      → AllInOrder related
      → AllInOrder (add_related i (passes i) loc related)
  unfolding add_related
  add_related-InOrder i loc [] h = (add_index-InOrder i [] tt, tt)
  add_related-InOrder i loc ((l, js) ∷ rest) h = elim (Bool-cases (location_eq l loc)) [
    | inl e ↦ rw e (add_index-InOrder i js h.0, h.1)
    | inr e ↦ rw e (h.0, add_related-InOrder i loc rest h.1)
  ]

  read_trace-InOrder :
      (i : ℕ) (trace : List Location) (related : Related)
      → AllInOrder related
      → AllInOrder (read_trace i (passes i) trace related)
  unfolding read_trace
  read_trace-InOrder i [] related h = h
  read_trace-InOrder i (loc ∷ trace) related h =
      read_trace-InOrder i trace _ (add_related-InOrder i loc related h)

  at_locations-InOrder :
      (kept : List Location) (related : Related)
      → AllInOrder related
      → AllInOrder (at_locations kept related)
  unfolding at_locations
  at_locations-InOrder kept [] h = tt
  at_locations-InOrder kept ((l, js) ∷ rest) h = elim (Bool-cases (covers kept l)) [
    | inl e ↦ rw e (h.0, at_locations-InOrder kept rest h.1)
    | inr e ↦ rw e (at_locations-InOrder kept rest h.1)
  ]

  narrow-InOrder :
      (trace ls : List Location) (related : Related)
      → AllInOrder related
      → AllInOrder (narrow trace ls related).related_test_indexes
  unfolding narrow
  narrow-InOrder trace [] related h = h
  narrow-InOrder trace (l ∷ ls) related h = at_locations-InOrder trace related h

  -- A merged trace keeps the order of the tests at each location: failing tests come before passing ones,
  -- and no test comes twice.
  pub merge_trace-InOrder :
      (i : ℕ) (trace : List Location) (s : Profiler)
      → AllInOrder s.related_test_indexes
      → AllInOrder (merge_trace i (passes i) trace s).related_test_indexes
  unfolding merge_trace
  merge_trace-InOrder i trace s h =
      let read = read_trace-InOrder i trace s.related_test_indexes h in
      if_then (λ r. AllInOrder r.related_test_indexes) (passes i) _ _ read
        (narrow-InOrder trace s.interesting_locations _ read)
