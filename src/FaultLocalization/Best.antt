-- ===== src/FaultLocalization/Best.antt =====
-- repair/FaultLocalization.cpp: the files that are localized are the best ones.
use mathlib.Core.List.{Perm}
use f1x.Prelude.{
  ℕ, zero, suc, ◌+◌, ◌≤◌, ◌<◌, ◌≡◌, ◌⊎◌, inl, inr, refl, ap, sym, subst, List, [], ◌∷◌, ◌++◌,
  length, All, All-right, All-total, All-both, All-mono, Bool, true, false, String, if◌then◌else◌,
  ◌==◌, Bool-cases, arith, stable_sort, stable_sort-perm, IsOrderedBy, stable_sort-IsOrderedBy,
  has_text,
}
use f1x.FaultLocalization.{
  CoverageTool, Traces, Tally, one_more, count_lines, count_tests, tally, no_traces, no_lines,
  lines_of, total_passed, total_failed, trace_tests, tarantula_custom, line_score, sum_scores,
  file_score, select, localize,
}
use f1x.FaultLocalization.Arithmetic.{unsigned-lt, Double, Rules}

-- The numbers of the tally are of the type `unsigned`.
abbrev IsBounded : Tally → Type 0
IsBounded s = (line : ℕ) → (s.num_passed line < 4294967296) × (s.num_failed line < 4294967296)

one_more-lt :
    (line : ℕ) (num : ℕ → ℕ) (k : ℕ) → num k < 4294967296 → one_more line num k < 4294967296
one_more-lt line num k h = elim (Bool-cases (k == line)) [
  | inl e ↦ rw e (unsigned-lt (num k + 1))
  | inr e ↦ rw e h
]

count_lines-IsBounded :
    (has_passed : Bool) (lines : List ℕ) (s : Tally)
    → IsBounded s
    → IsBounded (count_lines has_passed lines s)
unfolding count_lines
count_lines-IsBounded has_passed [] s h = h
count_lines-IsBounded true (line ∷ lines) s h =
    count_lines-IsBounded true lines _ λ k. (one_more-lt line s.num_passed k (h k).0, (h k).1)
count_lines-IsBounded false (line ∷ lines) s h =
    count_lines-IsBounded false lines _ λ k. ((h k).0, one_more-lt line s.num_failed k (h k).1)

count_tests-IsBounded :
    (traces : Traces) (filename : String) (tests : List String) (s : Tally)
    → IsBounded s
    → IsBounded (count_tests traces filename tests s)
unfolding count_tests
count_tests-IsBounded traces filename [] s h = h
count_tests-IsBounded traces filename (test ∷ tests) s h =
    count_tests-IsBounded traces filename tests _ (
      count_lines-IsBounded (has_text test traces.passed_tests) (lines_of traces test filename) s h)

-- What `chosen` files are to be, given the scores.
module _ {D : Type 0} (d : Double D) where
  abbrev pub IsBest : (String → D) → ℕ → List String → List String → Type 0
  IsBest score limit files chosen =
      (rest : List String) × Perm (chosen ++ rest) files
      × (length chosen ≤ limit)
      × All (λ f. d.gt (score f) (d.of_nat 0) ≡ true) chosen
      × All (λ g. All (λ f. d.gt (score g) (score f) ≡ false) chosen) rest
      × ((length chosen ≡ limit) ⊎ All (λ g. d.gt (score g) (d.of_nat 0) ≡ false) rest)

module _ {D : Type 0} (d : Double D) (rules : Rules d) where
  choice_fraction : (b : Bool) → rules.IsFraction (if b then d.of_nat 1 else d.of_nat 0)
  choice_fraction true = rules.of_nat-IsFraction 1 (omega arith)
  choice_fraction false = rules.of_nat-IsFraction 0 (omega arith)

  ratio_fraction :
      (m p : ℕ)
      → m < 4294967296
      → p < 4294967296
      → rules.IsFraction (if p == 0 then d.of_nat 0 else d.div (d.of_nat m) (d.of_nat p))
  ratio_fraction m p h k = elim (Bool-cases (p == 0)) [
    | inl e ↦ rw e (rules.of_nat-IsFraction 0 (omega arith))
    | inr e ↦ rw e (rules.div-IsFraction m p h k (ground (arith, e)))
  ]

  share_fraction :
      (x y : D)
      → rules.IsFraction x
      → rules.IsFraction y
      → rules.IsFraction (if d.is_zero (d.add x y) then d.of_nat 0 else d.div x (d.add x y))
  share_fraction x y h k = elim (Bool-cases (d.is_zero (d.add x y))) [
    | inl e ↦ rw e (rules.of_nat-IsFraction 0 (omega arith))
    | inr e ↦ rw e (rules.share-IsFraction x y h k e)
  ]

  tarantula_custom-IsFraction :
      (m n p q : ℕ)
      → m < 4294967296
      → p < 4294967296
      → rules.IsFraction (tarantula_custom d m n p q)
  unfolding tarantula_custom
  tarantula_custom-IsFraction m n p q h k =
      share_fraction _ _ (choice_fraction (q == n)) (ratio_fraction m p h k)

  line_score-IsFraction :
      (traces : Traces) (tests : List String) (s : Tally) (line : ℕ)
      → IsBounded s
      → rules.IsFraction (line_score d traces tests s line)
  unfolding line_score
  line_score-IsFraction traces tests s line h =
      tarantula_custom-IsFraction (s.num_passed line) (s.num_failed line) (total_passed traces)
        (total_failed traces tests) (h line).0 (unsigned-lt (length traces.passed_tests))

  sum_scores-IsSum :
      (score : ℕ → D) (sum : D) (lines : List ℕ)
      → ((line : ℕ) → rules.IsFraction (score line))
      → rules.IsSum sum
      → rules.IsSum (sum_scores d score sum lines)
  unfolding sum_scores
  sum_scores-IsSum score sum [] h k = k
  sum_scores-IsSum score sum (line ∷ lines) h k =
      sum_scores-IsSum score (d.add sum (score line)) lines h
        (rules.add-IsSum sum (score line) k (h line))

  file_score-IsSum :
      (in_order : List ℕ → List ℕ) (traces : Traces) (tests : List String) (filename : String)
      → rules.IsSum (file_score d in_order traces tests filename)
  unfolding file_score
  file_score-IsSum in_order traces tests filename =
      let s = tally traces tests filename in
      sum_scores-IsSum (line_score d traces tests s) (d.of_nat 0) (in_order s.all_lines)
        (λ line.
          line_score-IsFraction traces tests s line
            (count_tests-IsBounded traces filename tests no_lines λ k. (omega arith, omega arith)))
        rules.zero-IsSum

  module _ (score : String → D) (h : (f : String) → rules.IsSum (score f)) where
    abbrev better : String → String → Bool
    better f g = d.gt (score f) (score g)

    abbrev never_before : (f g : String) → better f g ≡ true → better g f ≡ false
    never_before f g e = rules.gt_asymmetric (score f) (score g) (h f) (h g) e

    abbrev never_between :
        (f g k : String) → better f g ≡ false → better g k ≡ false → better f k ≡ false
    never_between f g k e e' =
        rules.not_gt_transitive (score f) (score g) (score k) (h f) (h g) (h k) e e'

    select-IsBest :
        (limit : ℕ) (files : List String)
        → IsOrderedBy better never_before never_between files
        → (rest : List String) × (select d score limit files ++ rest ≡ files)
          × (length (select d score limit files) ≤ limit)
          × All (λ f. d.gt (score f) (d.of_nat 0) ≡ true) (select d score limit files)
          × All (λ g. All (λ f. d.gt (score g) (score f) ≡ false) (select d score limit files)) rest
          × ((length (select d score limit files) ≡ limit)
              ⊎ All (λ g. d.gt (score g) (d.of_nat 0) ≡ false) rest)
    unfolding select
    select-IsBest zero files s =
        (files, refl, omega arith, tt, All-total _ (λ g. tt) files, inl refl)
    select-IsBest (suc limit) [] s = ([], refl, omega arith, tt, tt, inr tt)
    select-IsBest (suc limit) (f ∷ files) s = elim (Bool-cases (d.gt (score f) (d.of_nat 0))) [
      | inl e ↦
          let (rest, split, few, positive, worse, enough) = select-IsBest limit files s.1 in
          let front =
            All-right (λ g. better g f ≡ false) _ rest
              (subst (All (λ g. better g f ≡ false)) (sym split) s.0) in
          rw e (
            rest,
            ap (λ fs. f ∷ fs) split,
            omega (arith, few),
            (e, positive),
            All-both _ _ rest front worse,
            elim enough [ inl n ↦ inl (ap suc n) | inr n ↦ inr n ],
          )
      | inr e ↦ rw e (
        f ∷ files,
        refl,
        omega arith,
        tt,
        All-total _ (λ g. tt) (f ∷ files),
        inr (
          e,
          All-mono _ _
              (λ g later.
                rules.not_gt_transitive (score g) (score f) (d.of_nat 0) (h g) (h f)
                  rules.zero-IsSum later e)
              files s.0,
        ),
      )
    ]

  -- With the rules of arithmetic on doubles: `localize` returns at most the number of files that is
  -- asked for, each of a positive score. With the files left out they are all the files, none of the
  -- files left out scores higher than a returned one, and where fewer are returned than were asked for,
  -- the ones left out have no positive score.
  pub localize-IsBest :
      {W : Type 0} (in_order : List ℕ → List ℕ) (tool : CoverageTool W) (limit : ℕ)
      (tests files : List String) (w : W)
      → IsBest d
          (file_score d in_order (trace_tests tool tests no_traces w).0 tests)
          limit
          files
          (localize d in_order tool limit tests files w).0
  unfolding localize
  localize-IsBest in_order tool limit tests files w =
      let score = file_score d in_order (trace_tests tool tests no_traces w).0 tests in
      let h = file_score-IsSum in_order (trace_tests tool tests no_traces w).0 tests in
      let sorted =
        stable_sort-IsOrderedBy (better score h) (never_before score h) (never_between score h)
          files in
      let (rest, split, few, positive, worse, enough) =
        select-IsBest score h limit (stable_sort (better score h) files) sorted in
      (
        rest,
        subst (λ fs. Perm fs files) (sym split) (stable_sort-perm (better score h) files),
        few,
        positive,
        worse,
        enough,
      )
