-- ===== src/Repair/Remaining.antt =====
-- repair/Repair.cpp: the plausible patches that are left behind an index, and what is left of a bound on
-- their number.
use mathlib.Core.List.{append_assoc}
use f1x.Prelude.{
  ℕ, zero, suc, ◌+◌, ◌-◌, ◌≤◌, ◌<◌, ◌≡◌, refl, sym, ap, ◌∙◌, List, [], ◌∷◌, ◌++◌, length, get_elem?,
  take, drop, Bool, true, false, ◌&&◌, ◌||◌, not, some, if◌then◌else◌, leb, ◌==◌, arith, Bool-cases,
  inl, inr, ◌⊎◌, length-append,
}
use f1x.Core.{PatchId, Patch}
use f1x.SearchEngine.PlainSearch.{first_plausible}

-- The plausible patches of a search space, in its order.
abbrev pub plausible_of : (PatchId → Bool) → List Patch → List Patch
plausible_of f [] = []
plausible_of f (p ∷ ps) = let rest = plausible_of f ps in if f p.id then p ∷ rest else rest

-- At most so many of them, where 0 stands for no bound.
abbrev pub limited : ℕ → List Patch → List Patch
limited zero ps = ps
limited (suc n) ps = take (suc n) ps

first_plausible-cases :
    (f : PatchId → Bool) (index : ℕ) (ps : List Patch)
    → ((first_plausible f index ps ≡ index + length ps) × (plausible_of f ps ≡ []))
      ⊎ ((k : ℕ) × (p : Patch) × (first_plausible f index ps ≡ index + k)
          × (get_elem? ps k ≡ some p)
          × (plausible_of f ps ≡ p ∷ plausible_of f (drop (suc k) ps)))
unfolding first_plausible
first_plausible-cases f index [] = inl (omega arith, refl)
first_plausible-cases f index (p ∷ ps) = elim (Bool-cases (f p.id)) [
  | inl e ↦ inr (0, p, rw e (omega arith), refl, rw e refl)
  | inr e ↦ elim (first_plausible-cases f (suc index) ps) [
    | inl (r, none_left) ↦ inl (rw e (omega (arith, r)), rw e none_left)
    | inr (k, q, r, at, left) ↦ inr (suc k, q, rw e (omega (arith, r)), at, rw e left)
  ]
]

get_elem?-drop : (n k : ℕ) (ps : List Patch) → get_elem? (drop n ps) k ≡ get_elem? ps (n + k)
get_elem?-drop zero k ps = ap (get_elem? ps) (omega arith)
get_elem?-drop (suc n) k [] = refl
get_elem?-drop (suc n) k (p ∷ ps) =
    let same : suc (n + k) ≡ suc n + k = omega arith in
    get_elem?-drop n k ps ∙ ap (get_elem? (p ∷ ps)) same

drop-drop : (n k : ℕ) (ps : List Patch) → drop (suc k) (drop n ps) ≡ drop (suc (n + k)) ps
drop-drop zero k ps = let same : suc k ≡ suc (0 + k) = omega arith in ap (λ m. drop m ps) same
drop-drop (suc n) k [] = refl
drop-drop (suc n) k (p ∷ ps) =
    let same : suc (suc (n + k)) ≡ suc (suc n + k) = omega arith in
    drop-drop n k ps ∙ ap (λ m. drop m (p ∷ ps)) same

length-drop : (n : ℕ) (ps : List Patch) → n ≤ length ps → n + length (drop n ps) ≡ length ps
length-drop zero ps h = omega arith
length-drop (suc n) [] h = omega arith
length-drop (suc n) (p ∷ ps) h = omega (arith, length-drop n ps)

-- The next plausible patch, of those from an index on.
abbrev Next : (f : PatchId → Bool) (ps : List Patch) (last next : ℕ) → Type 0
Next f ps last next =
    ((next ≡ length ps) × (plausible_of f (drop last ps) ≡ []))
    ⊎ ((p : Patch) × (last ≤ next)
        × (next < length ps)
        × (get_elem? ps next ≡ some p)
        × (plausible_of f (drop last ps) ≡ p ∷ plausible_of f (drop (suc next) ps)))

get_elem?-< : (ps : List Patch) (k : ℕ) {p : Patch} → get_elem? ps k ≡ some p → k < length ps
get_elem?-< [] k e = cc
get_elem?-< (q ∷ ps) zero e = omega arith
get_elem?-< (q ∷ ps) (suc k) e = omega (arith, get_elem?-< ps k e)

pub first_plausible-Next :
    (f : PatchId → Bool) (ps : List Patch) (last : ℕ)
    → last ≤ length ps
    → Next f ps last (first_plausible f last (drop last ps))
first_plausible-Next f ps last h = elim (first_plausible-cases f last (drop last ps)) [
  | inl (r, left) ↦ inl (r ∙ length-drop last ps h, left)
  | inr (k, p, r, at, left) ↦
      let at' : get_elem? ps (last + k) ≡ some p = sym (get_elem?-drop last k ps) ∙ at in
      rw r (
        inr (
          p,
          omega arith,
          get_elem?-< ps (last + k) at',
          at',
          left ∙ ap (λ qs. p ∷ plausible_of f qs) (drop-drop last k ps),
        ))
]

-- What is left of a bound after so many.
abbrev pub room : ℕ → ℕ → List Patch → List Patch
room zero m ps = ps
room (suc n) m ps = take (suc n - m) ps

take-nil : (n : ℕ) → take {A = Patch} n [] ≡ []
take-nil zero = refl
take-nil (suc n) = refl

pub room-nil : (top m : ℕ) → room top m [] ≡ []
room-nil zero m = refl
room-nil (suc n) m = take-nil (suc n - m)

take-zero : (n : ℕ) (ps : List Patch) → n ≡ 0 → take n ps ≡ []
take-zero zero ps e = refl
take-zero (suc n) ps e = cc

take-suc : (n m : ℕ) (p : Patch) (ps : List Patch) → n ≡ suc m → take n (p ∷ ps) ≡ p ∷ take m ps
take-suc n m p ps e = rw e refl

abbrev pub enough : ℕ → ℕ → Bool
enough top m = not (top == 0) && leb top m

pub room-enough : (top m : ℕ) (ps : List Patch) → enough top m ≡ true → room top m ps ≡ []
room-enough zero m ps e = cc
room-enough (suc n) m ps e = take-zero (suc n - m) ps (ground arith)

pub room-more :
    (top m : ℕ) (p : Patch) (ps : List Patch)
    → enough top m ≡ false
    → room top m (p ∷ ps) ≡ p ∷ room top (suc m) ps
room-more zero m p ps e = refl
room-more (suc n) m p ps e = take-suc (suc n - m) (suc n - suc m) p ps (ground arith)

pub if_true :
    {A : Type 0} (b : Bool) {x : A} (y : A) (P : A → Type 0)
    → b ≡ true
    → P x
    → P (if b then x else y)
if_true true y P e h = h
if_true false y P e h = cc

pub if_false :
    {A : Type 0} (b : Bool) (x : A) {y : A} (P : A → Type 0)
    → b ≡ false
    → P y
    → P (if b then x else y)
if_false true x P e h = cc
if_false false x P e h = h

pub ||_right : (a b : Bool) → a ≡ false → (a || b) ≡ true → b ≡ true
||_right a b e h = ground (arith, e, h)

pub ||_false : (a b : Bool) → (a || b) ≡ false → (a ≡ false) × (b ≡ false)
||_false a b h = ground (arith, h)

pub more_found :
    (found : List Patch) (p : Patch) (top : ℕ) (ps : List Patch)
    → (found ++ p ∷ []) ++ room top (length (found ++ p ∷ [])) ps
      ≡ found ++ p ∷ room top (suc (length found)) ps
more_found found p top ps =
    let longer : length (found ++ p ∷ []) ≡ suc (length found) =
      omega (arith, length-append found (p ∷ [])) in
    rw longer (append_assoc found (p ∷ []) (room top (suc (length found)) ps))
