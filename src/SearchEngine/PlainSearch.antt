-- ===== src/SearchEngine/PlainSearch.antt =====
-- repair/SearchEngine.cpp: the plain search, and what a run changes in the records of the engine.
use text.Mathlib.TextEquality.{eq_iff}
use f1x.Prelude.{
  ℕ, zero, suc, ◌≡◌, refl, List, [], ◌∷◌, ◌++◌, get_elem?, take, drop, Bool, true, false, ◌&&◌,
  ◌||◌, some, String, if◌then◌else◌, arith, Option-cases, inl, inr, ◌⊎◌,
}
use f1x.Core.{PatchId, patch_id_eq, Location, Patch}
use f1x.Core.Config.{Config}
use f1x.SearchEngine.{Engine, Outcome, member, is_pass, prioritize_test, record_run}

-- Every test of an order passes, by a given verdict on tests.
abbrev pub all_pass : (ℕ → Bool) → List ℕ → Bool
all_pass passes [] = true
all_pass passes (i ∷ order) = passes i && all_pass passes order

-- The plain search: the first patch from `index` on that is plausible.
unfoldable pub first_plausible : (PatchId → Bool) → ℕ → List Patch → ℕ
first_plausible plausible index [] = index
first_plausible plausible index (p ∷ ps) =
    let rest = first_plausible plausible (suc index) ps in if plausible p.id then index else rest

-- What holds of the three ends of a test in a test holds of the whole.
pub pick :
    {A : Type 0} (a b : Bool) {x y z : A} (P : A → Type 0)
    → (a ≡ true → P x)
    → (a ≡ false → b ≡ true → P y)
    → (a ≡ false → b ≡ false → P z)
    → P (if a then x else if b then y else z)
pick true b P f g h = f refl
pick false true P f g h = g refl refl
pick false false P f g h = h refl refl

pub all_pass-true :
    (f : ℕ → Bool) (i : ℕ) (order : List ℕ) → f i ≡ true → all_pass f (i ∷ order) ≡ all_pass f order
all_pass-true f i order e = rw e

pub all_pass-false :
    (f : ℕ → Bool) (i : ℕ) (order : List ℕ) → f i ≡ false → all_pass f (i ∷ order) ≡ false
all_pass-false f i order e = rw e

pub first_plausible-true :
    (f : PatchId → Bool) (index : ℕ) (p : Patch) (ps : List Patch)
    → f p.id ≡ true
    → first_plausible f index (p ∷ ps) ≡ index
unfolding first_plausible
first_plausible-true f index p ps e = rw e

pub first_plausible-false :
    (f : PatchId → Bool) (index : ℕ) (p : Patch) (ps : List Patch)
    → f p.id ≡ false
    → first_plausible f index (p ∷ ps) ≡ first_plausible f (suc index) ps
unfolding first_plausible
first_plausible-false f index p ps e = rw e

all_pass-append :
    (f : ℕ → Bool) (xs ys : List ℕ) → all_pass f (xs ++ ys) ≡ (all_pass f xs && all_pass f ys)
all_pass-append f [] ys = refl
all_pass-append f (x ∷ xs) ys = ground (arith, all_pass-append f xs ys)

all_pass-move :
    (f : ℕ → Bool) (order : List ℕ) (index : ℕ) {i : ℕ}
    → get_elem? order index ≡ some i
    → all_pass f (i ∷ (take index order ++ drop (suc index) order)) ≡ all_pass f order
all_pass-move f [] index e = cc
all_pass-move f (x ∷ order) zero e = ground arith
all_pass-move f (x ∷ order) (suc index) {i} e =
    let ih = all_pass-move f order index e in ground (arith, ih)

-- A change of the order leaves open whether all tests pass.
pub all_pass-prioritize :
    (f : ℕ → Bool) (order : List ℕ) (index : ℕ)
    → all_pass f (prioritize_test order index) ≡ all_pass f order
unfolding prioritize_test
all_pass-prioritize f order index = elim (Option-cases (get_elem? order index)) [
  | inl e ↦ rw (e, prioritize_test)
  | inr (i, e) ↦ rw (e, prioritize_test) (all_pass-move f order index e)
]

member-append :
    (q : PatchId) (xs ys : List PatchId) → member q (xs ++ ys) ≡ (member q xs || member q ys)
member-append q [] ys = refl
member-append q (x ∷ xs) ys = ground (arith, member-append q xs ys)

pub patch_id_eq_sound : (p q : PatchId) → patch_id_eq p q ≡ true → p ≡ q
patch_id_eq_sound p q h = ground arith

module _ (cfg : Config) (id : PatchId) (test : String) (o : Outcome) (s : Engine) where
  pub record_run-related :
      (loc : Location)
      → (record_run cfg id test o s).related_test_indexes loc ≡ s.related_test_indexes loc
  unfolding record_run
  record_run-related loc = ground arith

  -- Where an id in the new state comes from.
  pub record_run-failing :
      (q : PatchId)
      → member q (record_run cfg id test o s).failing ≡ true
      → ((is_pass o.status ≡ false) × (member q (id ∷ o.partition) ≡ true))
        ⊎ (member q s.failing ≡ true)
  unfolding record_run
  record_run-failing q h = ground (arith, member-append q o.partition s.failing)

  pub record_run-passing :
      (q : PatchId) (t : String)
      → member q ((record_run cfg id test o s).passing t) ≡ true
      → ((is_pass o.status ≡ true) × (t ≡ test) × (member q (id ∷ o.partition) ≡ true))
        ⊎ (member q (s.passing t) ≡ true)
  unfolding record_run
  record_run-passing q t h =
      ground (arith, member-append q o.partition (s.passing t), eq_iff t test)
