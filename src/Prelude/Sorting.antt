-- ===== src/Prelude/Sorting.antt =====
-- `std::stable_sort`, as insertion from the back, and its laws where the order is by a number.
use Prim.Native.Nat.{ℕ, ◌≤◌}
use mathlib.Core.Path.{◌≡◌, refl, ap, ◌∙◌}
use mathlib.Core.Bool.{Bool, true, false}
use mathlib.Core.List.{List, [], ◌∷◌, Perm}
use mathlib.Core.List.Perm
use native.Mathlib.Omega.{arith}
use f1x.Prelude.Tests.{ltb, ◌==◌, if◌then◌else◌, Bool-cases}
use f1x.Prelude.Lists.{All, All-mono}
use mathlib.Core.Logic.{inl, inr}

module _ {ℓ} {A : Type ℓ} where
  -- Before the first element that is not smaller.
  unfoldable pub insert_by : (A → A → Bool) → A → List A → List A
  insert_by lt x [] = x ∷ []
  insert_by lt x (y ∷ ys) =
      let later = y ∷ insert_by lt x ys in if lt y x then later else x ∷ y ∷ ys

  unfoldable pub stable_sort : (A → A → Bool) → List A → List A
  unfolding insert_by
  stable_sort lt [] = []
  stable_sort lt (x ∷ xs) = insert_by lt x (stable_sort lt xs)

  insert_by-perm : (lt : A → A → Bool) (x : A) (xs : List A) → Perm (insert_by lt x xs) (x ∷ xs)
  unfolding insert_by
  insert_by-perm lt x [] = Perm.refl (x ∷ [])
  insert_by-perm lt x (y ∷ ys) = elim (Bool-cases (lt y x)) [
    | inl h ↦ rw h (Perm.trans (Perm.cons y (insert_by-perm lt x ys)) (Perm.swap x y ys))
    | inr h ↦ rw h (Perm.refl (x ∷ y ∷ ys))
  ]

  pub stable_sort-perm : (lt : A → A → Bool) (xs : List A) → Perm (stable_sort lt xs) xs
  unfolding stable_sort
  stable_sort-perm lt [] = Perm.refl []
  stable_sort-perm lt (x ∷ xs) =
      Perm.trans (insert_by-perm lt x (stable_sort lt xs)) (Perm.cons x (stable_sort-perm lt xs))

  module _ {κ} (lt : A → A → Bool) (P : A → Type κ) where
    insert_by-All : (x : A) (xs : List A) → P x → All P xs → All P (insert_by lt x xs)
    unfolding insert_by
    insert_by-All x [] h k = (h, tt)
    insert_by-All x (y ∷ ys) h k = elim (Bool-cases (lt y x)) [
      | inl e ↦ rw e (k.0, insert_by-All x ys h k.1)
      | inr e ↦ rw e (h, k)
    ]

    pub stable_sort-All : (xs : List A) → All P xs → All P (stable_sort lt xs)
    unfolding stable_sort
    stable_sort-All [] h = tt
    stable_sort-All (x ∷ xs) h = insert_by-All x (stable_sort lt xs) h.0 (stable_sort-All xs h.1)

  module _ (key : A → ℕ) where
    abbrev pub by_key : A → A → Bool
    by_key a b = ltb (key a) (key b)

    -- The keys do not fall.
    abbrev pub IsSorted : List A → Type 0
    IsSorted [] = Unit
    IsSorted (x ∷ xs) = All (λ y. key x ≤ key y) xs × IsSorted xs

    insert_by-IsSorted : (x : A) (xs : List A) → IsSorted xs → IsSorted (insert_by by_key x xs)
    unfolding insert_by
    insert_by-IsSorted x [] h = (tt, tt)
    insert_by-IsSorted x (y ∷ ys) h =
        let above = λ (p : key x ≤ key y).
          All-mono (λ z. key y ≤ key z) (λ z. key x ≤ key z) (λ z q. omega arith) ys h.0 in
        elim (Bool-cases (by_key y x)) [
          | inl e ↦ rw e (
            insert_by-All by_key (λ z. key y ≤ key z) x ys (ground arith) h.0,
            insert_by-IsSorted x ys h.1,
          )
          | inr e ↦ rw e ((ground arith, above (ground arith)), h)
        ]

    pub stable_sort-IsSorted : (xs : List A) → IsSorted (stable_sort by_key xs)
    unfolding stable_sort
    stable_sort-IsSorted [] = tt
    stable_sort-IsSorted (x ∷ xs) =
        insert_by-IsSorted x (stable_sort by_key xs) (stable_sort-IsSorted xs)

    -- The elements with a given key, in their order.
    unfoldable pub with_key : ℕ → List A → List A
    with_key n [] = []
    with_key n (x ∷ xs) = let rest = with_key n xs in if key x == n then x ∷ rest else rest

    with_key-insert_by :
        (n : ℕ) (x : A) (xs : List A) → with_key n (insert_by by_key x xs) ≡ with_key n (x ∷ xs)
    unfolding with_key insert_by
    with_key-insert_by n x [] = refl
    with_key-insert_by n x (y ∷ ys) = ground (arith, with_key-insert_by n x ys)

    pub with_key-stable_sort :
        (n : ℕ) (xs : List A) → with_key n (stable_sort by_key xs) ≡ with_key n xs
    unfolding with_key stable_sort
    with_key-stable_sort n [] = refl
    with_key-stable_sort n (x ∷ xs) =
        with_key-insert_by n x (stable_sort by_key xs)
        ∙ ap (λ ys. if key x == n then x ∷ ys else ys) (with_key-stable_sort n xs)

  -- The same for an order in which neither of two elements may have to come first.
  module _ (lt : A → A → Bool) (asymmetric : (a b : A) → lt a b ≡ true → lt b a ≡ false)
      (transitive : (a b c : A) → lt a b ≡ false → lt b c ≡ false → lt a c ≡ false) where
    -- No later element has to come first.
    abbrev pub IsOrderedBy : List A → Type 0
    IsOrderedBy [] = Unit
    IsOrderedBy (x ∷ xs) = All (λ y. lt y x ≡ false) xs × IsOrderedBy xs

    insert_by-each {κ} :
        (P : A → Type κ) (x : A) (xs : List A) → P x → All P xs → All P (insert_by lt x xs)
    unfolding insert_by
    insert_by-each P x [] h k = (h, tt)
    insert_by-each P x (y ∷ ys) h k = elim (Bool-cases (lt y x)) [
      | inl e ↦ rw e (k.0, insert_by-each P x ys h k.1)
      | inr e ↦ rw e (h, k)
    ]

    insert_by-IsOrderedBy : (x : A) (xs : List A) → IsOrderedBy xs → IsOrderedBy (insert_by lt x xs)
    unfolding insert_by
    insert_by-IsOrderedBy x [] h = (tt, tt)
    insert_by-IsOrderedBy x (y ∷ ys) h = elim (Bool-cases (lt y x)) [
      | inl e ↦ rw (e) (
        insert_by-each (λ z. lt z y ≡ false) x ys (asymmetric y x e) h.0,
        insert_by-IsOrderedBy x ys h.1,
      )
      | inr e ↦ rw e (
        (
          e,
          All-mono (λ z. lt z y ≡ false) (λ z. lt z x ≡ false) (λ z q. transitive z y x q e) ys h.0,
        ),
        h,
      )
    ]

    pub stable_sort-IsOrderedBy : (xs : List A) → IsOrderedBy (stable_sort lt xs)
    unfolding stable_sort
    stable_sort-IsOrderedBy [] = tt
    stable_sort-IsOrderedBy (x ∷ xs) =
        insert_by-IsOrderedBy x (stable_sort lt xs) (stable_sort-IsOrderedBy xs)
