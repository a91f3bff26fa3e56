-- ===== src/FaultLocalization/Arithmetic.antt =====
-- repair/FaultLocalization.cpp: what the scores use of `double` and of `unsigned`.
use f1x.Prelude.{ℕ, ◌%◌, ◌<◌, ◌≡◌, ◌≢◌, Bool, true, false, arith}

-- A number of the type `unsigned`
unfoldable pub unsigned : ℕ → ℕ
unsigned n = n % 4294967296

pub unsigned-lt : (n : ℕ) → unsigned n < 4294967296
unfolding unsigned
unsigned-lt n = omega arith

pub record Double (D : Type 0) : Type 0 where
  pub of_nat : ℕ → D
  pub add : D → D → D
  pub div : D → D → D
  -- `== 0`
  pub is_zero : D → Bool
  -- `>`
  pub gt : D → D → Bool

-- The rules of IEEE 754 that the order of the files rests on. A fraction is a double from 0 to
-- 2 ^ 32, a sum is a double that is at least 0, infinity included; neither is a NaN.
pub record Rules {D : Type 0} (d : Double D) : Type 1 where
  pub IsFraction : D → Type 0
  pub IsSum : D → Type 0
  pub of_nat-IsFraction : (n : ℕ) → n < 4294967296 → IsFraction (d.of_nat n)
  pub div-IsFraction :
      (n m : ℕ)
      → n < 4294967296
      → m < 4294967296
      → m ≢ 0
      → IsFraction (d.div (d.of_nat n) (d.of_nat m))
  pub share-IsFraction :
      (x y : D)
      → IsFraction x
      → IsFraction y
      → d.is_zero (d.add x y) ≡ false
      → IsFraction (d.div x (d.add x y))
  pub zero-IsSum : IsSum (d.of_nat 0)
  pub add-IsSum : (x y : D) → IsSum x → IsFraction y → IsSum (d.add x y)
  pub gt_asymmetric : (x y : D) → IsSum x → IsSum y → d.gt x y ≡ true → d.gt y x ≡ false
  pub not_gt_transitive :
      (x y z : D)
      → IsSum x
      → IsSum y
      → IsSum z
      → d.gt x y ≡ false
      → d.gt y z ≡ false
      → d.gt x z ≡ false
