-- ===== src/Prelude/Text.antt =====
-- Text: comparison, concatenation and `std::to_string` on an unsigned number.
use Prim.Native.Nat.{ℕ, zero, suc, ◌/◌, ◌%◌, compare, Ordering}
use Prim.Native.String as Str
use Prim.Native.String.{String}
use mathlib.Core.Path.{◌≡◌, refl}
use mathlib.Core.Bool.{Bool, true, false}
use mathlib.Core.List.{List, [], ◌∷◌, ◌++◌}
use Prim.Native.Char.{code}
use text.Mathlib.Text.{◌==◌ as same_text}
use text.Mathlib.TextEquality.{eq_iff}
use mathlib.Core.Logic.{◌↔◌}

abbrev pub str_eq : String → String → Bool
str_eq s t = same_text s t

pub str_eq_iff : (s t : String) → (str_eq s t ≡ true) ↔ (s ≡ t)
str_eq_iff s t = eq_iff s t

infixr 60 ◌<>◌
abbrev pub ◌<>◌ : String → String → String
s <> t = Str.◌++◌ s t

abbrev pub digit : ℕ → String
digit zero = "0"
digit (suc zero) = "1"
digit (suc (suc zero)) = "2"
digit (suc (suc (suc zero))) = "3"
digit (suc (suc (suc (suc zero)))) = "4"
digit (suc (suc (suc (suc (suc zero))))) = "5"
digit (suc (suc (suc (suc (suc (suc zero)))))) = "6"
digit (suc (suc (suc (suc (suc (suc (suc zero))))))) = "7"
digit (suc (suc (suc (suc (suc (suc (suc (suc zero)))))))) = "8"
digit _ = "9"

-- The digits of `n`, the last one first, put before `acc`. A number has at most as many digits as
-- its value plus one.
to_digits : ℕ → ℕ → String → String
to_digits zero n acc = acc
to_digits (suc fuel) n acc =
    let more = to_digits fuel (n / 10) (digit (n % 10) <> acc) in
    elim (compare n 10) [ Ordering.lt ↦ digit n <> acc | _ ↦ more ]

unfoldable pub to_string : ℕ → String
unfolding to_digits
to_string n = to_digits (suc n) n ""

to_string_305 : to_string 305 ≡ "305"
unfolding to_string
to_string_305 = refl

-- Text by its code points, smaller first: `operator<` on `std::string`.
abbrev pub str_lt : String → String → Bool
str_lt s t = elim (Str.compare s t) [ Ordering.lt ↦ true | _ ↦ false ]

-- `std::find` on a list of texts, and `push_back` of one that is not found.
abbrev pub has_text : String → List String → Bool
has_text s [] = false
has_text s (t ∷ ts) = let rest = has_text s ts in elim (str_eq t s) [ true ↦ true | false ↦ rest ]

abbrev pub add_text : List String → String → List String
add_text ts s = elim (has_text s ts) [ true ↦ ts | false ↦ ts ++ s ∷ [] ]

-- `std::unordered_map<string, T>`: `operator[]` reads `missing` where there is no entry.
module _ {ℓ} {V : Type ℓ} where
  unfoldable pub text_lookup : V → List (String × V) → String → V
  text_lookup missing [] k = missing
  text_lookup missing ((j, v) ∷ m) k =
      let rest = text_lookup missing m k in elim (str_eq j k) [ true ↦ v | false ↦ rest ]

  unfoldable pub text_insert : String → V → List (String × V) → List (String × V)
  text_insert k v [] = (k, v) ∷ []
  text_insert k v ((j, w) ∷ m) =
      let rest = (j, w) ∷ text_insert k v m in
      elim (str_eq j k) [ true ↦ (k, v) ∷ m | false ↦ rest ]

-- `std::replace` of spaces by underscores.
unfoldable pub underscored : String → String
underscored String.[] = ""
underscored (String.◌∷◌ c s) =
    (elim (compare (code c) 32) [ Ordering.eq ↦ "_" | _ ↦ String.◌∷◌ c "" ]) <> underscored s
