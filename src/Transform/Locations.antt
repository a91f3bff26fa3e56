-- ===== src/Transform/Locations.antt =====
-- transform/TransformUtil.h: equality of locations, and locations in a list.
use f1x.Prelude.{◌≡◌, List, ◌∷◌, true, false, arith, inl, inr, Bool-cases, ap}
use f1x.Core.{Location, location_eq, location_eq_sound}
use f1x.Profiler.{covers}

pub location_eq_refl : (l : Location) → location_eq l l ≡ true
location_eq_refl l = ground arith

pub location_eq_comm : (l k : Location) → location_eq l k ≡ location_eq k l
location_eq_comm l k = ground arith

pub covers-cons :
    (m l : Location) (ls : List Location) → covers ls l ≡ true → covers (m ∷ ls) l ≡ true
covers-cons m l ls h = ground arith

pub covers-first :
    (m l : Location) (ls : List Location) → location_eq m l ≡ true → covers (m ∷ ls) l ≡ true
covers-first m l ls h = ground (arith, h)

pub covers-rest :
    (m l : Location) (ls : List Location)
    → location_eq m l ≡ false
    → covers (m ∷ ls) l ≡ covers ls l
covers-rest m l ls h = ground (arith, h)

pub covers-other :
    (ls : List Location) (l k : Location)
    → covers ls l ≡ true
    → covers ls k ≡ false
    → location_eq l k ≡ false
covers-other ls l k h h' = elim (Bool-cases (location_eq l k)) [
  | inr e ↦ e
  | inl e ↦ let same = location_eq_sound l k e in cc (h, h', ap (covers ls) same)
]
