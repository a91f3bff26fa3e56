-- ===== src/Transform/Arguments/Renamed.antt =====
-- repair/Synthesis.cpp: names at run time, for the texts of components with different texts.
use f1x.Prelude.{
  ℕ, zero, suc, ◌+◌, ◌≡◌, refl, List, [], ◌∷◌, map, get_elem?, Bool, true, false, some, String,
  str_eq, str_eq_iff, str_lt, stable_sort, has_text, add_text, text_lookup, text_insert,
  if◌then◌else◌, ok, arith, inl, inr, Bool-cases, ap, sym, subst, ◌∙◌, insert_by,
}
use f1x.Core.Expressions.{Expression, type, raw_type, is_integer}
use f1x.Generator.Names.{
  Renaming, indexed, rename_from, reprs_of_type, pointer_reprs, integer_types,
}
use f1x.Transform.Types.{is_pointer_type}
use f1x.Transform.Expressions.{raw_of}
use f1x.Transform.Components.Made.{Component}
use f1x.Transform.Components.Distinct.{has_repr, AreDistinct, IsAmong}
use f1x.Transform.Arguments.Grouping.{has_text-add}
use f1x.Transform.Arguments.Layout.{loaded, pointers_of}

-- No text twice
abbrev pub Apart : List String → Type 0
Apart [] = Unit
Apart (r ∷ rs) = (has_text r rs ≡ false) × Apart rs

text_lookup-insert_self : (v r : String) (m : Renaming) → text_lookup "" (text_insert r v m) r ≡ v
unfolding text_lookup text_insert
text_lookup-insert_self v r [] = ground (arith, str_eq_iff r r)
text_lookup-insert_self v r ((i, w) ∷ m) =
    ground (arith, str_eq_iff r r, str_eq_iff i r, text_lookup-insert_self v r m)

text_lookup-insert_other :
    (v k r : String) (m : Renaming)
    → str_eq k r ≡ false
    → text_lookup "" (text_insert k v m) r ≡ text_lookup "" m r
unfolding text_lookup text_insert
text_lookup-insert_other v k r [] h = ground (arith, h)
text_lookup-insert_other v k r ((i, w) ∷ m) h =
    ground
      (arith, h, str_eq_iff i k, str_eq_iff i r, str_eq_iff k r, text_lookup-insert_other v k r m)

-- A text that is not renamed keeps its name, and the others get the places in their order.
pub rename_from-other :
    (name : String) (i : ℕ) (rs : List String) (m : Renaming) (r : String)
    → has_text r rs ≡ false
    → text_lookup "" (rename_from name i rs m) r ≡ text_lookup "" m r
unfolding rename_from
rename_from-other name i [] m r h = refl
rename_from-other name i (s ∷ rs) m r h =
    let parts : (str_eq s r ≡ false) × (has_text r rs ≡ false) = ground (arith, h) in
    rename_from-other name (suc i) rs (text_insert s (indexed name i) m) r parts.1
    ∙ text_lookup-insert_other (indexed name i) s r m parts.0

pub rename_from-get :
    (name : String) (i : ℕ) (rs : List String) (m : Renaming) (k : ℕ) (r : String)
    → Apart rs
    → get_elem? rs k ≡ some r
    → text_lookup "" (rename_from name i rs m) r ≡ indexed name (i + k)
unfolding rename_from
rename_from-get name i [] m k r h e = cc e
rename_from-get name i (s ∷ rs) m zero r h e =
    let same : s ≡ r = cc e in
    let fresh : has_text r rs ≡ false = subst (λ x. has_text x rs ≡ false) same h.0 in
    rename_from-other name (suc i) rs (text_insert s (indexed name i) m) r fresh
    ∙ (subst (λ x. text_lookup "" (text_insert x (indexed name i) m) r ≡ indexed name (i + 0))
        (sym same) (text_lookup-insert_self (indexed name i) r m ∙ ap (indexed name) (omega arith)))
rename_from-get name i (s ∷ rs) m (suc k) r h e =
    rename_from-get name (suc i) rs (text_insert s (indexed name i) m) k r h.1 e
    ∙ ap (indexed name) (omega arith)

-- The texts of the components that are chosen
abbrev pub reprs_where : (Component → Bool) → List Component → List String
reprs_where p [] = []
reprs_where p (c ∷ cs) = let rest = reprs_where p cs in if p c then c.repr ∷ rest else rest

reprs_where-other :
    (p : Component → Bool) (cs : List Component) (r : String)
    → has_repr r cs ≡ false
    → has_text r (reprs_where p cs) ≡ false
reprs_where-other p [] r h = refl
reprs_where-other p (c ∷ cs) r h =
    ground (arith, h, str_eq_iff r c.repr, str_eq_iff c.repr r, reprs_where-other p cs r)

pub reprs_where-Apart :
    (p : Component → Bool) (cs : List Component) → AreDistinct cs → Apart (reprs_where p cs)
reprs_where-Apart p [] h = tt
reprs_where-Apart p (c ∷ cs) h = elim (Bool-cases (p c)) [
  | inl e ↦ rw e (reprs_where-other p cs c.repr h.0, reprs_where-Apart p cs h.1)
  | inr e ↦ rw e (reprs_where-Apart p cs h.1)
]

has_repr-IsAmong : (cs : List Component) (c : Component) → IsAmong cs c → has_repr c.repr cs ≡ true
has_repr-IsAmong [] c h = elim h [ ]
has_repr-IsAmong (d ∷ ds) c (inl e) =
    rw (ap (λ x. x.repr) e) (ground (arith, str_eq_iff d.repr d.repr))
has_repr-IsAmong (d ∷ ds) c (inr h) = ground (arith, has_repr-IsAmong ds c h)

-- A component that is not chosen has a text that no chosen one has.
pub reprs_where-excluded :
    (p : Component → Bool) (cs : List Component) (c : Component)
    → AreDistinct cs
    → IsAmong cs c
    → p c ≡ false
    → has_text c.repr (reprs_where p cs) ≡ false
reprs_where-excluded p [] c h a e = elim a [ ]
reprs_where-excluded p (d ∷ ds) c h (inl same) e =
    let out : p d ≡ false = ap p (sym same) ∙ e in
    let rest : has_text c.repr (reprs_where p ds) ≡ false =
      rw same (reprs_where-other p ds d.repr h.0) in
    rw out rest
reprs_where-excluded p (d ∷ ds) c h (inr a) e =
    let known = has_repr-IsAmong ds c a in
    let rest = reprs_where-excluded p ds c h.1 a e in
    let apart : str_eq d.repr c.repr ≡ false = elim (Bool-cases (str_eq d.repr c.repr)) [
      | inr n ↦ n
      | inl y ↦
          let same = (str_eq_iff d.repr c.repr).0 y in cc (known, h.0, ap (λ r. has_repr r ds) same)
    ] in
    ground (arith, rest, apart)

pub reprs_where-chosen :
    (p : Component → Bool) (cs : List Component) (c : Component)
    → IsAmong cs c
    → p c ≡ true
    → (k : ℕ) × (get_elem? (reprs_where p cs) k ≡ some c.repr)
reprs_where-chosen p [] c a e = elim a [ ]
reprs_where-chosen p (d ∷ ds) c (inl same) e =
    let chosen : p d ≡ true = ap p (sym same) ∙ e in
    (0, rw chosen (ap (λ x. some x.repr) (sym same)))
reprs_where-chosen p (d ∷ ds) c (inr a) e =
    let (k, here) = reprs_where-chosen p ds c a e in
    elim (Bool-cases (p d)) [ inl y ↦ (suc k, rw y here) | inr n ↦ (k, rw n here) ]

-- The components of a type, and the pointers
abbrev pub is_of_type : String → Component → Bool
is_of_type t c = if is_pointer_type c.type then false else str_eq (raw_of c.type) t

abbrev pub is_pointer_component : Component → Bool
is_pointer_component c = is_pointer_type c.type

pub reprs_of_type-where :
    (t : String) (cs : List Component)
    → reprs_of_type t (map loaded cs) ≡ reprs_where (is_of_type t) cs
unfolding reprs_of_type
reprs_of_type-where t [] = refl
reprs_of_type-where t (c ∷ cs) = ground (arith, reprs_of_type-where t cs)

pub pointers_of-where :
    (cs : List Component) → pointers_of (map loaded cs) ≡ reprs_where is_pointer_component cs
unfolding pointers_of
pointers_of-where [] = refl
pointers_of-where (c ∷ cs) = ground (arith, pointers_of-where cs)

pub pointer_reprs-loaded :
    (cs : List Component) → pointer_reprs (map loaded cs) ≡ ok (pointers_of (map loaded cs))
unfolding pointer_reprs pointers_of
pointer_reprs-loaded [] = refl
pointer_reprs-loaded (c ∷ cs) = elim (Bool-cases (is_pointer_type c.type)) [
  | inl e ↦ rw (pointer_reprs-loaded cs, e)
  | inr e ↦ rw (pointer_reprs-loaded cs, e)
]

has_text-add_text :
    (s t : String) (ts : List String)
    → has_text s (add_text ts t) ≡ (if has_text s ts then true else str_eq t s)
has_text-add_text s t ts = elim (Bool-cases (has_text t ts)) [
  | inl e ↦ ground (arith, e, str_eq_iff t s)
  | inr e ↦ ground (arith, e, has_text-add s t ts)
]

integer_types-keeps :
    (s : String) (cs : List Expression) (ts : List String)
    → has_text s ts ≡ true
    → has_text s (integer_types cs ts) ≡ true
unfolding integer_types
integer_types-keeps s [] ts h = h
integer_types-keeps s (c ∷ cs) ts h = elim (Bool-cases (is_integer (type c))) [
  | inl e ↦ rw e (
      integer_types-keeps s cs (add_text ts (raw_type c))
        (rw (has_text-add_text s (raw_type c) ts, h)))
  | inr e ↦ rw e (integer_types-keeps s cs ts h)
]

pub integer_types-IsAmong :
    (cs : List Component) (c : Component) (ts : List String)
    → IsAmong cs c
    → is_pointer_type c.type ≡ false
    → has_text (raw_of c.type) (integer_types (map loaded cs) ts) ≡ true
unfolding integer_types
integer_types-IsAmong [] c ts a e = elim a [ ]
integer_types-IsAmong (d ∷ ds) c ts (inl same) e =
    let out : is_pointer_type d.type ≡ false = ap (λ x. is_pointer_type x.type) (sym same) ∙ e in
    let raw = raw_of d.type in
    let added : has_text raw (add_text ts raw) ≡ true =
      has_text-add_text raw raw ts ∙ ground (arith, str_eq_iff raw raw) in
    let next : (if is_integer (type (loaded d)) then add_text ts raw else ts) ≡ add_text ts raw =
      ground (arith, out) in
    subst (λ x. has_text (raw_of x.type) (integer_types (map loaded (d ∷ ds)) ts) ≡ true) (sym same)
      (subst (λ acc. has_text raw (integer_types (map loaded ds) acc) ≡ true) (sym next)
        (integer_types-keeps raw (map loaded ds) (add_text ts raw) added))
integer_types-IsAmong (d ∷ ds) c ts (inr a) e =
    integer_types-IsAmong ds c
      (if is_integer (type (loaded d)) then add_text ts (raw_type (loaded d)) else ts) a e

has_text-insert_by :
    (s x : String) (xs : List String) → has_text s (insert_by str_lt x xs) ≡ has_text s (x ∷ xs)
unfolding insert_by
has_text-insert_by s x [] = refl
has_text-insert_by s x (y ∷ ys) = elim (Bool-cases (str_lt y x)) [
  | inl e ↦ rw e (ground (arith, has_text-insert_by s x ys))
  | inr e ↦ rw e
]

pub has_text-stable_sort :
    (s : String) (xs : List String) → has_text s (stable_sort str_lt xs) ≡ has_text s xs
unfolding stable_sort
has_text-stable_sort s [] = refl
has_text-stable_sort s (x ∷ xs) =
    has_text-insert_by s x (stable_sort str_lt xs) ∙ ground (arith, has_text-stable_sort s xs)
