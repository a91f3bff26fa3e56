-- ===== src/Transform/Arguments/Read.antt =====
-- transform/TransformUtil.cpp with repair/Synthesis.cpp: the generated function reads the value of a
-- component where the call passes it.
use f1x.Prelude.{
  ℕ, ◌+◌, ◌≡◌, refl, List, [], ◌∷◌, map, get_elem?, Bool, true, false, some, String, str_eq_iff,
  str_lt, stable_sort, has_text, text_lookup, if◌then◌else◌, ok, arith, inl, inr, Bool-cases, ap,
  sym, subst, ◌∙◌,
}
use f1x.Core.{SchemaApplication}
use f1x.Generator.Names.{
  Renaming, pointer_arg_name, arg_name_by_non_ptr_type, indexed, rename_from, rename_types,
  reprs_of_type, integer_types, sorted_integer_types, runtime_renaming,
}
use f1x.Transform.Types.{is_pointer_type}
use f1x.Transform.Expressions.{raw_of}
use f1x.Transform.Components.Made.{Component}
use f1x.Transform.Components.Distinct.{AreDistinct, IsAmong}
use f1x.Transform.Arguments.Layout.{loaded, pointers_of}
use f1x.Transform.Arguments.Renamed.{
  Apart, rename_from-other, rename_from-get, reprs_where-Apart, reprs_where-excluded,
  reprs_where-chosen, is_of_type, is_pointer_component, reprs_of_type-where, pointers_of-where,
  pointer_reprs-loaded, integer_types-IsAmong, has_text-stable_sort,
}

module _ (cs : List Component) (c : Component) (distinct : AreDistinct cs)
    (among : IsAmong cs c) where
  rename_types-other :
      (ts : List String) (m : Renaming)
      → ((t : String) → has_text t ts ≡ true → is_of_type t c ≡ false)
      → text_lookup "" (rename_types ts (map loaded cs) m) c.repr ≡ text_lookup "" m c.repr
  unfolding rename_types
  rename_types-other [] m h = refl
  rename_types-other (t ∷ ts) m h =
      let name = arg_name_by_non_ptr_type t in
      let rs = reprs_of_type t (map loaded cs) in
      let out : has_text c.repr rs ≡ false = rw (reprs_of_type-where t cs) (
        reprs_where-excluded (is_of_type t) cs c distinct among
          (h t (ground (arith, str_eq_iff t t)))) in
      rename_types-other ts (rename_from name 0 rs m) (λ u k. h u (ground (arith, k)))
      ∙ rename_from-other name 0 rs m c.repr out

  -- The place of an integer component in the array of its type
  rename_types-get :
      (ts : List String) (m : Renaming) (k : ℕ)
      → is_pointer_type c.type ≡ false
      → has_text (raw_of c.type) ts ≡ true
      → get_elem? (reprs_of_type (raw_of c.type) (map loaded cs)) k ≡ some c.repr
      → text_lookup "" (rename_types ts (map loaded cs) m) c.repr
        ≡ indexed (arg_name_by_non_ptr_type (raw_of c.type)) k
  unfolding rename_types
  rename_types-get [] m k e h here = cc h
  rename_types-get (t ∷ ts) m k e h here =
      let raw = raw_of c.type in
      let rs = reprs_of_type t (map loaded cs) in
      let m' = rename_from (arg_name_by_non_ptr_type t) 0 rs m in
      elim (Bool-cases (has_text raw ts)) [
        | inl later ↦ rename_types-get ts m' k e later here
        | inr last ↦
            let same : t ≡ raw = (str_eq_iff t raw).0 (ground (arith, h, last)) in
            let others : (u : String) → has_text u ts ≡ true → is_of_type u c ≡ false = λ u w.
              elim (Bool-cases (is_of_type u c)) [
                | inr n ↦ n
                | inl y ↦
                    let equal : raw ≡ u = (str_eq_iff raw u).0 (ground (arith, y, e)) in
                    cc (w, last, ap (λ x. has_text x ts) equal)
              ] in
            let apart : Apart rs =
              rw (reprs_of_type-where t cs) (reprs_where-Apart (is_of_type t) cs distinct) in
            let place : get_elem? rs k ≡ some c.repr =
              subst (λ u. get_elem? (reprs_of_type u (map loaded cs)) k ≡ some c.repr) (sym same)
                here in
            rename_types-other ts m' others
            ∙ rename_from-get (arg_name_by_non_ptr_type t) 0 rs m k c.repr apart place
            ∙ (ap (λ u. indexed (arg_name_by_non_ptr_type u) (0 + k)) same
                ∙ ap (indexed (arg_name_by_non_ptr_type raw)) (omega arith))
      ]

if-true {ℓ} : {A : Type ℓ} {b : Bool} (x y : A) → b ≡ true → (if b then x else y) ≡ x
if-true x y e = rw e

if-false {ℓ} : {A : Type ℓ} {b : Bool} (x y : A) → b ≡ false → (if b then x else y) ≡ y
if-false x y e = rw e

-- The array in which a component is passed, and the name of its parameter
abbrev pub array_texts : List Component → Component → List String
array_texts cs c =
    if is_pointer_type c.type
    then pointers_of (map loaded cs)
    else reprs_of_type (raw_of c.type) (map loaded cs)

abbrev pub array_name : Component → String
array_name c =
    if is_pointer_type c.type then pointer_arg_name else arg_name_by_non_ptr_type (raw_of c.type)

-- For components of which no two have the same text, the names at run time are computed for an
-- application with these components; and a component has the name of an element of the array in which it
-- is passed, the one at its place there.
pub runtime_renaming-place :
    (cs : List Component) (c : Component) (sa : SchemaApplication)
    → AreDistinct cs
    → IsAmong cs c
    → sa.components ≡ map loaded cs
    → (m : Renaming) × (k : ℕ) × (runtime_renaming sa ≡ ok m)
      × (get_elem? (array_texts cs c) k ≡ some c.repr)
      × (text_lookup "" m c.repr ≡ indexed (array_name c) k)
unfolding runtime_renaming sorted_integer_types
runtime_renaming-place cs c sa distinct among e =
    let ps = pointers_of (map loaded cs) in
    let types = stable_sort str_lt (integer_types (map loaded cs) []) in
    let m' = rename_types types (map loaded cs) [] in
    let m = rename_from pointer_arg_name 0 ps m' in
    let done : runtime_renaming sa ≡ ok m = rw (e, pointer_reprs-loaded cs) in
    elim (Bool-cases (is_pointer_type c.type)) [
      | inl y ↦
          let (k, here) = reprs_where-chosen is_pointer_component cs c among y in
          let place : get_elem? ps k ≡ some c.repr = rw (pointers_of-where cs) here in
          let apart : Apart ps =
            rw (pointers_of-where cs) (reprs_where-Apart is_pointer_component cs distinct) in
          (
            m,
            k,
            done,
            subst (λ ts. get_elem? ts k ≡ some c.repr) (sym (if-true _ _ y)) place,
            rename_from-get pointer_arg_name 0 ps m' k c.repr apart place
                ∙ (ap (indexed pointer_arg_name) (omega arith)
                    ∙ ap (λ name. indexed name k) (sym (if-true _ _ y))),
          )
      | inr n ↦
          let raw = raw_of c.type in
          let (k, here) =
            reprs_where-chosen (is_of_type raw) cs c among
              (if-false _ _ n ∙ (str_eq_iff raw raw).1 refl) in
          let place : get_elem? (reprs_of_type raw (map loaded cs)) k ≡ some c.repr =
            rw (reprs_of_type-where raw cs) here in
          let out : has_text c.repr ps ≡ false =
            rw (pointers_of-where cs)
              (reprs_where-excluded is_pointer_component cs c distinct among n) in
          let typed : has_text raw types ≡ true =
            has_text-stable_sort raw (integer_types (map loaded cs) [])
            ∙ integer_types-IsAmong cs c [] among n in
          let get = rename_types-get cs c distinct among types [] k n typed place in
          (
            m,
            k,
            done,
            subst (λ ts. get_elem? ts k ≡ some c.repr) (sym (if-false _ _ n)) place,
            rename_from-other pointer_arg_name 0 ps m' c.repr out
                ∙ (get ∙ ap (λ name. indexed name k) (sym (if-false _ _ n))),
          )
    ]
