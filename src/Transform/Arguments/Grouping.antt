-- ===== src/Transform/Arguments/Grouping.antt =====
-- transform/TransformUtil.cpp: what the loop of `makeArgumentList` has grouped after some components.
use f1x.Prelude.{
  ◌≡◌, List, [], ◌∷◌, ◌++◌, Bool, true, false, not, ◌&&◌, Option, none, some, String, str_eq,
  str_eq_iff, has_text, add_text, text_lookup, text_insert, if◌then◌else◌, arith, inl, inr,
  Bool-cases,
}
use f1x.Core.Expressions.{NodeKind, kind_eq, kind, type, raw_type, repr, is_integer}
use f1x.Transform.Types.{is_pointer_type, get_pointee_type}
use f1x.Transform.Documents.{JsonBuilder}
use f1x.Transform.Expressions.{raw_of}
use f1x.Transform.Components.Made.{Component, component_document}
use f1x.Transform.Arguments.{Groups, find_text}
use f1x.Transform.Arguments.Layout.{loaded, or_else, base_here}

abbrev pub is_complete_pointer : Component → Bool
is_complete_pointer c = is_pointer_type c.type && not (get_pointee_type c.type).1

abbrev pub is_some {ℓ} : {A : Type ℓ} → Option A → Bool
is_some none = false
is_some (some a) = true

-- The dereferences are those that have a base.
abbrev pub IsKeyed : {J : Type 0} → Groups J → Type 0
IsKeyed g = (r : String) → has_text r g.dereferences ≡ is_some (find_text g.base_of_dereference r)

text_lookup-insert {ℓ} :
    {V : Type ℓ} (missing v : V) (k j : String) (m : List (String × V))
    → text_lookup missing (text_insert k v m) j
      ≡ (if str_eq k j then v else text_lookup missing m j)
unfolding text_lookup text_insert
text_lookup-insert missing v k j [] = ground arith
text_lookup-insert missing v k j ((i, w) ∷ m) =
    ground
      (arith, str_eq_iff k j, str_eq_iff i k, str_eq_iff i j, text_lookup-insert missing v k j m)

find_text-insert :
    (v : String) (k j : String) (m : List (String × String))
    → find_text (text_insert k v m) j ≡ (if str_eq k j then some v else find_text m j)
unfolding text_insert
find_text-insert v k j [] = ground arith
find_text-insert v k j ((i, w) ∷ m) =
    ground (arith, str_eq_iff k j, str_eq_iff i k, str_eq_iff i j, find_text-insert v k j m)

pub has_text-add :
    (r k : String) (ts : List String)
    → has_text r (ts ++ k ∷ []) ≡ (if has_text r ts then true else str_eq k r)
has_text-add r k [] = ground arith
has_text-add r k (t ∷ ts) = ground (arith, has_text-add r k ts)

module _ {J : Type 0} (build : JsonBuilder J) where
  -- The groups after a component
  abbrev pub with_base : Option String → String → Groups J → Groups J
  with_base none r g = g
  with_base (some b) r g = if has_text r g.dereferences then g else record g {
    dereferences = g.dereferences ++ r ∷ [];
    base_of_dereference = text_insert r b g.base_of_dereference;
  }

  unfoldable pub with_kind : Component → Groups J → Groups J
  with_kind c g = with_base c.base c.repr g

  unfoldable pub with_pointer : Component → Groups J → Groups J
  with_pointer c g =
      if (get_pointee_type c.type).1
      then record g { pointers = g.pointers ++ component_document build c ∷ [] }
      else record g {
        pointers = g.pointers ++ component_document build c ∷ [];
        complete_pointee_types = add_text g.complete_pointee_types (raw_of c.type);
      }

  unfoldable pub with_value : Component → Groups J → Groups J
  with_value c g = record g {
    non_pointer_types = add_text g.non_pointer_types (raw_of c.type);
    types_to_values =
        text_insert (raw_of c.type)
          (text_lookup [] g.types_to_values (raw_of c.type) ++ component_document build c ∷ [])
          g.types_to_values;
  }

  unfoldable pub with_component : Component → Groups J → Groups J
  with_component c g =
      if is_pointer_type c.type
      then with_pointer c (with_kind c g)
      else with_value c (with_kind c g)

  unfoldable pub groups : List Component → Groups J → Groups J
  groups [] g = g
  groups (c ∷ cs) g = groups cs (with_component c g)

  pub types-step :
      (c : Component) (g : Groups J)
      → (with_component c g).non_pointer_types ≡ (
          if is_integer (type (loaded c))
          then add_text g.non_pointer_types (raw_type (loaded c))
          else g.non_pointer_types)
  unfolding with_component with_kind with_pointer with_value
  types-step c g = ground arith

  pub dereferences-step :
      (c : Component) (g : Groups J)
      → (with_component c g).dereferences ≡ (
          if kind_eq (kind (loaded c)) NodeKind.dereference
          then add_text g.dereferences (repr (loaded c))
          else g.dereferences)
  unfolding with_component with_kind with_pointer with_value
  dereferences-step c g = ground arith

  pub pointees-step :
      (c : Component) (g : Groups J)
      → (with_component c g).complete_pointee_types ≡ (
          if is_complete_pointer c
          then add_text g.complete_pointee_types (raw_of c.type)
          else g.complete_pointee_types)
  unfolding with_component with_kind with_pointer with_value
  pointees-step c g = ground arith

  pub pointers-step :
      (c : Component) (g : Groups J)
      → (with_component c g).pointers ≡ (
          if is_pointer_type c.type
          then g.pointers ++ component_document build c ∷ []
          else g.pointers)
  unfolding with_component with_kind with_pointer with_value
  pointers-step c g = ground arith

  with_kind-values :
      (c : Component) (g : Groups J) → (with_kind c g).types_to_values ≡ g.types_to_values
  unfolding with_kind
  with_kind-values c g = ground arith

  with_pointer-values :
      (c : Component) (g : Groups J) → (with_pointer c g).types_to_values ≡ g.types_to_values
  unfolding with_pointer
  with_pointer-values c g = ground arith

  with_value-values :
      (t : String) (c : Component) (g : Groups J)
      → text_lookup [] (with_value c g).types_to_values t ≡ (
          if str_eq (raw_of c.type) t
          then text_lookup [] g.types_to_values t ++ component_document build c ∷ []
          else text_lookup [] g.types_to_values t)
  unfolding with_value
  with_value-values t c g =
      let raw = raw_of c.type in
      rw
        (text_lookup-insert []
          (text_lookup [] g.types_to_values raw ++ component_document build c ∷ []) raw t
          g.types_to_values)
        (elim (Bool-cases (str_eq raw t)) [ inl e ↦ rw (e, (str_eq_iff raw t).0 e) | inr e ↦ rw e ])

  pub values-step :
      (t : String) (c : Component) (g : Groups J)
      → text_lookup [] (with_component c g).types_to_values t ≡ (
          if is_pointer_type c.type
          then text_lookup [] g.types_to_values t
          else if str_eq (raw_of c.type) t
          then text_lookup [] g.types_to_values t ++ component_document build c ∷ []
          else text_lookup [] g.types_to_values t)
  unfolding with_component
  values-step t c g = elim (Bool-cases (is_pointer_type c.type)) [
    | inl e ↦ rw (e, with_pointer-values c (with_kind c g), with_kind-values c g)
    | inr e ↦ ground (arith, with_value-values t c (with_kind c g), with_kind-values c g)
  ]

  with_component-base :
      (c : Component) (g : Groups J)
      → ((with_component c g).base_of_dereference ≡ (with_kind c g).base_of_dereference)
        × ((with_component c g).dereferences ≡ (with_kind c g).dereferences)
  unfolding with_component with_pointer with_value
  with_component-base c g = (ground arith, ground arith)

  with_base-find :
      (b : Option String) (k r : String) (g : Groups J)
      → IsKeyed g
      → find_text (with_base b k g).base_of_dereference r
        ≡ or_else (find_text g.base_of_dereference r) (base_here b k r)
  with_base-find none k r g h = ground arith
  with_base-find (some b) k r g h =
      ground (arith, h k, str_eq_iff k r, find_text-insert b k r g.base_of_dereference)

  pub base-step :
      (r : String) (c : Component) (g : Groups J)
      → IsKeyed g
      → find_text (with_component c g).base_of_dereference r
        ≡ or_else (find_text g.base_of_dereference r) (base_here c.base c.repr r)
  unfolding with_kind
  base-step r c g h = rw ((with_component-base c g).0) (with_base-find c.base c.repr r g h)

  with_base-IsKeyed :
      (b : Option String) (k : String) (g : Groups J) → IsKeyed g → IsKeyed (with_base b k g)
  with_base-IsKeyed none k g h r = h r
  with_base-IsKeyed (some b) k g h r = ground (
    arith,
    h k,
    h r,
    str_eq_iff k r,
    find_text-insert b k r g.base_of_dereference,
    has_text-add r k g.dereferences,
  )

  pub with_component-IsKeyed :
      (c : Component) (g : Groups J) → IsKeyed g → IsKeyed (with_component c g)
  unfolding with_kind
  with_component-IsKeyed c g h r =
      rw ((with_component-base c g).0, (with_component-base c g).1)
        (with_base-IsKeyed c.base c.repr g h r)
