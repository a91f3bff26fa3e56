-- ===== src/Transform/Arguments/Totals.antt =====
-- transform/TransformUtil.cpp: what the loop of `makeArgumentList` has grouped at its end.
use mathlib.Core.List.{append-nil, append_assoc}
use f1x.Prelude.{
  ◌≡◌, refl, List, [], ◌∷◌, ◌++◌, map, Bool, true, false, not, ◌&&◌, str_lt, stable_sort, insert_by,
  Option, none, some, String, str_eq, add_text, text_lookup, if◌then◌else◌, arith, inl, inr,
  Bool-cases, ap, sym, ◌∙◌,
}
use f1x.Core.Expressions.{Expression, NodeKind, kind, kind_eq, repr}
use f1x.Generator.Names.{integer_types, dereferences, has_dereferences, has_pointers, reprs_of_type}
use f1x.Transform.Types.{is_pointer_type}
use f1x.Transform.Documents.{JsonBuilder}
use f1x.Transform.Expressions.{raw_of}
use f1x.Transform.Components.Made.{Component, component_document}
use f1x.Transform.Arguments.{Groups, find_text}
use f1x.Transform.Arguments.Layout.{loaded, or_else, base_here, base_in, pointers_of}
use f1x.Transform.Arguments.Grouping.{
  IsKeyed, is_complete_pointer, with_component, groups, types-step, dereferences-step,
  pointees-step, pointers-step, values-step, base-step, with_component-IsKeyed,
}

-- The pointee types of the complete pointers
unfoldable pub pointee_types : List Component → List String → List String
pointee_types [] types = types
pointee_types (c ∷ cs) types =
    pointee_types cs (if is_complete_pointer c then add_text types (raw_of c.type) else types)

unfoldable pub pointer_components : List Component → List Component
pointer_components [] = []
pointer_components (c ∷ cs) =
    let rest = pointer_components cs in if is_pointer_type c.type then c ∷ rest else rest

unfoldable pub components_of : String → List Component → List Component
components_of t [] = []
components_of t (c ∷ cs) =
    let rest = components_of t cs in
    if is_pointer_type c.type then rest else if str_eq (raw_of c.type) t then c ∷ rest else rest

pub pointers_of-loaded :
    (cs : List Component) → pointers_of (map loaded cs) ≡ map (λ c. c.repr) (pointer_components cs)
unfolding pointers_of pointer_components
pointers_of-loaded [] = refl
pointers_of-loaded (c ∷ cs) = ground (arith, pointers_of-loaded cs)

pub reprs_of_type-loaded :
    (t : String) (cs : List Component)
    → reprs_of_type t (map loaded cs) ≡ map (λ c. c.repr) (components_of t cs)
unfolding reprs_of_type components_of
reprs_of_type-loaded t [] = refl
reprs_of_type-loaded t (c ∷ cs) = ground (arith, reprs_of_type-loaded t cs)

or_else_assoc {ℓ} :
    {A : Type ℓ} (a b c : Option A) → or_else (or_else a b) c ≡ or_else a (or_else b c)
or_else_assoc none b c = refl
or_else_assoc (some a) b c = refl

or_else-none {ℓ} : {A : Type ℓ} (a : Option A) → or_else a none ≡ a
or_else-none none = refl
or_else-none (some a) = refl

-- Nothing is dereferenced, or no component is a pointer, exactly where the lists are empty.
abbrev pub is_empty {ℓ} : {A : Type ℓ} → List A → Bool
is_empty [] = true
is_empty (x ∷ xs) = false

add_text-is_empty : (ts : List String) (s : String) → is_empty (add_text ts s) ≡ false
add_text-is_empty [] s = refl
add_text-is_empty (t ∷ ts) s = ground arith

dereferences-is_empty :
    (cs : List Expression) (found : List String)
    → is_empty (dereferences cs found) ≡ (is_empty found && not (has_dereferences cs))
unfolding dereferences has_dereferences
dereferences-is_empty [] found = ground arith
dereferences-is_empty (c ∷ cs) found = elim (Bool-cases (kind_eq (kind c) NodeKind.dereference)) [
  | inl e ↦ rw e (
      ground (
        arith,
        dereferences-is_empty cs (add_text found (repr c)),
        add_text-is_empty found (repr c),
      ))
  | inr e ↦ rw e (dereferences-is_empty cs found)
]

insert_by-is_empty {ℓ} :
    {A : Type ℓ} (lt : A → A → Bool) (x : A) (xs : List A) → is_empty (insert_by lt x xs) ≡ false
unfolding insert_by
insert_by-is_empty lt x [] = refl
insert_by-is_empty lt x (y ∷ ys) = ground arith

stable_sort-is_empty {ℓ} :
    {A : Type ℓ} (lt : A → A → Bool) (xs : List A) → is_empty (stable_sort lt xs) ≡ is_empty xs
unfolding stable_sort
stable_sort-is_empty lt [] = refl
stable_sort-is_empty lt (x ∷ xs) = insert_by-is_empty lt x (stable_sort lt xs)

pub sorted_dereferences-is_empty :
    (cs : List Expression)
    → is_empty (stable_sort str_lt (dereferences cs [])) ≡ not (has_dereferences cs)
sorted_dereferences-is_empty cs =
    stable_sort-is_empty str_lt (dereferences cs []) ∙ dereferences-is_empty cs []

pub pointer_components-is_empty :
    (cs : List Component) → is_empty (pointer_components cs) ≡ not (has_pointers (map loaded cs))
unfolding pointer_components has_pointers
pointer_components-is_empty [] = refl
pointer_components-is_empty (c ∷ cs) = ground (arith, pointer_components-is_empty cs)

module _ {J : Type 0} (build : JsonBuilder J) where
  pub groups-types :
      (cs : List Component) (g : Groups J)
      → (groups build cs g).non_pointer_types ≡ integer_types (map loaded cs) g.non_pointer_types
  unfolding groups integer_types
  groups-types [] g = refl
  groups-types (c ∷ cs) g =
      groups-types cs (with_component build c g)
      ∙ ap (integer_types (map loaded cs)) (types-step build c g)

  pub groups-dereferences :
      (cs : List Component) (g : Groups J)
      → (groups build cs g).dereferences ≡ dereferences (map loaded cs) g.dereferences
  unfolding groups dereferences
  groups-dereferences [] g = refl
  groups-dereferences (c ∷ cs) g =
      groups-dereferences cs (with_component build c g)
      ∙ ap (dereferences (map loaded cs)) (dereferences-step build c g)

  pub groups-pointees :
      (cs : List Component) (g : Groups J)
      → (groups build cs g).complete_pointee_types ≡ pointee_types cs g.complete_pointee_types
  unfolding groups pointee_types
  groups-pointees [] g = refl
  groups-pointees (c ∷ cs) g =
      groups-pointees cs (with_component build c g)
      ∙ ap (pointee_types cs) (pointees-step build c g)

  pub groups-pointers :
      (cs : List Component) (g : Groups J)
      → (groups build cs g).pointers
        ≡ g.pointers ++ map (component_document build) (pointer_components cs)
  unfolding groups pointer_components
  groups-pointers [] g = sym (append-nil g.pointers)
  groups-pointers (c ∷ cs) g =
      groups-pointers cs (with_component build c g) ∙ (elim (Bool-cases (is_pointer_type c.type)) [
        | inl e ↦
            rw (pointers-step build c g, e)
              (append_assoc g.pointers (component_document build c ∷ [])
                (map (component_document build) (pointer_components cs)))
        | inr e ↦ rw (pointers-step build c g, e)
      ])

  pub groups-values :
      (t : String) (cs : List Component) (g : Groups J)
      → text_lookup [] (groups build cs g).types_to_values t
        ≡ text_lookup [] g.types_to_values t ++ map (component_document build) (components_of t cs)
  unfolding groups components_of
  groups-values t [] g = sym (append-nil _)
  groups-values t (c ∷ cs) g =
      groups-values t cs (with_component build c g)
      ∙ rw (values-step build t c g) (
          ground (
            arith,
            append_assoc (text_lookup [] g.types_to_values t) (component_document build c ∷ [])
                (map (component_document build) (components_of t cs)),
          ))

  pub groups-base :
      (r : String) (cs : List Component) (g : Groups J)
      → IsKeyed g
      → find_text (groups build cs g).base_of_dereference r
        ≡ or_else (find_text g.base_of_dereference r) (base_in cs r)
  unfolding groups
  groups-base r [] g h = sym (or_else-none (find_text g.base_of_dereference r))
  groups-base r (c ∷ cs) g h =
      groups-base r cs (with_component build c g) (with_component-IsKeyed build c g h)
      ∙ rw (base-step build r c g h) (
          or_else_assoc (find_text g.base_of_dereference r) (base_here c.base c.repr r)
            (base_in cs r))
