-- ===== src/Transform/Arguments/Agree.antt =====
-- transform/TransformUtil.cpp with repair/Synthesis.cpp: the arguments of a call are the arrays that the
-- parameters of the generated function stand for, in their order.
use mathlib.Core.List.{map-append, map-map}
use f1x.Prelude.{
  ◌≡◌, refl, List, [], ◌∷◌, ◌++◌, map, Bool, true, false, not, Option, String, text_lookup,
  if◌then◌else◌, ok, arith, ap, ◌∙◌, fun_ext, ◌<>◌, stable_sort, str_lt,
}
use f1x.Core.{SchemaApplication}
use f1x.Loading.{Json}
use f1x.Generator.Names.{
  integer_types, dereferences, has_dereferences, has_pointers, reprs_of_type, join,
  sorted_integer_types, parameter_list,
}
use f1x.Transform.Documents.{JsonBuilder}
use f1x.Transform.Expressions.{Reads}
use f1x.Transform.Components.Made.{Component, component_document}
use f1x.Transform.Arguments.{
  Groups, no_groups, find_text, guarded, array_of, array_elements, value_arrays, pointer_arrays,
  null_arrays, make_argument_list,
}
use f1x.Transform.Arguments.Loop.{repr-document, group_components_lem}
use f1x.Transform.Arguments.Totals.{
  pointee_types, pointer_components, components_of, pointers_of-loaded, reprs_of_type-loaded,
  is_empty, sorted_dereferences-is_empty, pointer_components-is_empty, groups-types,
  groups-dereferences, groups-pointees, groups-pointers, groups-values, groups-base,
}
use f1x.Transform.Arguments.Layout.{
  Array, values, pointer_values, sizes, null_tests, parameter, base_text, argument, layout, loaded,
  base_in,
}
use f1x.Transform.Arguments.Grouping.{groups}

text_lookup-find_text :
    (r : String) (m : List (String × String)) → text_lookup "" m r ≡ base_text (find_text m r)
unfolding text_lookup
text_lookup-find_text r [] = refl
text_lookup-find_text r ((k, b) ∷ m) = ground (arith, text_lookup-find_text r m)

abbrev value_part : List Component → List Array
value_part cs =
    map (λ t. values t (reprs_of_type t (map loaded cs)))
      (stable_sort str_lt (integer_types (map loaded cs) []))

abbrev pointer_part : List Component → List Array
pointer_part cs =
    if is_empty (pointer_components cs)
    then []
    else pointer_values (map (λ c. c.repr) (pointer_components cs))
      ∷ sizes (stable_sort str_lt (pointee_types cs []))
      ∷ []

abbrev null_part : List Component → List Array
null_part cs =
    let ds = stable_sort str_lt (dereferences (map loaded cs) []) in
    if is_empty ds then [] else null_tests ds ∷ []

if-not {ℓ} :
    {A : Type ℓ} (b e : Bool) (x y : A) → e ≡ not b → (if b then x else y) ≡ (if e then y else x)
if-not b e x y h = ground arith

layout-loaded :
    (cs : List Component) (sa : SchemaApplication)
    → sa.components ≡ map loaded cs
    → sa.complete_pointee_types ≡ stable_sort str_lt (pointee_types cs [])
    → layout sa ≡ value_part cs ++ (pointer_part cs ++ null_part cs)
unfolding layout sorted_integer_types
layout-loaded cs sa e e' = rw (
  e,
  e',
  pointers_of-loaded cs,
  if-not (has_pointers (map loaded cs)) (is_empty (pointer_components cs))
      (pointer_values (map (λ c. c.repr) (pointer_components cs))
        ∷ sizes (stable_sort str_lt (pointee_types cs []))
        ∷ [])
      [] (pointer_components-is_empty cs),
  if-not (has_dereferences (map loaded cs))
      (is_empty (stable_sort str_lt (dereferences (map loaded cs) [])))
      (null_tests (stable_sort str_lt (dereferences (map loaded cs) [])) ∷ []) []
      (sorted_dereferences-is_empty (map loaded cs)),
)

map-if_singleton {ℓ κ} :
    {A : Type ℓ} {B : Type κ} (f : A → B) (b : Bool) (xs : List A)
    → map f (if b then xs else []) ≡ (if b then map f xs else [])
map-if_singleton f true xs = refl
map-if_singleton f false xs = refl

parameter_list-layout :
    (sa : SchemaApplication) → parameter_list sa ≡ join ", " (map parameter (layout sa))
unfolding parameter_list layout
parameter_list-layout sa = simp (
  map-append,
  map-map,
  map-if_singleton parameter (has_pointers sa.components),
  map-if_singleton parameter (has_dereferences sa.components),
)

module _ {J : Type 0} (json : Json J) (build : JsonBuilder J) (reads : Reads json build) where
  elements_lem :
      (null : String) (bases : List (String × String)) (base : String → Option String)
      → ((r : String) → find_text bases r ≡ base r)
      → (cs : List Component)
      → array_elements json null bases (map (component_document build) cs)
        ≡ ok (map (λ r. guarded null (base r) r) (map (λ c. c.repr) cs))
  unfolding array_elements
  elements_lem null bases base h [] = refl
  elements_lem null bases base h (c ∷ cs) =
      rw (repr-document json build reads c, elements_lem null bases base h cs, h c.repr)

  value_arrays_lem :
      (cs : List Component) (g : Groups J) (base : String → Option String)
      → ((r : String) → find_text g.base_of_dereference r ≡ base r)
      → ((t : String)
          → text_lookup [] g.types_to_values t
            ≡ map (component_document build) (components_of t cs))
      → (ts : List String)
      → value_arrays json g ts
        ≡ ok (map (argument base) (map (λ t. values t (reprs_of_type t (map loaded cs))) ts))
  unfolding value_arrays
  value_arrays_lem cs g base h k [] = refl
  value_arrays_lem cs g base h k (t ∷ ts) = rw (
    k t,
    elements_lem "0" g.base_of_dereference base h (components_of t cs),
    value_arrays_lem cs g base h k ts,
    reprs_of_type-loaded t cs,
  )

  pointer_arrays_lem :
      (ps : List Component) (g : Groups J) (base : String → Option String)
      → ((r : String) → find_text g.base_of_dereference r ≡ base r)
      → pointer_arrays json g (map (component_document build) ps)
        ≡ ok (
            map (argument base) (
              if is_empty ps
              then []
              else pointer_values (map (λ c. c.repr) ps)
                ∷ sizes (stable_sort str_lt g.complete_pointee_types)
                ∷ []))
  unfolding pointer_arrays
  pointer_arrays_lem [] g base h = refl
  pointer_arrays_lem (p ∷ ps) g base h =
      rw (elements_lem "(void*)0" g.base_of_dereference base h (p ∷ ps))

  null_arrays_lem :
      (ds : List String) (g : Groups J) (base : String → Option String)
      → ((r : String) → find_text g.base_of_dereference r ≡ base r)
      → null_arrays json g ds ≡ map (argument base) (if is_empty ds then [] else null_tests ds ∷ [])
  unfolding null_arrays
  null_arrays_lem [] g base h = refl
  null_arrays_lem (d ∷ ds) g base h =
      let same =
        fun_ext
          λ (r : String). text_lookup-find_text r g.base_of_dereference ∙ ap base_text (h r) in
      ap (λ (f : String → String). array_of "int" (map (λ r. "!" <> f r) (d ∷ ds)) ∷ []) same

  make_argument_list_parts :
      (cs : List Component)
      → make_argument_list json (map (component_document build) cs)
        ≡ ok (
            join ", "
              (map (argument (base_in cs)) (value_part cs ++ (pointer_part cs ++ null_part cs))))
  unfolding make_argument_list
  make_argument_list_parts cs =
      let g : Groups J = groups build cs no_groups in
      let base = λ (r : String). groups-base build r cs no_groups (λ k. refl) in
      rw (
        group_components_lem json build reads cs no_groups,
        value_arrays_lem cs g (base_in cs) base (λ t. groups-values build t cs no_groups)
            (stable_sort str_lt g.non_pointer_types),
        groups-pointers build cs no_groups,
        pointer_arrays_lem (pointer_components cs) g (base_in cs) base,
        null_arrays_lem (stable_sort str_lt g.dereferences) g (base_in cs) base,
        groups-types build cs no_groups,
        groups-dereferences build cs no_groups,
        groups-pointees build cs no_groups,
        map-append (argument (base_in cs)) (value_part cs) (pointer_part cs ++ null_part cs),
        map-append (argument (base_in cs)) (pointer_part cs) (null_part cs),
      )

  -- The argument list is computed.
  pub make_argument_list-ok :
      (cs : List Component)
      → (text : String) × (make_argument_list json (map (component_document build) cs) ≡ ok text)
  make_argument_list-ok cs = (_, make_argument_list_parts cs)

  -- For the documents of components, and an application with the components and the pointee
  -- types that the repair tool loads from them: makeArgumentList returns the arrays of the
  -- application, each one as an argument, and the parameters of the function that the repair
  -- tool generates are the same arrays in the same order, each one as a parameter.
  pub make_argument_list-parameter_list :
      (cs : List Component) (sa : SchemaApplication)
      → sa.components ≡ map loaded cs
      → sa.complete_pointee_types ≡ stable_sort str_lt (pointee_types cs [])
      → (make_argument_list json (map (component_document build) cs)
          ≡ ok (join ", " (map (argument (base_in cs)) (layout sa))))
        × (parameter_list sa ≡ join ", " (map parameter (layout sa)))
  make_argument_list-parameter_list cs sa e e' =
      (rw (layout-loaded cs sa e e') (make_argument_list_parts cs), parameter_list-layout sa)
