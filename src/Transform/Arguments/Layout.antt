-- ===== src/Transform/Arguments/Layout.antt =====
-- transform/TransformUtil.cpp with repair/Synthesis.cpp: the arrays of a schema application, as the
-- parameters of the generated function and as the arguments of its call.
use f1x.Prelude.{
  List, [], ◌∷◌, ◌++◌, map, Option, none, some, String, str_eq, ◌<>◌, if◌then◌else◌, str_lt,
  stable_sort,
}
use f1x.Core.Expressions.{NodeKind, Expression, is_integer, type, repr}
use f1x.Core.{SchemaApplication}
use f1x.Generator.Names.{
  pointer_arg_name, sizes_arg_name, nullderef_arg_name, arg_name_by_non_ptr_type, has_dereferences,
  has_pointers, sorted_integer_types, reprs_of_type, dereferences,
}
use f1x.Transform.Expressions.{leaf}
use f1x.Transform.Components.Made.{Component}
use f1x.Transform.Arguments.{guarded, array_of}

-- The values of a type, the pointers, the sizes of pointee types, and the tests of dereferenced
-- pointers.
pub data Array : Type 0 where
  values : String → List String → Array
  pointer_values : List String → Array
  sizes : List String → Array
  null_tests : List String → Array

-- The parameter of the generated function for an array
abbrev pub parameter : Array → String
parameter (values t rs) = t <> " " <> arg_name_by_non_ptr_type t <> "[]"
parameter (pointer_values rs) = "void *" <> pointer_arg_name <> "[]"
parameter (sizes ts) = "int " <> sizes_arg_name <> "[]"
parameter (null_tests rs) = "int " <> nullderef_arg_name <> "[]"

abbrev pub base_text : Option String → String
base_text none = ""
base_text (some b) = b

-- The argument of the call for an array, where `base` gives the pointers of dereferences.
abbrev pub argument : (String → Option String) → Array → String
argument base (values t rs) = array_of t (map (λ r. guarded "0" (base r) r) rs)
argument base (pointer_values rs) = array_of "void*" (map (λ r. guarded "(void*)0" (base r) r) rs)
argument base (sizes ts) = array_of "int" (map (λ t. "sizeof(" <> t <> ")") ts)
argument base (null_tests rs) = array_of "int" (map (λ r. "!" <> base_text (base r)) rs)

unfoldable pub pointers_of : List Expression → List String
pointers_of [] = []
pointers_of (c ∷ cs) =
    let rest = pointers_of cs in if is_integer (type c) then rest else repr c ∷ rest

-- The arrays of a loaded application, from its components and pointee types
unfoldable pub layout : SchemaApplication → List Array
layout sa =
    map (λ t. values t (reprs_of_type t sa.components)) (sorted_integer_types sa.components)
    ++ ((if has_pointers sa.components
          then pointer_values (pointers_of sa.components) ∷ sizes sa.complete_pointee_types ∷ []
          else [])
        ++ (if has_dereferences sa.components
            then null_tests (stable_sort str_lt (dereferences sa.components [])) ∷ []
            else []))

-- The expression that the repair tool loads for a component
abbrev pub loaded : Component → Expression
loaded c =
    leaf (elim c.base [ none ↦ NodeKind.variable | some b ↦ NodeKind.dereference ]) c.type c.repr

abbrev pub or_else {ℓ} : {A : Type ℓ} → Option A → Option A → Option A
or_else none later = later
or_else (some a) later = some a

abbrev pub base_here : Option String → String → String → Option String
base_here none key r = none
base_here (some b) key r = if str_eq key r then some b else none

-- The pointer of a dereference, from the first component with its text
abbrev pub base_in : List Component → String → Option String
base_in [] r = none
base_in (c ∷ cs) r = or_else (base_here c.base c.repr r) (base_in cs r)
