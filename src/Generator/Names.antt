-- ===== src/Generator/Names.antt =====
-- repair/Synthesis.cpp: the names under which the generated runtime gets the values of variables.
use f1x.Prelude.{
  ℕ, suc, List, [], ◌∷◌, ◌++◌, map, Bool, true, false, String, ◌<>◌, to_string, Result, ok, err,
  Error, ◌>>=◌, if◌then◌else◌, str_lt, str_eq, stable_sort, add_text, text_lookup, text_insert,
  underscored,
}
use f1x.Core.{Location, SchemaApplication}
use f1x.Core.Expressions.{
  NodeKind, ExprType, Expression, node, Args, nil, cons, kind, type, raw_type, repr, kind_eq,
  is_integer,
}

-- `unordered_map<string, string>`
abbrev pub Renaming : Type 0
Renaming = List (String × String)

abbrev pub pointer_arg_name : String
pointer_arg_name = "__ptr_vals"

abbrev pub sizes_arg_name : String
sizes_arg_name = "__ptr_sizes"

abbrev pub nullderef_arg_name : String
nullderef_arg_name = "__nullderef"

-- `substituteWithRuntimeRepr`
unfoldable mutual
  unfolding text_lookup

  pub substitute_with_runtime_repr : Renaming → Expression → Expression
  substitute_with_runtime_repr m (node NodeKind.variable t o w r xs) =
      node NodeKind.variable t o w (text_lookup "" m r) xs
  substitute_with_runtime_repr m (node NodeKind.dereference t o w r xs) =
      node NodeKind.dereference t o w (text_lookup "" m r) xs
  substitute_with_runtime_repr m (node k t o w r xs) = node k t o w r (substitute_all m xs)

  pub substitute_all : Renaming → Args → Args
  substitute_all m nil = nil
  substitute_all m (cons x xs) = cons (substitute_with_runtime_repr m x) (substitute_all m xs)

-- `locationNameSuffix`
unfoldable pub location_name_suffix : Location → String
unfolding to_string
location_name_suffix loc =
    to_string loc.file_id
    <> "_"
    <> to_string loc.begin_line
    <> "_"
    <> to_string loc.begin_column
    <> "_"
    <> to_string loc.end_line
    <> "_"
    <> to_string loc.end_column

-- `argNameByNonPtrType`
unfoldable pub arg_name_by_non_ptr_type : String → String
unfolding underscored
arg_name_by_non_ptr_type type_name = "__" <> underscored type_name <> "_vals"

-- The distinct types of the integer components, in the order of their names.
unfoldable pub integer_types : List Expression → List String → List String
integer_types [] types = types
integer_types (c ∷ cs) types =
    integer_types cs (if is_integer (type c) then add_text types (raw_type c) else types)

unfoldable pub sorted_integer_types : List Expression → List String
unfolding integer_types stable_sort
sorted_integer_types components = stable_sort str_lt (integer_types components [])

unfoldable pub has_dereferences : List Expression → Bool
has_dereferences [] = false
has_dereferences (c ∷ cs) =
    let rest = has_dereferences cs in if kind_eq (kind c) NodeKind.dereference then true else rest

unfoldable pub has_pointers : List Expression → Bool
has_pointers [] = false
has_pointers (c ∷ cs) = let rest = has_pointers cs in if is_integer (type c) then rest else true

unfoldable pub join : String → List String → String
join separator [] = ""
join separator (s ∷ []) = s
join separator (s ∷ t ∷ rest) = s <> separator <> join separator (t ∷ rest)

-- `parameterList`
unfoldable pub parameter_list : SchemaApplication → String
unfolding sorted_integer_types has_dereferences has_pointers join arg_name_by_non_ptr_type
parameter_list sa = join ", " (
    map (λ t. t <> " " <> arg_name_by_non_ptr_type t <> "[]") (sorted_integer_types sa.components)
    ++ ((if has_pointers sa.components
          then ("void *" <> pointer_arg_name <> "[]") ∷ ("int " <> sizes_arg_name <> "[]") ∷ []
          else [])
        ++ (if has_dereferences sa.components
            then ("int " <> nullderef_arg_name <> "[]") ∷ []
            else [])))

-- The components of a type get the places of that type's array, in their order.
unfoldable pub indexed : String → ℕ → String
indexed name i = name <> "[" <> to_string i <> "]"

unfoldable pub rename_from : String → ℕ → List String → Renaming → Renaming
unfolding indexed text_insert
rename_from name i [] m = m
rename_from name i (r ∷ rs) m = rename_from name (suc i) rs (text_insert r (indexed name i) m)

unfoldable pub reprs_of_type : String → List Expression → List String
reprs_of_type t [] = []
reprs_of_type t (c ∷ cs) =
    let rest = reprs_of_type t cs in
    if is_integer (type c) then (if str_eq (raw_type c) t then repr c ∷ rest else rest) else rest

unfoldable pub rename_types : List String → List Expression → Renaming → Renaming
unfolding rename_from reprs_of_type arg_name_by_non_ptr_type
rename_types [] components m = m
rename_types (t ∷ ts) components m =
    rename_types ts components
      (rename_from (arg_name_by_non_ptr_type t) 0 (reprs_of_type t components) m)

-- The first loop: the pointers, or an exception for a component of another type.
unfoldable pub pointer_reprs : List Expression → Result (List String)
pointer_reprs [] = ok []
pointer_reprs (c ∷ cs) = do
  rest ← pointer_reprs cs
  elim (type c) [
    | ExprType.integer ↦ ok rest
    | ExprType.pointer ↦ ok (repr c ∷ rest)
    | _ ↦ err Error.invalid_argument
  ]

-- `runtimeRenaming`
unfoldable pub runtime_renaming : SchemaApplication → Result Renaming
unfolding pointer_reprs sorted_integer_types rename_types rename_from
runtime_renaming sa = do
  pointers ← pointer_reprs sa.components
  ok (
      rename_from pointer_arg_name 0 pointers
        (rename_types (sorted_integer_types sa.components) sa.components []))

-- `typeSizes`
unfoldable pub type_sizes : SchemaApplication → Renaming
unfolding rename_from
type_sizes sa = rename_from sizes_arg_name 0 sa.complete_pointee_types []

unfoldable pub dereferences : List Expression → List String → List String
dereferences [] found = found
dereferences (c ∷ cs) found =
    dereferences cs
      (if kind_eq (kind c) NodeKind.dereference then add_text found (repr c) else found)

-- `nullDerefCondition`
unfoldable pub null_deref_condition : SchemaApplication → Renaming → Renaming
unfolding rename_from dereferences stable_sort text_lookup
null_deref_condition sa m =
    rename_from nullderef_arg_name 0
      (map (text_lookup "" m) (stable_sort str_lt (dereferences sa.components []))) []
