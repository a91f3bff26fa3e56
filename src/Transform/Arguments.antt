-- ===== src/Transform/Arguments.antt =====
-- transform/TransformUtil.cpp: `makeArgumentList`, the arrays that a call of a generated function
-- gets. Elements and arrays are joined by commas, which is what the flags for the first one do.
pub mod Layout
pub mod Grouping
pub mod Totals
pub mod Loop
pub mod Agree
pub mod Renamed
pub mod Read
use f1x.Prelude.{
  List, [], ◌∷◌, ◌++◌, Bool, true, false, not, Option, none, some, String, str_eq, str_lt, ◌<>◌,
  if◌then◌else◌, Result, ok, ◌>>=◌, stable_sort, has_text, add_text, text_lookup, text_insert, map,
}
use f1x.Loading.{Json, text_of_member, flag_of_member}
use f1x.Generator.Names.{join}

-- The local variables of the function; the maps by their entries.
pub record Groups (J : Type 0) : Type 0 where
  pub types_to_values : List (String × List J)
  pub pointers : List J
  pub complete_pointee_types : List String
  pub non_pointer_types : List String
  pub dereferences : List String
  pub base_of_dereference : List (String × String)

abbrev pub no_groups : {J : Type 0} → Groups J
no_groups = record {
  types_to_values = [];
  pointers = [];
  complete_pointee_types = [];
  non_pointer_types = [];
  dereferences = [];
  base_of_dereference = [];
}

-- `count` and `operator[]` on the bases of dereferences
abbrev pub find_text : List (String × String) → String → Option String
find_text [] name = none
find_text ((key, b) ∷ rest) name =
    let later = find_text rest name in if str_eq key name then some b else later

-- A value; in a dereference, only if the pointer is not null.
unfoldable pub guarded : String → Option String → String → String
guarded null none r = r
guarded null (some b) r = "(!" <> b <> " ? " <> null <> " : " <> r <> ")"

unfoldable pub array_of : String → List String → String
array_of type array_elements = "(" <> type <> "[]){" <> join ", " array_elements <> "}"

module _ {J : Type 0} (json : Json J) where
  -- `if (kind == "dereference")`
  unfoldable pub add_dereference : J → Groups J → Result (Groups J)
  add_dereference c g = do
    r ← text_of_member json c "repr"
    if has_text r g.dereferences
        then ok g
        else (text_of_member json c "base" >>= λ base. ok (record g {
          dereferences = g.dereferences ++ r ∷ [];
          base_of_dereference = text_insert r base g.base_of_dereference;
        }))

  -- `if (type == "pointer")`
  unfoldable pub add_pointer : J → Groups J → Result (Groups J)
  add_pointer c g = do
    incomplete ← flag_of_member json c "incomplete"
    if incomplete
        then ok (record g { pointers = g.pointers ++ c ∷ [] })
        else (text_of_member json c "rawType" >>= λ raw. ok (record g {
          pointers = g.pointers ++ c ∷ [];
          complete_pointee_types = add_text g.complete_pointee_types raw;
        }))

  unfoldable pub add_value : J → Groups J → Result (Groups J)
  add_value c g = do
    raw ← text_of_member json c "rawType"
    ok (record g {
      non_pointer_types = add_text g.non_pointer_types raw;
      types_to_values =
          text_insert raw (text_lookup [] g.types_to_values raw ++ c ∷ []) g.types_to_values;
    })

  -- The loop over the components
  unfoldable pub group_components : List J → Groups J → Result (Groups J)
  unfolding add_dereference add_pointer add_value
  group_components [] g = ok g
  group_components (c ∷ cs) g = do
    kind ← text_of_member json c "kind"
    g ← (if str_eq kind "dereference" then add_dereference c g else ok g)
    type ← text_of_member json c "type"
    g ← (if str_eq type "pointer" then add_pointer c g else add_value c g)
    group_components cs g

  unfoldable pub array_elements : String → List (String × String) → List J → Result (List String)
  unfolding guarded
  array_elements null bases [] = ok []
  array_elements null bases (c ∷ cs) = do
    r ← text_of_member json c "repr"
    rest ← array_elements null bases cs
    ok (guarded null (find_text bases r) r ∷ rest)

  -- An array for each type
  unfoldable pub value_arrays : Groups J → List String → Result (List String)
  unfolding array_elements array_of
  value_arrays g [] = ok []
  value_arrays g (t ∷ ts) = do
    es ← array_elements "0" g.base_of_dereference (text_lookup [] g.types_to_values t)
    rest ← value_arrays g ts
    ok (array_of t es ∷ rest)

  unfoldable pub pointer_arrays : Groups J → List J → Result (List String)
  unfolding array_elements array_of stable_sort
  pointer_arrays g [] = ok []
  pointer_arrays g (p ∷ ps) = do
    es ← array_elements "(void*)0" g.base_of_dereference (p ∷ ps)
    ok (
        array_of "void*" es
        ∷ array_of "int"
            (map (λ t. "sizeof(" <> t <> ")") (stable_sort str_lt g.complete_pointee_types))
        ∷ [])

  unfoldable pub null_arrays : Groups J → List String → List String
  unfolding array_of text_lookup
  null_arrays g [] = []
  null_arrays g (d ∷ ds) =
      array_of "int" (map (λ r. "!" <> text_lookup "" g.base_of_dereference r) (d ∷ ds)) ∷ []

  -- `makeArgumentList`
  unfoldable pub make_argument_list : List J → Result String
  unfolding group_components value_arrays pointer_arrays null_arrays join stable_sort
  make_argument_list components = do
    g ← group_components components no_groups
    values ← value_arrays g (stable_sort str_lt g.non_pointer_types)
    pointers ← pointer_arrays g g.pointers
    ok (join ", " (values ++ (pointers ++ null_arrays g (stable_sort str_lt g.dereferences))))
