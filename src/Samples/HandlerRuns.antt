-- ===== src/Samples/HandlerRuns.antt =====
-- Runs of the handlers of the source transformation, transform/SchemaApplication.cpp and
-- transform/PatchApplication.cpp, on the function of the runs on documents.
use f1x.Prelude.{
  get_elem?, text_lookup, ℕ, zero, suc, ◌+◌, ◌*◌, ◌/◌, ◌%◌, ◌<◌, ◌≤◌, ◌≡◌, refl, List, [], ◌∷◌,
  ◌++◌, map, All, length, Bool, true, false, Option, none, some, String, Result, ok, arith, inl,
  inr, stable_sort, str_lt, subst, ap,
}
use f1x.Core.{Location, SchemaApplication, TransformationSchema, LocationContext}
use f1x.Core.Expressions.{true_node}
use f1x.Loading.{load_sa_file}
use f1x.Profiler.{covers}
use f1x.Generator.Names.{join, parameter_list, Renaming, runtime_renaming, indexed}
use f1x.Transform.Arguments.Read.{array_texts, array_name, runtime_renaming-place}
use f1x.Transform.Clang.{DynNode, statement, SourceManager}
use f1x.Transform.Documents.{JsonBuilder}
use f1x.Transform.Expressions.{expression_of}
use f1x.Transform.Settings.{TransformConfig, value_limit}
use f1x.Transform.Components.{collect_from_expression, collect_visible, collect_components}
use f1x.Transform.Components.Visible.{IsBlock, IsRanked}
use f1x.Transform.Components.Made.{Component, component_document}
use f1x.Transform.Components.Distinct.{has_repr, AreDistinct, IsAmong, collect_components-distinct}
use f1x.Transform.Arguments.{make_argument_list}
use f1x.Transform.Arguments.Layout.{parameter, argument, layout, loaded, base_in}
use f1x.Transform.Arguments.Totals.{pointee_types}
use f1x.Transform.Arguments.Agree.{make_argument_list-parameter_list}
use f1x.Transform.Schema.{
  State, Match, expression_match, guard_match, is_interesting_location, location_text,
  transform_file,
}
use f1x.Transform.Recorded.{HasIds, AreApart, locations, AreMatches}
use f1x.Transform.Pipeline.{transform_file-load_sa_file}
use f1x.Transform.Steps.{IsPlaced, IsMatch}
use f1x.Transform.Places.{current_location}
use f1x.Transform.Eventually.{statements, transform_file-eventually}
use f1x.Transform.Patch.{apply_all}
use f1x.Transform.Patch.Once.{first_patch_edits, apply_all-first}
use f1x.Samples.TransformRuns.{
  Value, json, build, reads, int_type, struct_pointer, condition, call_f, address_of, parent_of,
  parents,
}

address_falls : (k : ℕ) (p : DynNode) (ps : List DynNode) → parent_of k ≡ p ∷ ps → address_of p < k
address_falls zero p ps e = cc e
address_falls (suc zero) p ps e = ground (arith, e)
address_falls (suc (suc zero)) p ps e = ground (arith, e)
address_falls (suc (suc (suc zero))) p ps e = ground (arith, e)
address_falls (suc (suc (suc (suc zero)))) p ps e = ground (arith, e)
address_falls (suc (suc (suc (suc (suc zero))))) p ps e = ground (arith, e)
address_falls (suc (suc (suc (suc (suc (suc k)))))) p ps e = cc e

head_of : DynNode → List DynNode → DynNode
head_of n [] = n
head_of n (p ∷ ps) = p

parent-IsBlock : (k : ℕ) (p : DynNode) (ps : List DynNode) → parent_of k ≡ p ∷ ps → IsBlock p
unfolding head_of
parent-IsBlock zero p ps e = cc e
parent-IsBlock (suc zero) p ps e = subst IsBlock (ap (head_of p) e) tt
parent-IsBlock (suc (suc zero)) p ps e = subst IsBlock (ap (head_of p) e) tt
parent-IsBlock (suc (suc (suc zero))) p ps e = subst IsBlock (ap (head_of p) e) (tt, (tt, tt))
parent-IsBlock (suc (suc (suc (suc zero)))) p ps e = subst IsBlock (ap (head_of p) e) tt
parent-IsBlock (suc (suc (suc (suc (suc zero))))) p ps e = subst IsBlock (ap (head_of p) e) tt
parent-IsBlock (suc (suc (suc (suc (suc (suc k)))))) p ps e = cc e

ranked : IsRanked parents address_of
ranked = record {
  falls = λ n p ps e. address_falls (address_of n) p ps e;
  blocks = λ n p ps e. parent-IsBlock (address_of n) p ps e;
}

abbrev manager : SourceManager
manager = record {
  is_macro = λ a. false;
  expansion_range = λ a. (a, a);
  line = λ a. a / 100;
  column = λ a. a % 100;
  in_main_file = λ a. true;
  is_before = λ a b. false;
  at_start_of_macro = λ a. false;
  at_end_of_macro = λ a. false;
  character_data = λ a. [];
  range_size = λ r. 4;
}

abbrev settings : TransformConfig
settings = record {
  file_id = 0;
  from_line = 0;
  to_line = 0;
  profile_file = "profile";
  output_file = "applications.json";
  begin_line = 3;
  begin_column = 5;
  end_line = 3;
  end_column = 12;
  patch = "x >= p->v";
  base_app_id = 1;
  use_global_variables = false;
  add_guards = true;
  inplace_modification = true;
}

collect_components-distinct_example :
    (from visible cs : List Component) × (collect_from_expression build false false condition
      ≡ ok (map (component_document build) from))
    × (collect_visible build manager 3 false parents 6 (statement condition)
        ≡ ok (map (component_document build) visible))
    × (collect_components build manager 3 json false parents 6 condition
        ≡ ok (map (component_document build) cs))
    × AreDistinct cs
    × All (λ c. has_repr c.repr cs ≡ true) (from ++ visible)
    × All (IsAmong (from ++ visible)) cs
collect_components-distinct_example =
    collect_components-distinct json build reads manager 3 false parents address_of ranked 6
      condition tt (omega arith)

abbrev components : List Component
components =
    record { base = none; type = int_type; repr = "x" }
    ∷ record { base = some "p"; type = int_type; repr = "p->v" }
    ∷ record { base = none; type = struct_pointer; repr = "p" }
    ∷ []

abbrev application : SchemaApplication
application = record {
  id = 1;
  schema = TransformationSchema.expression;
  location = record {
    file_id = 0;
    begin_line = 3;
    begin_column = 5;
    end_line = 3;
    end_column = 12;
  };
  context = LocationContext.condition;
  original = true_node;
  components = map loaded components;
  complete_pointee_types = stable_sort str_lt (pointee_types components []);
}

arguments_text :
    make_argument_list json (map (component_document build) components)
    ≡ ok "(int[]){x, (!p ? 0 : p->v)}, (void*[]){p}, (int[]){sizeof(struct S)}, (int[]){!p}"
unfolding make_argument_list component_document f1x.Transform.Documents.variable_document
    f1x.Transform.Documents.type_members f1x.Transform.Types.is_pointer_type
    f1x.Transform.Documents.dereference_document f1x.Transform.Types.get_pointee_type
    f1x.Transform.Types.clang_kind_to_string f1x.Transform.Types.get_builtin_kind
    f1x.Prelude.text_insert
arguments_text = refl

make_argument_list-parameter_list_example :
    (make_argument_list json (map (component_document build) components)
      ≡ ok (join ", " (map (argument (base_in components)) (layout application))))
    × (parameter_list application ≡ join ", " (map parameter (layout application)))
make_argument_list-parameter_list_example =
    make_argument_list-parameter_list json build reads components application refl refl

abbrev pointed : Component
pointed = record { base = some "p"; type = int_type; repr = "p->v" }

runtime_renaming-place_example :
    (m : Renaming) × (k : ℕ) × (runtime_renaming application ≡ ok m)
    × (get_elem? (array_texts components pointed) k ≡ some "p->v")
    × (text_lookup "" m "p->v" ≡ indexed (array_name pointed) k)
runtime_renaming-place_example =
    runtime_renaming-place components pointed application (refl, (refl, (refl, tt)))
      (inr (inl refl)) refl

abbrev matches : List Match
matches = expression_match condition ∷ guard_match call_f ∷ expression_match condition ∷ []

abbrev start : State Value
start = record { already_matched = []; base_app_id = 1; schema_applications = []; edits = [] }

abbrev profile : List String
profile = "0 3 5 3 12" ∷ []

condition-IsPlaced :
    IsPlaced json build reads settings manager parents address_of ranked 5 profile condition
unfolding current_location
condition-IsPlaced =
    ((omega arith, omega arith, omega arith, omega arith, omega arith), tt, omega arith)

call-IsPlaced :
    IsPlaced json build reads settings manager parents address_of ranked 5 profile call_f
unfolding current_location
call-IsPlaced = ((omega arith, omega arith, omega arith, omega arith, omega arith), tt, omega arith)

condition-IsMatch :
    IsMatch json build reads settings manager parents address_of ranked 5 profile
      (expression_match condition)
unfolding expression_of f1x.Util.Operators.binary_operator_by_string f1x.Typing.operator_output_type
    f1x.Transform.Types.is_pointer_type
condition-IsMatch = (condition-IsPlaced, (tt, tt), omega arith, (_, refl))

matches-AreMatches :
    AreMatches json build reads settings manager parents address_of ranked 5 profile matches
matches-AreMatches = (condition-IsMatch, (call-IsPlaced, (condition-IsMatch, tt)))

transform_file-load_sa_file_example :
    (st' : State Value) × (sas : List SchemaApplication) × (transform_file build json settings
        manager parents 6 profile false matches start
      ≡ ok st')
    × (load_sa_file json 6 (build.array st'.schema_applications) ≡ ok sas)
    × HasIds (0 * value_limit + 1) sas (0 * value_limit + st'.base_app_id)
    × AreApart sas
    × All (λ sa. is_interesting_location profile sa.location ≡ true) sas
transform_file-load_sa_file_example =
    transform_file-load_sa_file json build reads settings manager parents address_of ranked 5
      profile matches start (omega arith) matches-AreMatches (omega arith)

abbrev place_of_condition : Location
place_of_condition = record {
  file_id = 0;
  begin_line = 3;
  begin_column = 5;
  end_line = 3;
  end_column = 12;
}

named : is_interesting_location profile place_of_condition ≡ true
unfolding location_text f1x.Prelude.to_string
named = refl

matched_there :
    covers
      (statements json build reads settings manager parents address_of ranked 5 profile
        place_of_condition matches)
      place_of_condition
    ≡ true
unfolding current_location
matched_there = refl

transform_file-eventually_example :
    (st' : State Value) × (sas : List SchemaApplication) × (transform_file build json settings
        manager parents 6 profile false matches start
      ≡ ok st')
    × (load_sa_file json 6 (build.array st'.schema_applications) ≡ ok sas)
    × (covers (locations sas) place_of_condition ≡ true)
transform_file-eventually_example =
    transform_file-eventually json build reads settings manager parents address_of ranked 5 profile
      place_of_condition matches start (omega arith) matches-AreMatches (omega arith) named refl
      matched_there (λ e. refl, (λ e. refl, (λ e. refl, tt)))

apply_all-first_example :
    (apply_all settings manager parents matches (record { already_matched = []; edits = [] })).edits
    ≡ [] ++ first_patch_edits settings manager parents matches
apply_all-first_example =
    apply_all-first settings manager parents matches (record { already_matched = []; edits = [] })
      refl
