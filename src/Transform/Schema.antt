-- ===== src/Transform/Schema.antt =====
-- transform/SchemaApplication.cpp: the handlers of matches, which report schema applications and put
-- calls of the generated functions in the place of the matched code.
use f1x.Prelude.{
  ℕ, ◌+◌, List, [], ◌∷◌, ◌++◌, drop, Bool, ◌||◌, not, ◌==◌, Option, none, some, String, ◌<>◌,
  has_text, to_string, if◌then◌else◌, Result, ok, ◌>>=◌,
}
use f1x.Core.{Location}
use f1x.Loading.{Json}
use f1x.Generator.Names.{location_name_suffix}
use f1x.Profiler.{covers}
use f1x.Transform.Clang.{Range, Stmt, SourceManager, Parents, info}
use f1x.Transform.Documents.{JsonBuilder, to_text, stmt_to_json, loc_to_json, constant_document}
use f1x.Transform.Places.{
  get_expanded_loc, first_line, current_location, is_child_of_nonblock, in_condition_context,
}
use f1x.Transform.Components.{collect_components}
use f1x.Transform.Arguments.{make_argument_list}
use f1x.Transform.Settings.{TransformConfig, f1xapp}

-- `Rewriter::ReplaceText` on a range, or on a number of characters from a place
pub data Edit : Type 0 where
  replace_range : Range → String → Edit
  replace_length : ℕ → ℕ → String → Edit

-- The static variables, with the part of the configuration that changes and the edits so far; sets are
-- lists.
pub record State (J : Type 0) : Type 0 where
  pub already_matched : List Location
  pub base_app_id : ℕ
  pub schema_applications : List J
  pub edits : List Edit

-- A match of one of the two matchers
pub data Match : Type 0 where
  expression_match : Stmt → Match
  guard_match : Stmt → Match

abbrev pub matched : Match → Stmt
matched (expression_match s) = s
matched (guard_match s) = s

-- The line of the profile for a location
unfoldable pub location_text : Location → String
location_text l =
    to_string l.file_id
    <> " "
    <> to_string l.begin_line
    <> " "
    <> to_string l.begin_column
    <> " "
    <> to_string l.end_line
    <> " "
    <> to_string l.end_column

-- `isInterestingLocation`, for the lines that `initInterestingLocations` has read
abbrev pub is_interesting_location : List String → Location → Bool
is_interesting_location lines l = has_text (location_text l) lines

-- The call of the function that is generated for a location
unfoldable pub call_text : Location → String → String
call_text l arguments = "__f1x_" <> location_name_suffix l <> "(" <> arguments <> ")"

-- The search for the semicolon behind the statement: the length with it; `none` if there is other text.
unfoldable pub through_semicolon : List ℕ → ℕ → Option ℕ
through_semicolon [] n = some n
through_semicolon (c ∷ cs) n =
    let rest = through_semicolon cs (n + 1) in
    if c == b';'
    then some (n + 1)
    else if c == b' ' || (c == b'\t' || c == b'\n')
    then rest
    else none

module _ {J : Type 0} (build : JsonBuilder J) where
  -- The JSON object of an application
  unfoldable pub app_to_json : String → J → ℕ → Location → String → List J → J
  unfolding loc_to_json
  app_to_json schema expression app_id l context components = build.object (
      ("schema", build.text schema)
      ∷ ("expression", expression)
      ∷ ("appId", build.number app_id)
      ∷ (
        "location",
        loc_to_json build l.file_id l.begin_line l.begin_column l.end_line l.end_column,
      )
      ∷ ("context", build.text context)
      ∷ ("components", build.array components)
      ∷ [])

  module _ (json : Json J) (cfg : TransformConfig) (sm : SourceManager) (parents : Parents)
      (fuel : ℕ) (lines : List String) where
    abbrev pub expanded_location : Stmt → Location
    expanded_location = current_location sm cfg.file_id

    -- `srcMgr.getMainFileID() != decLoc.first`, negated
    abbrev pub is_in_main_file : Stmt → Bool
    is_in_main_file s = sm.in_main_file (get_expanded_loc sm (info s).range).first

    -- Each handler returns at a location that was matched before, outside the main file, and where the
    -- profile does not name the location; `handle` is the rest of it.
    unfoldable pub guarded_by :
        (Stmt → State J → Result (State J)) → Stmt → State J → Result (State J)
    guarded_by handle s st =
        if covers st.already_matched (expanded_location s)
        then ok st
        else let st = record st { already_matched = expanded_location s ∷ st.already_matched } in
          if not (is_in_main_file s)
          then ok st
          else if not (is_interesting_location lines (expanded_location s))
          then ok st
          else handle s st

    -- The components with the arguments for them
    unfoldable pub components_of_match : Stmt → Result (List J × String)
    components_of_match s = do
      components ←
          collect_components build sm (first_line sm s) json cfg.use_global_variables parents fuel s
      arguments ← make_argument_list json components
      ok (components, arguments)

    -- The id of the next application
    unfoldable pub next_app_id : State J → Result (ℕ × State J)
    unfolding f1xapp
    next_app_id st = do
      app_id ← f1xapp st.base_app_id cfg.file_id
      ok (app_id, record st { base_app_id = st.base_app_id + 1 })

    -- The edit of a guarded statement, in brackets below a condition or loop; with other text before the
    -- semicolon there is none.
    unfoldable pub guard_edit : Stmt → ℕ → String → List Edit
    unfolding through_semicolon call_text is_child_of_nonblock
    guard_edit s app_id arguments =
        let r = get_expanded_loc sm (info s).range in
        let guard =
          "if (!(__f1xapp == "
          <> to_string app_id
          <> "ul) || "
          <> call_text (expanded_location s) arguments
          <> ") "
          <> to_text s in
        if is_child_of_nonblock parents s
        then (elim (through_semicolon (drop (sm.range_size r) (sm.character_data r.first))
            (sm.range_size r)) [
              | none ↦ []
              | some n ↦ replace_length r.first n ("{ " <> guard <> "; }") ∷ []
            ])
        else replace_length r.first (sm.range_size r) guard ∷ []

    -- `IfGuardSchemaApplicationHandler::run`, behind its guards
    unfoldable pub handle_guard : Stmt → State J → Result (State J)
    unfolding next_app_id components_of_match guard_edit app_to_json
    handle_guard s st = do
      id ← next_app_id st
      found ← components_of_match s
      ok (record id.1 {
        schema_applications =
            st.schema_applications
            ++ app_to_json "if_guard" (constant_document build "int" "1") id.0 (expanded_location s)
                "condition" found.0
              ∷ [];
        edits = st.edits ++ guard_edit s id.0 found.1;
      })

    unfoldable pub expression_edit : Stmt → ℕ → String → Edit
    unfolding call_text
    expression_edit s app_id arguments = replace_range (get_expanded_loc sm (info s).range) (
        "(__f1xapp == "
        <> to_string app_id
        <> "ul ? "
        <> call_text (expanded_location s) arguments
        <> " : "
        <> to_text s
        <> ")")

    abbrev pub context_text : Stmt → String
    context_text s = if in_condition_context fuel parents s then "condition" else "unknown"

    -- `ExpressionSchemaApplicationHandler::run`, behind its guards
    unfoldable pub handle_expression : Stmt → State J → Result (State J)
    unfolding next_app_id components_of_match expression_edit app_to_json
    handle_expression s st = do
      id ← next_app_id st
      expression ← stmt_to_json build s
      found ← components_of_match s
      ok (record id.1 {
        schema_applications =
            st.schema_applications
            ++ app_to_json "expression" expression id.0 (expanded_location s) (context_text s)
                found.0
              ∷ [];
        edits = st.edits ++ expression_edit s id.0 found.1 ∷ [];
      })

    -- The two `run` functions
    unfoldable pub run_match : Match → State J → Result (State J)
    unfolding guarded_by handle_guard handle_expression
    run_match (expression_match s) st = guarded_by handle_expression s st
    run_match (guard_match s) st = guarded_by handle_guard s st

    -- `Matcher.matchAST`: the matches of a file, in the order in which Clang finds them
    unfoldable pub run_all : List Match → State J → Result (State J)
    unfolding run_match
    run_all [] st = ok st
    run_all (m ∷ ms) st = run_match m st >>= run_all ms

    -- `BeginSourceFileAction`: only the first file is transformed.
    unfoldable pub transform_file : Bool → List Match → State J → Result (State J)
    unfolding run_all
    transform_file already_transformed ms st =
        if already_transformed then ok st else run_all ms (record st { schema_applications = [] })
