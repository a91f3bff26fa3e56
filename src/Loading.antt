-- ===== src/Loading.antt =====
-- repair/Util.cpp: schema applications from JSON. The values of rapidjson and their accessors are a
-- parameter; an accessor of the wrong kind, or of a missing member, is a failed assertion.
pub mod Shape
pub mod Termination
use f1x.Prelude.{
  ℕ, zero, suc, List, [], ◌∷◌, ◌++◌, Bool, true, false, ◌&&◌, not, Option, none, some, String,
  str_eq, str_lt, has_text, add_text, if◌then◌else◌, Result, ok, err, Error, ◌>>=◌, ◌>>◌, assert,
  stable_sort,
}
use f1x.Core.{Location, LocationContext, SchemaApplication}
use f1x.Core.Expressions.{
  NodeKind, ExprType, Operator, Expression, node, Args, nil, cons, kind_eq, raw_type,
}
use f1x.Util.Operators.{
  kind_by_string, transformation_schema_by_string, binary_operator_by_string,
  unary_operator_by_string,
}
use f1x.Typing.{operator_output_type}

-- `json::Value`
pub record Json (J : Type 0) : Type 0 where
  pub member : J → String → Option J
  pub get_string : J → Option String
  pub get_uint : J → Option ℕ
  pub get_bool : J → Option Bool
  pub get_array : J → Option (List J)

abbrev pub expect {ℓ} : {A : Type ℓ} → Option A → Result A
expect none = err Error.assertion_failed
expect (some a) = ok a

-- `type` as far as the document tells it.
abbrev pub approx_type : String → ExprType
approx_type s = if str_eq s "pointer" then ExprType.pointer else ExprType.integer

abbrev pub context_by_string : String → LocationContext
context_by_string s =
    if str_eq s "condition" then LocationContext.condition else LocationContext.unknown

module _ {J : Type 0} (json : Json J) where
  -- `json[name].GetString()` and the like
  abbrev pub text_of_member : J → String → Result String
  text_of_member j name = expect (json.member j name) >>= λ v. expect (json.get_string v)

  abbrev pub number_of_member : J → String → Result ℕ
  number_of_member j name = expect (json.member j name) >>= λ v. expect (json.get_uint v)

  abbrev pub flag_of_member : J → String → Result Bool
  flag_of_member j name = expect (json.member j name) >>= λ v. expect (json.get_bool v)

  abbrev pub elements_of_member : J → String → Result (List J)
  elements_of_member j name = expect (json.member j name) >>= λ v. expect (json.get_array v)

  -- The operator of a node with arguments
  unfoldable pub operator_of : List J → String → ExprType → Result Operator
  operator_of (a ∷ []) r t = unary_operator_by_string r
  operator_of (a ∷ b ∷ []) r t = binary_operator_by_string r t
  operator_of _ r t = err Error.parse_error

  unfoldable pub convert_all : (J → Result Expression) → List J → Result Args
  convert_all convert [] = ok nil
  convert_all convert (j ∷ js) = do e ← convert j; rest ← convert_all convert js; ok (cons e rest)

  -- The branches on the member `args`
  unfoldable pub convert_node :
      (J → Result Expression) → NodeKind → ExprType → String → String → Option J → Result Expression
  convert_node convert kind approx raw r none = ok (node kind approx Operator.none raw r nil)
  convert_node convert kind approx raw r (some j) = do
    arguments ← expect (json.get_array j)
    assert (kind_eq kind NodeKind.operator)
    o ← operator_of arguments r approx
    t ← operator_output_type o
    args ← convert_all convert arguments
    ok (node kind t o raw r args)

  -- `convertExpression`, on fuel for the depth of the document.
  unfoldable pub convert_expression : ℕ → J → Result Expression
  convert_expression zero j = err Error.out_of_fuel
  convert_expression (suc fuel) j = do
    kind_str ← text_of_member j "kind"
    kind ← kind_by_string kind_str
    type_str ← text_of_member j "type"
    raw ← text_of_member j "rawType"
    r ← text_of_member j "repr"
    convert_node (convert_expression fuel) kind (approx_type type_str) raw r (json.member j "args")

  -- Whether the pointee type of a component is complete
  abbrev pub is_complete : J → String → Result Bool
  is_complete j type_str =
      if str_eq type_str "pointer"
      then (flag_of_member j "incomplete" >>= λ incomplete. ok (not incomplete))
      else ok false

  -- The loop over the components, with the pointee types found so far.
  unfoldable pub load_components : ℕ → List J → List String → Result (List Expression × List String)
  load_components fuel [] types = ok ([], types)
  load_components fuel (c ∷ cs) types = do
    comp ← convert_expression fuel c
    type_str ← text_of_member c "type"
    complete ← is_complete c type_str
    rest ← load_components fuel cs (if complete then add_text types (raw_type comp) else types)
    ok (comp ∷ rest.0, rest.1)

  unfoldable pub load_location : J → Result Location
  load_location app = do
    l ← expect (json.member app "location")
    file ← number_of_member l "fileId"
    bl ← number_of_member l "beginLine"
    bc ← number_of_member l "beginColumn"
    el ← number_of_member l "endLine"
    ec ← number_of_member l "endColumn"
    ok (record {
      file_id = file;
      begin_line = bl;
      begin_column = bc;
      end_line = el;
      end_column = ec;
    })

  -- The body of the loop of `loadSAFile`
  unfoldable pub load_application : ℕ → J → Result SchemaApplication
  load_application fuel app = do
    app_id ← number_of_member app "appId"
    schema_str ← text_of_member app "schema"
    schema ← transformation_schema_by_string schema_str
    place ← load_location app
    context_str ← text_of_member app "context"
    expression_json ← expect (json.member app "expression")
    expression ← convert_expression fuel expression_json
    component_list ← elements_of_member app "components"
    loaded ← load_components fuel component_list []
    ok (record {
      id = app_id;
      schema = schema;
      location = place;
      context = context_by_string context_str;
      original = expression;
      components = loaded.0;
      complete_pointee_types = stable_sort str_lt loaded.1;
    })

  unfoldable pub load_applications : ℕ → List J → Result (List SchemaApplication)
  load_applications fuel [] = ok []
  load_applications fuel (j ∷ js) = do
    sa ← load_application fuel j
    rest ← load_applications fuel js
    ok (sa ∷ rest)

  -- `loadSAFile`, on the parsed document
  unfoldable pub load_sa_file : ℕ → J → Result (List SchemaApplication)
  load_sa_file fuel d = expect (json.get_array d) >>= load_applications fuel

  -- `loadSchemaApplications`
  unfoldable pub load_schema_applications : ℕ → List J → Result (List SchemaApplication)
  load_schema_applications fuel [] = ok []
  load_schema_applications fuel (d ∷ ds) = do
    single_file ← load_sa_file fuel d
    rest ← load_schema_applications fuel ds
    ok (single_file ++ rest)
