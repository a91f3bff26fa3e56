-- ===== src/Samples/LoadingRuns.antt =====
-- Runs of the loading of schema applications, repair/Util.cpp and repair/Repair.cpp.
use f1x.Prelude.{
  ℕ, suc, ◌+◌, ◌<◌, ◌≤◌, subst, Bool-cases, inl, inr, ◌≡◌, ◌≢◌, refl, List, [], ◌∷◌, All, Option,
  none, some, String, str_eq, get_elem?, arith, ok, err, Error, if◌then◌else◌,
}
use f1x.Core.{Patch}
use f1x.Generator.SearchSpace.{Generated, partitioning_functions, generate_search_space}
use f1x.Loading.{Json, convert_expression, load_schema_applications}
use f1x.Loading.Termination.{IsDepth, convert_expression-ends}
use f1x.Repair.{load_search_space}
use f1x.Repair.Inference.{loaded_space-distinct}
use f1x.Samples.{sample_config, patch_number}

-- Documents
mutual
  pub data Document : Type 0 where
    text : String → Document
    number : ℕ → Document
    array : Documents → Document
    object : Members → Document

  pub data Documents : Type 0 where
    no_more : Documents
    element : Document → Documents → Documents

  pub data Members : Type 0 where
    no_member : Members
    member_of : String → Document → Members → Members

abbrev find_member : Members → String → Option Document
find_member no_member name = none
find_member (member_of key d ms) name =
    let rest = find_member ms name in if str_eq key name then some d else rest

abbrev elements : Documents → List Document
elements no_more = []
elements (element d ds) = d ∷ elements ds

abbrev pub documents : Json Document
documents = record {
  member = λ d name. elim d [ object ms ↦ find_member ms name | _ ↦ none ];
  get_string = λ d. elim d [ text s ↦ some s | _ ↦ none ];
  get_uint = λ d. elim d [ number n ↦ some n | _ ↦ none ];
  get_bool = λ d. none;
  get_array = λ d. elim d [ array ds ↦ some (elements ds) | _ ↦ none ];
}

-- An expression without arguments, and one with two
abbrev leaf : String → String → Document
leaf kind repr = object (
    member_of "kind" (text kind) (
      member_of "type" (text "integer")
        (member_of "rawType" (text "int") (member_of "repr" (text repr) no_member))))

abbrev comparison_document : Document
comparison_document = object (
    member_of "kind" (text "operator") (
      member_of "type" (text "integer") (
        member_of "rawType" (text "int") (
          member_of "repr" (text ">") (
            member_of "args"
              (array (element (leaf "variable" "x") (element (leaf "variable" "y") no_more)))
              no_member)))))

abbrev location_document : Document
location_document = object (
    member_of "fileId" (number 0) (
      member_of "beginLine" (number 3) (
        member_of "beginColumn" (number 1)
          (member_of "endLine" (number 3) (member_of "endColumn" (number 9) no_member)))))

abbrev application_document : Document
application_document = object (
    member_of "appId" (number 1) (
      member_of "schema" (text "expression") (
        member_of "location" location_document (
          member_of "context" (text "condition") (
            member_of "expression" comparison_document (
              member_of "components" (array (element (leaf "variable" "x") no_more)) no_member))))))

abbrev file_document : Document
file_document = array (element application_document no_more)

abbrev nothing_generated : Generated
nothing_generated = record { source = []; header_lines = []; search_space = [] }

abbrev loaded_space : Generated
loaded_space = elim (load_search_space documents sample_config 1000 5 (file_document ∷ [])) [
  | ok g ↦ g
  | err e ↦ nothing_generated
]

loaded_lem : load_search_space documents sample_config 1000 5 (file_document ∷ []) ≡ ok loaded_space
unfolding load_search_space load_schema_applications f1x.Loading.load_sa_file
    f1x.Loading.load_applications f1x.Loading.load_application
    f1x.Util.Operators.transformation_schema_by_string f1x.Loading.load_location convert_expression
    f1x.Util.Operators.kind_by_string f1x.Loading.convert_node f1x.Loading.operator_of
    f1x.Util.Operators.binary_operator_by_string f1x.Typing.operator_output_type
    f1x.Loading.convert_all f1x.Loading.load_components f1x.Repair.infer_types
    f1x.Typing.correct_types f1x.Typing.args_context generate_search_space partitioning_functions
    f1x.Synthesis.Candidates.bool2_expressions f1x.Synthesis.Candidates.base_modifications
    f1x.Typing.correct_top_node
loaded_lem = refl

abbrev patch_at : ℕ → Patch
patch_at i = elim (get_elem? loaded_space.search_space i) [ none ↦ patch_number 0 | some p ↦ p ]

patch_1 : get_elem? loaded_space.search_space 1 ≡ some (patch_at 1)
unfolding load_search_space load_schema_applications f1x.Loading.load_sa_file
    f1x.Loading.load_applications f1x.Loading.load_application
    f1x.Util.Operators.transformation_schema_by_string f1x.Loading.load_location convert_expression
    f1x.Util.Operators.kind_by_string f1x.Loading.convert_node f1x.Loading.operator_of
    f1x.Util.Operators.binary_operator_by_string f1x.Typing.operator_output_type
    f1x.Loading.convert_all f1x.Loading.load_components f1x.Repair.infer_types
    f1x.Typing.correct_types f1x.Typing.args_context generate_search_space partitioning_functions
    f1x.Synthesis.Candidates.bool2_expressions f1x.Synthesis.Candidates.base_modifications
    f1x.Typing.correct_top_node
patch_1 = refl

patch_66 : get_elem? loaded_space.search_space 66 ≡ some (patch_at 66)
unfolding load_search_space load_schema_applications f1x.Loading.load_sa_file
    f1x.Loading.load_applications f1x.Loading.load_application
    f1x.Util.Operators.transformation_schema_by_string f1x.Loading.load_location convert_expression
    f1x.Util.Operators.kind_by_string f1x.Loading.convert_node f1x.Loading.operator_of
    f1x.Util.Operators.binary_operator_by_string f1x.Typing.operator_output_type
    f1x.Loading.convert_all f1x.Loading.load_components f1x.Repair.infer_types
    f1x.Typing.correct_types f1x.Typing.args_context generate_search_space partitioning_functions
    f1x.Synthesis.Candidates.bool2_expressions f1x.Synthesis.Candidates.base_modifications
    f1x.Typing.correct_top_node
patch_66 = refl

loaded_space-distinct_example : (patch_at 1).id ≢ (patch_at 66).id
loaded_space-distinct_example =
    loaded_space-distinct documents sample_config 1000 5 (file_document ∷ []) 1 66 loaded_lem
      patch_1 patch_66 (λ e. omega (arith, e))

-- The size of a document
abbrev mutual
  size : Document → ℕ
  size (text s) = 0
  size (number n) = 0
  size (array ds) = suc (size_all ds)
  size (object ms) = suc (size_members ms)

  size_all : Documents → ℕ
  size_all no_more = 0
  size_all (element d ds) = size d + size_all ds

  size_members : Members → ℕ
  size_members no_member = 0
  size_members (member_of key d ms) = size d + size_members ms

elements-size : (ds : Documents) (n : ℕ) → size_all ds < n → All (λ a. size a < n) (elements ds)
elements-size no_more n h = tt
elements-size (element d ds) n h = (omega (arith, h), elements-size ds n (omega (arith, h)))

find_member-size :
    (ms : Members) (name : String) (d : Document)
    → find_member ms name ≡ some d
    → size d < suc (size_members ms)
find_member-size no_member name d e = cc e
find_member-size (member_of key d' ms) name d e = elim (Bool-cases (str_eq key name)) [
  | inl p ↦
      let same : d' ≡ d = cc (rw p at e) in
      let le : size d ≤ size d' = subst (λ x. size x ≤ size d') same (omega arith) in
      omega (arith, le)
  | inr p ↦ let less = find_member-size ms name d (rw p at e) in omega (arith, less)
]

array-size :
    (args : Document) (js : List Document) (n : ℕ)
    → documents.get_array args ≡ some js
    → size args < suc n
    → All (λ a. size a < n) js
array-size (array ds) js n e h =
    let same : elements ds ≡ js = cc e in
    subst (All (λ a. size a < n)) same (elements-size ds n (omega (arith, h)))
array-size (text s) js n e h = cc e
array-size (number k) js n e h = cc e
array-size (object ms) js n e h = cc e

size-IsDepth : IsDepth documents size
size-IsDepth (object ms) args js e e' =
    array-size args js (suc (size_members ms)) e' (omega (arith, find_member-size ms "args" args e))
size-IsDepth (text s) args js e e' = cc e
size-IsDepth (number k) args js e e' = cc e
size-IsDepth (array ds) args js e e' = cc e

convert_expression-ends_example :
    convert_expression documents 5 comparison_document ≢ err Error.out_of_fuel
convert_expression-ends_example =
    convert_expression-ends documents size 5 comparison_document size-IsDepth (omega arith)
