-- ===== src/Samples/TransformRuns.antt =====
-- Runs of the source transformation, transform/TransformUtil.cpp, transform/SchemaApplication.cpp and
-- transform/PatchApplication.cpp, on the function
--   void g(struct S *p, int n) { x = 1; if (x > p->v) f(n); }
use f1x.Prelude.{
  ℕ, zero, suc, ◌≡◌, refl, List, [], ◌∷◌, Bool, true, false, none, some, String, ltb, if◌then◌else◌,
  ◌>>=◌, arith, ap,
}
use f1x.Loading.{Json, convert_expression}
use f1x.Transform.Clang.{
  int, Pointee, QualType, Range, VarDecl, var_decl, Info, Stmt, binary_operator, implicit_cast,
  member, integer_literal, decl_ref, call, compound, if_stmt, no_stmts, stmt, DynNode, function,
  translation_unit, statement, other_node, Parents, SourceManager,
}
use f1x.Transform.Documents.{JsonBuilder, stmt_to_json}
use f1x.Transform.Expressions.{Reads, find_field, expression_of}
use f1x.Transform.RoundTrip.{stmt_to_json-convert_expression}

-- Documents
mutual
  pub data Value : Type 0 where
    text : String → Value
    number : ℕ → Value
    flag : Bool → Value
    array : Values → Value
    object : Fields → Value

  pub data Values : Type 0 where
    no_values : Values
    value : Value → Values → Values

  pub data Fields : Type 0 where
    no_fields : Fields
    field : String → Value → Fields → Fields

abbrev to_fields : List (String × Value) → Fields
to_fields [] = no_fields
to_fields ((k, v) ∷ fs) = field k v (to_fields fs)

abbrev of_fields : Fields → List (String × Value)
of_fields no_fields = []
of_fields (field k v fs) = (k, v) ∷ of_fields fs

abbrev to_values : List Value → Values
to_values [] = no_values
to_values (v ∷ vs) = value v (to_values vs)

abbrev of_values : Values → List Value
of_values no_values = []
of_values (value v vs) = v ∷ of_values vs

abbrev pub json : Json Value
json = record {
  member = λ v name. elim v [ object fs ↦ find_field (of_fields fs) name | _ ↦ none ];
  get_string = λ v. elim v [ text s ↦ some s | _ ↦ none ];
  get_uint = λ v. elim v [ number n ↦ if ltb n 2147483648 then some n else none | _ ↦ none ];
  get_bool = λ v. elim v [ flag b ↦ some b | _ ↦ none ];
  get_array = λ v. elim v [ array vs ↦ some (of_values vs) | _ ↦ none ];
}

abbrev pub build : JsonBuilder Value
build = record {
  object = λ fs. object (to_fields fs);
  array = λ vs. array (to_values vs);
  text = text;
  flag = flag;
  number = number;
}

of_fields-to_fields : (fs : List (String × Value)) → of_fields (to_fields fs) ≡ fs
of_fields-to_fields [] = refl
of_fields-to_fields ((k, v) ∷ fs) = ap (λ rest. (k, v) ∷ rest) (of_fields-to_fields fs)

of_values-to_values : (vs : List Value) → of_values (to_values vs) ≡ vs
of_values-to_values [] = refl
of_values-to_values (v ∷ vs) = ap (λ rest. v ∷ rest) (of_values-to_values vs)

pub reads : Reads json build
reads = record {
  member_object = λ fs name. ap (λ gs. find_field gs name) (of_fields-to_fields fs);
  get_string_text = λ s. refl;
  get_bool_flag = λ b. refl;
  get_array_array = λ vs. ap some (of_values-to_values vs);
  get_uint_number = λ n h. ground arith;
}

-- The statements of the function; a place is its line times 100 plus its column.
abbrev pub int_type : QualType
int_type = record {
  canonical_pointer = false;
  canonical_array = false;
  builtin = some int;
  as_pointer = none;
  as_array = none;
  is_integer_type = true;
  is_char_type = false;
}

abbrev pub struct_pointer : QualType
struct_pointer = record {
  canonical_pointer = true;
  canonical_array = false;
  builtin = none;
  as_pointer = some (record { name = "struct S"; incomplete = false; is_function = false });
  as_array = none;
  is_integer_type = false;
  is_char_type = false;
}

abbrev pub node_at : ℕ → ℕ → ℕ → String → QualType → Info
node_at address first last printed type = record {
  address = address;
  range = record { first = first; last = last };
  printed = printed;
  type = type;
}

abbrev pub variable : String → QualType → VarDecl
variable name type = record { name = name; type = type; start = 101; has_init = false }

abbrev x_ref : Stmt
x_ref = decl_ref (node_at 20 305 305 "x" int_type) (some (variable "x" int_type))

abbrev p_ref : Stmt
p_ref = decl_ref (node_at 21 309 309 "p" struct_pointer) (some (variable "p" struct_pointer))

abbrev pub condition : Stmt
condition =
    binary_operator (node_at 4 305 312 "x > p->v" int_type) ">"
      (implicit_cast (node_at 22 305 305 "x" int_type) x_ref)
      (member (node_at 23 309 312 "p->v" int_type) true p_ref)

abbrev pub call_f : Stmt
call_f = call (node_at 5 315 318 "f(n)" int_type) no_stmts

abbrev pub branch : Stmt
branch = if_stmt (node_at 3 301 318 "if (x > p->v) f(n)" int_type) 4 call_f

abbrev assignment : Stmt
assignment =
    binary_operator (node_at 24 201 205 "x = 1" int_type) "=" x_ref
      (integer_literal (node_at 25 205 205 "1" int_type))

abbrev pub body : Stmt
body = compound (node_at 2 130 319 "" int_type) (stmt assignment (stmt branch no_stmts))

abbrev pub parameters : List VarDecl
parameters = variable "p" struct_pointer ∷ variable "n" int_type ∷ []

abbrev pub address_of : DynNode → ℕ
address_of (function a params) = a
address_of (translation_unit ds) = 0
address_of (statement s) = (f1x.Transform.Clang.info s).address
address_of (other_node a) = a

abbrev pub parent_of : ℕ → List DynNode
parent_of (suc zero) = translation_unit [] ∷ []
parent_of (suc (suc zero)) = function 1 parameters ∷ []
parent_of (suc (suc (suc zero))) = statement body ∷ []
parent_of (suc (suc (suc (suc zero)))) = statement branch ∷ []
parent_of (suc (suc (suc (suc (suc zero))))) = statement branch ∷ []
parent_of _ = []

abbrev pub parents : Parents
parents n = parent_of (address_of n)

stmt_to_json-convert_expression_example :
    (stmt_to_json build condition >>= convert_expression json 2) ≡ expression_of condition
stmt_to_json-convert_expression_example =
    stmt_to_json-convert_expression json build reads condition 2 (tt, tt) (omega arith)
