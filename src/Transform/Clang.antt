-- ===== src/Transform/Clang.antt =====
-- What the source transformation reads of Clang: types, declarations and statements, as Clang gives
-- them, with the answers of its source manager and of its map of parents.
use f1x.Prelude.{ℕ, List, Bool, Option, String}

-- `BuiltinType::Kind`; `other_kind` stands for the kinds that the code does not name.
pub data BuiltinKind : Type 0 where
  char_u uchar wchar_u ushort uint ulong ulong_long : BuiltinKind
  char_s schar wchar_s short int long long_long other_kind : BuiltinKind

-- The pointee of a pointer, or the element of an array: its name, and whether it is incomplete or a
-- function type.
pub record Pointee : Type 0 where
  pub name : String
  pub incomplete : Bool
  pub is_function : Bool

-- `QualType`, by the answers to `isPointerType`, `isArrayType` and `getAs<BuiltinType>` on the
-- canonical type, and to `getAs<PointerType>`, `dyn_cast<ArrayType>`, `isIntegerType` and `isCharType`
-- on the type itself.
pub record QualType : Type 0 where
  pub canonical_pointer : Bool
  pub canonical_array : Bool
  pub builtin : Option BuiltinKind
  pub as_pointer : Option Pointee
  pub as_array : Option Pointee
  pub is_integer_type : Bool
  pub is_char_type : Bool

-- `SourceRange`; a source location is the number that encodes it.
pub record Range : Type 0 where
  pub first : ℕ
  pub last : ℕ

-- `VarDecl`
pub record VarDecl : Type 0 where
  pub name : String
  pub type : QualType
  pub start : ℕ
  pub has_init : Bool

pub data Decl : Type 0 where
  var_decl : VarDecl → Decl
  other_decl : Decl

-- What every statement has: the address of its node, its range, the text of `printPretty`, and for
-- expressions the type.
pub record Info : Type 0 where
  pub address : ℕ
  pub range : Range
  pub printed : String
  pub type : QualType

-- Statements, with the children that the code visits. An operator has its text in lower case; a
-- reference has the variable that it names, if it names one. `if_stmt` has its condition's address and
-- the `then` branch, `while_stmt` the address of its condition, `for_stmt` those of the
-- initialization, the condition and the increment, with 0 for a missing one.
mutual
  pub data Stmt : Type 0 where
    binary_operator : Info → String → Stmt → Stmt → Stmt
    unary_operator : Info → String → Stmt → Stmt
    implicit_cast : Info → Stmt → Stmt
    explicit_cast : Info → Stmt
    paren : Info → Stmt → Stmt
    member : Info → Bool → Stmt → Stmt
    integer_literal : Info → Stmt
    character_literal : Info → Stmt
    decl_ref : Info → Option VarDecl → Stmt
    array_subscript : Info → Stmt
    call : Info → Stmts → Stmt
    compound : Info → Stmts → Stmt
    decl_stmt : Info → List Decl → Stmt
    if_stmt : Info → ℕ → Stmt → Stmt
    while_stmt : Info → ℕ → Stmt
    for_stmt : Info → ℕ → ℕ → ℕ → Stmt
    break_stmt : Info → Stmt
    continue_stmt : Info → Stmt
    other_stmt : Info → Stmt

  pub data Stmts : Type 0 where
    no_stmts : Stmts
    stmt : Stmt → Stmts → Stmts

abbrev pub info : Stmt → Info
info (binary_operator i r a b) = i
info (unary_operator i r a) = i
info (implicit_cast i a) = i
info (explicit_cast i) = i
info (paren i a) = i
info (member i arrow a) = i
info (integer_literal i) = i
info (character_literal i) = i
info (decl_ref i d) = i
info (array_subscript i) = i
info (call i args) = i
info (compound i body) = i
info (decl_stmt i ds) = i
info (if_stmt i c a) = i
info (while_stmt i c) = i
info (for_stmt i a c b) = i
info (break_stmt i) = i
info (continue_stmt i) = i
info (other_stmt i) = i

-- `DynTypedNode`: a function with its parameters, a translation unit with its declarations.
pub data DynNode : Type 0 where
  function : ℕ → List VarDecl → DynNode
  translation_unit : List Decl → DynNode
  statement : Stmt → DynNode
  other_node : ℕ → DynNode

-- `ASTContext::getParents`
abbrev pub Parents : Type 0
Parents = DynNode → List DynNode

-- `SourceManager`, with `Lexer` on macro expansions and `Rewriter::getRangeSize`.
pub record SourceManager : Type 0 where
  pub is_macro : ℕ → Bool
  pub expansion_range : ℕ → ℕ × ℕ
  pub line : ℕ → ℕ
  pub column : ℕ → ℕ
  pub in_main_file : ℕ → Bool
  pub is_before : ℕ → ℕ → Bool
  pub at_start_of_macro : ℕ → Bool
  pub at_end_of_macro : ℕ → Bool
  pub character_data : ℕ → List ℕ
  pub range_size : Range → ℕ
