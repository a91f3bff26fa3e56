-- ===== src/Transform/Types.antt =====
-- transform/TransformUtil.cpp: types as text.
use f1x.Prelude.{Bool, true, ◌||◌, not, none, some, String, str_eq, if◌then◌else◌}
use f1x.Transform.Clang.{
  BuiltinKind, char_u, uchar, wchar_u, ushort, uint, ulong, ulong_long, char_s, schar, wchar_s,
  short, int, long, long_long, other_kind, Pointee, QualType,
}

abbrev pub default_numeric_type : BuiltinKind
default_numeric_type = long

abbrev pub default_pointee_type : String
default_pointee_type = "void"

-- `getBuiltinKind`
unfoldable pub get_builtin_kind : QualType → BuiltinKind
get_builtin_kind t = elim t.builtin [ some k ↦ k | none ↦ default_numeric_type ]

-- `isPointerType`
unfoldable pub is_pointer_type : QualType → Bool
is_pointer_type t = t.canonical_pointer || t.canonical_array

pointee_of : Pointee → String × Bool
pointee_of p = (p.name, if str_eq p.name "struct __va_list_tag" then true else p.incomplete)

-- `getPointeeType`
unfoldable pub get_pointee_type : QualType → String × Bool
unfolding pointee_of
get_pointee_type t = elim t.as_pointer [
  | some p ↦ pointee_of p
  | none ↦ elim t.as_array [ some p ↦ pointee_of p | none ↦ (default_pointee_type, true) ]
]

-- `clangKindToString`; the default case is that of `DEFAULT_NUMERIC_TYPE`.
unfoldable pub clang_kind_to_string : BuiltinKind → String
clang_kind_to_string char_u = "char"
clang_kind_to_string uchar = "unsigned char"
clang_kind_to_string wchar_u = "wchar_t"
clang_kind_to_string ushort = "unsigned short"
clang_kind_to_string uint = "unsigned int"
clang_kind_to_string ulong = "unsigned long"
clang_kind_to_string ulong_long = "unsigned long long"
clang_kind_to_string char_s = "char"
clang_kind_to_string schar = "char"
clang_kind_to_string wchar_s = "wchar_t"
clang_kind_to_string short = "short"
clang_kind_to_string int = "int"
clang_kind_to_string long = "long"
clang_kind_to_string long_long = "long long"
clang_kind_to_string other_kind = "long"

-- `isSuitableComponentType`
unfoldable pub is_suitable_component_type : QualType → Bool
is_suitable_component_type t = elim t.as_pointer [
  | some p ↦ not p.is_function
  | none ↦ t.is_integer_type || t.is_char_type
]
