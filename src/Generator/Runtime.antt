-- ===== src/Generator/Runtime.antt =====
-- repair/Synthesis.cpp: the text of the generated runtime around the dispatch on candidates. The
-- environment variables name the candidate that runs, and shared memory the ones to compare it with.
use f1x.Prelude.{
  ℕ, List, [], ◌∷◌, ◌++◌, map, String, ◌<>◌, to_string, if◌then◌else◌, Bool, true, false,
}
use f1x.Core.{SchemaApplication}
use f1x.Core.Config.{Config}
use f1x.Core.Expressions.{type, raw_type, is_pointer, explicit_int_cast_type}
use f1x.Synthesis.Operators.{id_type, parameter_type}
use f1x.Generator.Names.{location_name_suffix, parameter_list}

abbrev pub partition_file_name : String
partition_file_name = "/f1x_partition"

abbrev when : Bool → List String → List String
when true lines = lines
when false lines = []

-- `runtimeLoader`; `euid` is what `geteuid` returns.
unfoldable pub runtime_loader : Config → ℕ → List String
unfolding to_string
runtime_loader cfg euid =
    ("struct __f1xid_t {"
      ∷ (id_type <> " base;")
      ∷ (id_type <> " int2;")
      ∷ (id_type <> " bool2;")
      ∷ (id_type <> " cond3;")
      ∷ (id_type <> " param;")
      ∷ "};"
      ∷ (id_type <> " __f1xapp = strtoul(getenv(\"F1X_APP\"), (char **)NULL, 10);")
      ∷ (id_type <> " __f1xid_base = strtoul(getenv(\"F1X_ID_BASE\"), (char **)NULL, 10);")
      ∷ (id_type <> " __f1xid_int2 = strtoul(getenv(\"F1X_ID_INT2\"), (char **)NULL, 10);")
      ∷ (id_type <> " __f1xid_bool2 = strtoul(getenv(\"F1X_ID_BOOL2\"), (char **)NULL, 10);")
      ∷ (id_type <> " __f1xid_cond3 = strtoul(getenv(\"F1X_ID_COND3\"), (char **)NULL, 10);")
      ∷ (id_type <> " __f1xid_param = strtoul(getenv(\"F1X_ID_PARAM\"), (char **)NULL, 10);")
      ∷ "__f1xid_t *__f1xids = NULL;"
      ∷ "void __f1x_init_runtime() {"
      ∷ [])
    ++ (when cfg.value_teq (
          ("int fd = shm_open(\""
            <> partition_file_name
            <> "_"
            <> to_string euid
            <> "\", O_RDWR, 0);")
          ∷ "struct stat sb;"
          ∷ "fstat(fd, &sb);"
          ∷ "__f1xids = (__f1xid_t*) mmap(NULL, sb.st_size, PROT_READ | PROT_WRITE, MAP_SHARED, fd, 0);"
          ∷ "close(fd);"
          ∷ [])
        ++ "}" ∷ [])

abbrev pub output_type : SchemaApplication → String
output_type sa = if is_pointer (type sa.original) then "void*" else raw_type sa.original

-- The head of the function of a schema application, in the header and in the source.
unfoldable pub function_head : SchemaApplication → String
unfolding location_name_suffix parameter_list
function_head sa =
    output_type sa
    <> " __f1x_"
    <> location_name_suffix sa.location
    <> "("
    <> parameter_list sa
    <> ")"

-- What `partitioningFunctions` writes before the dispatch of a schema application.
unfoldable pub function_prologue : Config → SchemaApplication → List String
unfolding function_head
function_prologue cfg sa =
    ((function_head sa <> "{")
      ∷ "__f1xid_t id;"
      ∷ "id.base = __f1xid_base;"
      ∷ "id.int2 = __f1xid_int2;"
      ∷ "id.bool2 = __f1xid_bool2;"
      ∷ "id.cond3 = __f1xid_cond3;"
      ∷ "id.param = __f1xid_param;"
      ∷ (output_type sa <> " base_value;")
      ∷ (explicit_int_cast_type <> " int2_value;")
      ∷ "bool bool2_value;"
      ∷ "bool cond3_value;"
      ∷ (parameter_type <> " param_value;")
      ∷ (output_type sa <> " output_value = 0;")
      ∷ "bool output_initialized = false;"
      ∷ "unsigned long input_index = 0;"
      ∷ "unsigned long output_index = 0;"
      ∷ "bool output_panic = false;"
      ∷ "bool current_panic = false;"
      ∷ [])
    ++ (when cfg.value_teq ("if (__f1xids == NULL) __f1x_init_runtime();" ∷ [])
        ++ ("label_" <> location_name_suffix sa.location <> ":") ∷ "current_panic = false;" ∷ [])

-- What it writes behind the dispatch.
unfoldable pub function_epilogue : Config → SchemaApplication → List String
unfolding location_name_suffix
function_epilogue cfg sa =
    ("if (!output_initialized) {" ∷ "output_panic = current_panic;" ∷ "output_value = base_value;"
      ∷ "output_initialized = true;"
      ∷ "} else if ((output_panic && current_panic) || (!output_panic && !current_panic && output_value == base_value)) {"
      ∷ [])
    ++ (when cfg.value_teq ("__f1xids[output_index] = id;" ∷ "output_index++;" ∷ [])
        ++ (("}"
              ∷ "if (__f1xids && __f1xids[input_index].base != 0) {"
              ∷ "id = __f1xids[input_index];"
              ∷ "input_index++;"
              ∷ ("goto label_" <> location_name_suffix sa.location <> ";")
              ∷ "}"
              ∷ [])
            ++ (when cfg.value_teq ("__f1xids[output_index] = __f1xid_t{0, 0, 0, 0, 1};" ∷ [])
                ++ "if (output_panic) {" ∷ "abort();" ∷ "}" ∷ "return output_value;" ∷ "}" ∷ [])))

abbrev pub includes : List String
includes =
    "#include \"rt.h\"" ∷ "#include <stdlib.h>" ∷ "#include <vector>" ∷ "#include <cstddef>"
    ∷ "#include <unistd.h>" ∷ "#include <fcntl.h>" ∷ "#include <sys/stat.h>"
    ∷ "#include <sys/mman.h>" ∷ []

-- What `generateSearchSpace` writes to the header.
unfoldable pub header : List SchemaApplication → List String
unfolding function_head
header sas =
    ("#ifdef __cplusplus"
      ∷ "extern \"C\" {"
      ∷ "#endif"
      ∷ ("extern " <> id_type <> " __f1xapp;")
      ∷ [])
    ++ (map (λ sa. function_head sa <> ";") sas ++ "#ifdef __cplusplus" ∷ "}" ∷ "#endif" ∷ [])
