-- ===== src/Profiler/Build.antt =====
-- repair/Profiler.cpp: the runtime that records the trace of a test, and its compilation.
use f1x.Prelude.{List, [], ◌∷◌, Bool, String, ◌<>◌, ◌==◌}
use f1x.Core.Config.{Config}
use f1x.Project.{Machine, output_to, from_directory}

abbrev pub trace_file_name : String
trace_file_name = "trace.txt"

abbrev pub profile_file_name : String
profile_file_name = "profile.txt"

abbrev pub profile_source_file_name : String
profile_source_file_name = "profile.cpp"

abbrev pub profile_header_file_name : String
profile_header_file_name = "profile.h"

-- `RUNTIME_COMPILER` and `RUNTIME_OPTIMIZATION`
abbrev pub runtime_compiler : String
runtime_compiler = "g++"

abbrev pub runtime_optimization : String
runtime_optimization = "-O1"

-- The lines of the source, with the name of the trace's file
unfoldable pub profile_source : String → List String
profile_source trace_file =
    "#include <fstream>"
    ∷ "#include <unordered_set>"
    ∷ ("#include \"" <> profile_header_file_name <> "\"")
    ∷ "struct __f1x_loc {"
    ∷ "  unsigned long fileId;"
    ∷ "  unsigned long beginLine;"
    ∷ "  unsigned long beginColumn;"
    ∷ "  unsigned long endLine;"
    ∷ "  unsigned long endColumn;"
    ∷ "  bool operator==(const __f1x_loc &other) const {"
    ∷ "return (fileId == other.fileId"
    ∷ "&& beginLine == other.beginLine"
    ∷ "&& beginColumn == other.beginColumn"
    ∷ "&& endLine == other.endLine"
    ∷ "&& endColumn == other.endColumn);"
    ∷ "}"
    ∷ "};"
    ∷ "template <class T>"
    ∷ "inline void hash_combine(std::size_t & s, const T & v)"
    ∷ "{"
    ∷ "std::hash<T> h;"
    ∷ "s ^= h(v) + 0x9e3779b9 + (s << 6) + (s >> 2);"
    ∷ "}"
    ∷ "namespace std {"
    ∷ "template<>"
    ∷ "struct hash<__f1x_loc> {"
    ∷ "inline size_t operator()(const __f1x_loc& id) const {"
    ∷ "size_t value = 0;"
    ∷ "hash_combine(value, id.fileId);"
    ∷ "hash_combine(value, id.beginLine);"
    ∷ "hash_combine(value, id.beginColumn);"
    ∷ "hash_combine(value, id.endLine);"
    ∷ "hash_combine(value, id.endColumn);"
    ∷ "return value;"
    ∷ "}"
    ∷ "};"
    ∷ "}"
    ∷ "std::unordered_set<__f1x_loc> __f1x_locs;"
    ∷ "void __f1x_trace(unsigned long fid, unsigned long bl, unsigned long bc, unsigned long el, unsigned long ec) {"
    ∷ "__f1x_loc loc = {fid, bl, bc, el, ec};"
    ∷ "if (! __f1x_locs.count(loc)) {"
    ∷ ("std::ofstream ofs(\"" <> trace_file <> "\", std::ofstream::out | std::ofstream::app);")
    ∷ "ofs << fid << \" \" << bl << \" \" <<  bc << \" \" << el << \" \" << ec << \"\\n\";"
    ∷ "__f1x_locs.insert(loc);"
    ∷ "}"
    ∷ "}"
    ∷ []

unfoldable pub profile_header : List String
profile_header =
    "#ifdef __cplusplus" ∷ "extern \"C\" {" ∷ "#endif"
    ∷ "void __f1x_trace(unsigned long fid, unsigned long bl, unsigned long bc, unsigned long el, unsigned long ec);"
    ∷ "#ifdef __cplusplus" ∷ "}" ∷ "#endif" ∷ []

module _ {W : Type 0} (machine : Machine W) (cfg : Config) where
  abbrev pub data_file : String → String
  data_file name = machine.slash cfg.data_dir name

  -- The files are written.
  abbrev write_profile_runtime : W → W
  write_profile_runtime w =
      machine.write_lines
        (machine.write_lines w (data_file profile_source_file_name)
          (profile_source (data_file trace_file_name)))
        (data_file profile_header_file_name) profile_header

  -- `Profiler::compile`
  unfoldable pub compile_profiler : W → Bool × W
  compile_profiler w =
      let ran =
        from_directory machine cfg cfg.data_dir
          (λ v. machine.system v (
            runtime_compiler
            <> " "
            <> runtime_optimization
            <> " -fPIC "
            <> profile_source_file_name
            <> " -shared -std=c++11 -o libf1xrt.so"
            <> output_to cfg))
          (write_profile_runtime w) in
      (ran.0 == 0, ran.1)

  -- `Profiler::clearTrace`
  unfoldable pub clear_trace : W → W
  clear_trace w = machine.write_lines w (data_file trace_file_name) []
