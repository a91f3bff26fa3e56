-- ===== src/Lib.antt =====
-- f1x repairs programs: it finds the patches of a faulty program that pass its tests. The transformation
-- tool reads the program and writes out schema applications: an expression at a location, with the
-- variables in scope. The repair tool proposes modifications of each expression, and generates the source
-- of a runtime that evaluates any of them, chosen by an id in the environment. Then it goes through the
-- patches: a run with one patch reports, through shared memory, which others behave alike on the test, so
-- that these need no run of their own. The patches that pass all tests are the plausible ones.
--
-- The files, by the part of the program:
--   Core                  repair/Core.h: identifiers, locations, schema applications, patches; children
--                         Expressions (the expression tree and its enumerations) and Config
--                         (repair/Global.h)
--   Util                  repair/Util.cpp: Operators (names of operators), Builders (printing, casts,
--                         checks), Messages (texts about patches, dumpSearchSpace), Paths (relativeTo),
--                         Environment (InEnvironment); Printable holds proofs
--   Loading               repair/Util.cpp: convertExpression, loadSAFile, loadSchemaApplications; Shape
--                         and Termination hold proofs
--   Typing                repair/Typing.cpp: correctTypes; Cases, Correct and Total hold proofs
--   Synthesis             repair/Synthesis.cpp, namespace synthesis: Operators, Depth and Candidates
--                         (conditions, baseSubstitutions, baseModifications); Abstract has the functions
--                         of namespace generator on abstract nodes; Keeping, Types, Shapes, Sparse and
--                         the children of Abstract hold proofs
--   Generator             repair/Synthesis.cpp, namespace generator and generateSearchSpace: Names
--                         (renaming tables), Semantics (runtimeSemantics), Runtime (the fixed text),
--                         Dispatch (candidateDispatch), SearchSpace; Instances, Concrete, Order and
--                         SearchSpace/Distinct hold proofs
--   Runtime               repair/Runtime.cpp: setPartition and getPartition; Build (compile); Untouched
--                         holds proofs
--   Calls                 repair/Synthesis.cpp, partitioningFunctions: what a generated function does
--                         when the program under test calls it; Programs runs a program with such
--                         functions; Frames, Filter and Equivalence hold proofs
--   Project               repair/Project.cpp: copies of files, ids, builds; Database (compile_commands.json,
--                         initialBuild), Patches (instrumentation, application of patches), Tester
--                         (tests); Saved, FileIds and Surroundings hold proofs
--   FaultLocalization     repair/FaultLocalization.cpp: localize; Arithmetic has what is asked of double;
--                         Best holds proofs
--   Profiler              repair/Profiler.cpp: mergeTrace and getProfile; Build (the text of the profile
--                         runtime, compile, clearTrace); Order, Coverage and
--                         Profile hold proofs
--   SearchEngine          repair/SearchEngine.cpp: findNext and its state; PlainSearch
--                         and Reference hold proofs
--   Prioritization        repair/Prioritization.cpp: syntacticDiff
--   Repair                repair/Repair.cpp: from loaded schema applications to the search space,
--                         prioritize, getPartitionable, validatePatch and the loop that collects
--                         plausible patches; Profiling (the loop that profiles the tests), Output (the
--                         diffs), Stages (repair as a whole); Inference, Order, Remaining, Plausible,
--                         FirstOnes and Stages/Statuses hold proofs
--   Transform             transform/TransformUtil.cpp: Types, Documents (stmtToJSON), Places (lines,
--                         macros, parents), Components (collectComponents), Arguments (makeArgumentList);
--                         transform/SchemaApplication.cpp: Schema; transform/ProfileInstrumentation.cpp:
--                         Profile; transform/PatchApplication.cpp: Patch; TransformGlobal.h: Settings.
--                         Clang has what is read of Clang, Expressions what is asked of rapidjson;
--                         RoundTrip, Applications, Locations, Steps, Recorded, Pipeline, Eventually,
--                         Patch/Once and the children of Components and Arguments hold proofs
--   Prelude               helpers: Boolean tests, lists, results, text, stable sorting
--   Samples               concrete inputs, and runs of the parts on them
--
-- Each function of the source is a function here, in snake_case; Type is ExprType, since the name is taken.
-- An object is a record that is passed along; a set is a list, a map a function. An exception or a failed
-- assertion is a value of Result. Text that is written to a stream is a list of lines. Identifiers and
-- distances are natural numbers, without a bound: the source counts them in 64 bits. A negative outputTop,
-- which the source compares as a huge unsigned number, is not in the model.
--
-- Fuel: the loop of candidateDispatch over its stack has one round for the candidate and one for each
-- condition; the loop of repair has one round for each patch and one more. getPartition runs on an array
-- of the given size, and a read behind it is an error value. convertExpression has fuel for the depth of
-- the document, and a call of a generated function one round for each entry of the array. collectVisible has
-- fuel for the nodes above a statement, which is enough where a rank falls along the parents and is below it.
--
-- What the code asks of its surroundings is a parameter: the run of a test on a patch, which covers the
-- environment variables, setPartition, the testing framework, getPartition and the reading of coverage
-- (SearchEngine); the builds and tests of the loop (Repair); the user id (Generator.Runtime); the values of
-- rapidjson, their accessors and their construction (Loading, Transform.Documents, Project.Database); what
-- Clang answers about types, places and parents, and the matches that it finds (Transform); files, commands and environment variables
-- (Project); the coverage of a test, the arithmetic of doubles, and the order in which a hash map is
-- traversed (FaultLocalization); the value and the panic of a candidate (Calls).
--
-- Not modelled: the matchers of transform/SearchSpaceMatchers.cpp, processes, the parsing of JSON, of XML
-- and of the lines of a trace, command-line options, and log messages; the messages after a search by
-- semantic difference look up the coverage of each patch, which can be a null pointer there. A node without
-- parents, of which inConditionContext and isChildOfNonblock read the first of an empty range, is given the
-- answer false.
pub mod Prelude
pub mod Core
pub mod Util
pub mod Typing
pub mod Synthesis
pub mod Generator
pub mod Runtime
pub mod Calls
pub mod Loading
pub mod Transform
pub mod Project
pub mod FaultLocalization
pub mod Profiler
pub mod SearchEngine
pub mod Prioritization
pub mod Repair
pub mod Samples
