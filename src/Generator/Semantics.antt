-- ===== src/Generator/Semantics.antt =====
-- repair/Synthesis.cpp: an expression as the C code that the runtime evaluates, which sets
-- `current_panic` where the original code would trap.
use f1x.Prelude.{
  String, ◌<>◌, Bool, true, false, Result, ok, err, Error, ◌>>=◌, if◌then◌else◌, text_lookup, ◌||◌,
}
use f1x.Core.Expressions.{
  NodeKind, Operator, Expression, node, nil, cons, raw_type, is_pointer, kind_eq,
}
use f1x.Util.Builders.{text_of}
use f1x.Typing.{is_pointer_arithmetic}
use f1x.Generator.Names.{Renaming}

abbrev pub is_division : Operator → Bool
is_division Operator.div = true
is_division Operator.modulo = true
is_division _ = false

-- `runtimeSemantics`; an argument that is not there is read out of bounds.
unfoldable pub runtime_semantics : Renaming → Renaming → Expression → Result String
unfolding text_lookup
runtime_semantics sizes nulls (node k t o w r nil) =
    if is_pointer_arithmetic o || is_division o
    then err Error.out_of_bounds
    else if kind_eq k NodeKind.dereference
    then ok (
        "("
        <> text_lookup "" nulls r
        <> " ? ({ current_panic = true; "
        <> (if is_pointer t then "(void*) 0" else "0")
        <> "; }) : "
        <> r
        <> ")")
    else ok r
runtime_semantics sizes nulls (node k t o w r (cons a nil)) =
    let arg = runtime_semantics sizes nulls a in
    if is_pointer_arithmetic o || is_division o
    then err Error.out_of_bounds
    else (do x ← arg; ok (r <> " " <> x))
runtime_semantics sizes nulls (node k t o w r (cons a (cons b nil))) =
    let left = runtime_semantics sizes nulls a in
    let right = runtime_semantics sizes nulls b in
    do
      x ← left
      y ← right
      ok (
          if is_pointer_arithmetic o
          then "(void*) ((std::size_t) "
            <> x
            <> " "
            <> text_of o
            <> " "
            <> text_lookup "" sizes (raw_type a)
            <> " * "
            <> y
            <> ")"
          else if is_division o
          then "("
            <> y
            <> " != 0 ? "
            <> x
            <> " "
            <> text_of o
            <> " "
            <> y
            <> " : ({ current_panic = true; 0; }))"
          else "(" <> x <> " " <> r <> " " <> y <> ")")
runtime_semantics sizes nulls (node k t o w r (cons a (cons b (cons c more)))) =
    let left = runtime_semantics sizes nulls a in
    let right = runtime_semantics sizes nulls b in
    if is_pointer_arithmetic o
    then (do
      x ← left
      y ← right
      ok (
          "(void*) ((std::size_t) "
          <> x
          <> " "
          <> text_of o
          <> " "
          <> text_lookup "" sizes (raw_type a)
          <> " * "
          <> y
          <> ")"))
    else if is_division o
    then (do
      x ← left
      y ← right
      ok (
          "("
          <> y
          <> " != 0 ? "
          <> x
          <> " "
          <> text_of o
          <> " "
          <> y
          <> " : ({ current_panic = true; 0; }))"))
    else err Error.invalid_argument
