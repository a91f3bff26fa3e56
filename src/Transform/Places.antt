-- ===== src/Transform/Places.antt =====
-- transform/TransformUtil.cpp: where statements and declarations stand in the source file.
use f1x.Prelude.{
  ℕ, List, [], ◌∷◌, Bool, true, false, ◌&&◌, ◌||◌, not, leb, ◌==◌, str_eq, Option, none, some, zero,
  suc, if◌then◌else◌,
}
use f1x.Core.{Location}
use f1x.Transform.Clang.{
  Range, VarDecl, SourceManager, Stmt, implicit_cast, if_stmt, for_stmt, while_stmt, compound,
  binary_operator, info, DynNode, statement, Parents,
}

-- `inRange`, for the bounds of the configuration
abbrev pub is_in_range : ℕ → ℕ → ℕ → Bool
is_in_range from_line to_line line =
    if not (from_line == 0) || not (to_line == 0)
    then leb from_line line && leb line to_line
    else true

module _ (sm : SourceManager) where
  open sm use {
    is_macro, expansion_range, line, column, is_before, in_main_file, at_start_of_macro,
    at_end_of_macro,
  }

  -- `getDeclExpandedLine`
  unfoldable pub get_decl_expanded_line : VarDecl → ℕ
  get_decl_expanded_line vd =
      line (if is_macro vd.start then (expansion_range vd.start).0 else vd.start)

  -- `insideMacro`
  unfoldable pub inside_macro : Range → Bool
  inside_macro r =
      (is_macro r.first && not (at_start_of_macro r.first))
      || (is_macro r.last && not (at_end_of_macro r.last))

  -- `intersectConditionalPP`, on the conditionals that the preprocessor met
  unfoldable pub intersect_conditional_pp : Range → List Range → Bool
  intersect_conditional_pp s [] = false
  intersect_conditional_pp s (r ∷ rs) =
      let rest = intersect_conditional_pp s rs in
      if not (in_main_file r.first)
      then rest
      else if (is_before s.first r.first && (is_before r.first s.last && is_before s.last r.last))
          || (is_before r.first s.first && (is_before s.first r.last && is_before r.last s.last))
      then true
      else rest

  -- `getExpandedLoc`
  unfoldable pub get_expanded_loc : Range → Range
  get_expanded_loc r = record {
    first = if is_macro r.first then (expansion_range r.first).0 else r.first;
    last = if is_macro r.last then (expansion_range r.last).1 else r.last;
  }

  unfoldable pub first_line : Stmt → ℕ
  unfolding get_expanded_loc
  first_line s = line (get_expanded_loc (info s).range).first

  -- The location of a statement in the file of the configuration, as all handlers compute it.
  unfoldable pub current_location : ℕ → Stmt → Location
  unfolding get_expanded_loc
  current_location file s =
      let r = get_expanded_loc (info s).range in
      record {
        file_id = file;
        begin_line = line r.first;
        begin_column = column r.first;
        end_line = line r.last;
        end_column = column r.last;
      }

-- `isChildOfNonblock`, by the first parent
is_child_of : ℕ → DynNode → Bool
is_child_of s (statement (if_stmt i c then_stmt)) = not (s == c)
is_child_of s (statement (for_stmt i init c inc)) =
    not (s == c) && (not (s == inc) && not (s == init))
is_child_of s (statement (while_stmt i c)) = not (s == c)
is_child_of s _ = false

unfoldable pub is_child_of_nonblock : Parents → Stmt → Bool
unfolding is_child_of
is_child_of_nonblock parents s = elim (parents (statement s)) [
  | [] ↦ false
  | p ∷ ps ↦ is_child_of (info s).address p
]

is_compound : DynNode → Bool
is_compound (statement (compound i body)) = true
is_compound _ = false

-- `isTopLevelStatement`
unfoldable pub is_top_level_statement : Parents → Stmt → Bool
unfolding is_compound is_child_of_nonblock
is_top_level_statement parents s = elim (parents (statement s)) [
  | [] ↦ true
  | p ∷ ps ↦ is_compound p || is_child_of_nonblock parents s
]

-- The tests of `inConditionContext` on the parent above the implicit casts
is_condition_of : ℕ → DynNode → Bool
is_condition_of e (statement (if_stmt i c then_stmt)) = e == c
is_condition_of e (statement (for_stmt i init c inc)) = e == c
is_condition_of e (statement (while_stmt i c)) = e == c
is_condition_of e (statement (binary_operator i r a b)) = str_eq r "&&" || str_eq r "||"
is_condition_of e _ = false

-- The loop over implicit casts, from the first parent on; `none` if the casts do not end.
above_casts : ℕ → Parents → List DynNode → Option (List DynNode)
above_casts zero parents ps = none
above_casts (suc fuel) parents (statement (implicit_cast i a) ∷ ps) =
    above_casts fuel parents (parents (statement (implicit_cast i a)))
above_casts (suc fuel) parents ps = some ps

-- `inConditionContext`; `fuel` is for the casts around the expression.
unfoldable pub in_condition_context : ℕ → Parents → Stmt → Bool
unfolding above_casts is_condition_of
in_condition_context fuel parents e = elim (above_casts fuel parents (parents (statement e))) [
  | none ↦ false
  | some ps ↦ elim ps [ [] ↦ false | p ∷ rest ↦ is_condition_of (info e).address p ]
]
