-- ===== src/Transform/Profile.antt =====
-- transform/ProfileInstrumentation.cpp: the handlers of matches, which put a call of the trace function
-- before the matched code.
use f1x.Prelude.{List, [], ◌∷◌, ◌++◌, Bool, ◌||◌, not, String, ◌<>◌, to_string, if◌then◌else◌}
use f1x.Core.{Location}
use f1x.Profiler.{covers}
use f1x.Transform.Clang.{Range, Stmt, SourceManager, Parents, info}
use f1x.Transform.Documents.{to_text}
use f1x.Transform.Places.{
  is_in_range, get_expanded_loc, first_line, current_location, inside_macro,
  intersect_conditional_pp, is_top_level_statement,
}
use f1x.Transform.Settings.{TransformConfig}
use f1x.Transform.Schema.{Edit, replace_range, Match, expression_match, guard_match}

-- `alreadyMatched` and the edits so far
pub record Traced : Type 0 where
  pub already_matched : List Location
  pub edits : List Edit

unfoldable pub trace_text : Location → Stmt → String
trace_text l s =
    "({ __f1x_trace("
    <> to_string l.file_id
    <> ", "
    <> to_string l.begin_line
    <> ", "
    <> to_string l.begin_column
    <> ", "
    <> to_string l.end_line
    <> ", "
    <> to_string l.end_column
    <> "); "
    <> to_text s
    <> "; })"

module _ (cfg : TransformConfig) (sm : SourceManager) (parents : Parents)
    (conditionals : List Range) where
  -- The first guard: code of macros and code that a conditional of the preprocessor cuts
  unfoldable pub is_entangled : Stmt → Bool
  unfolding inside_macro intersect_conditional_pp
  is_entangled s =
      inside_macro sm (info s).range || intersect_conditional_pp sm (info s).range conditionals

  -- The common rest of the handlers
  unfoldable pub trace_at : Stmt → Traced → Traced
  unfolding trace_text
  trace_at s st =
      let l = current_location sm cfg.file_id s in
      if not (is_in_range cfg.from_line cfg.to_line (first_line sm s))
      then st
      else if covers st.already_matched l
      then st
      else let st = record st { already_matched = l ∷ st.already_matched } in
        if not (sm.in_main_file (get_expanded_loc sm (info s).range).first) then st else record st {
          edits =
              st.edits ++ replace_range (get_expanded_loc sm (info s).range) (trace_text l s) ∷ [];
        }

  -- The two `run` functions
  unfoldable pub trace : Match → Traced → Traced
  unfolding is_entangled trace_at
  trace (expression_match s) st = if is_entangled s then st else trace_at s st
  trace (guard_match s) st =
      if is_entangled s
      then st
      else if not (is_top_level_statement parents s)
      then st
      else trace_at s st

  -- The matches of a file; without guards, there are matches of expressions only.
  unfoldable pub trace_all : List Match → Traced → Traced
  unfolding trace
  trace_all [] st = st
  trace_all (expression_match s ∷ ms) st = trace_all ms (trace (expression_match s) st)
  trace_all (guard_match s ∷ ms) st =
      trace_all ms (if cfg.add_guards then trace (guard_match s) st else st)
