-- ===== src/Transform/Patch.antt =====
-- transform/PatchApplication.cpp: the handlers of matches, which put the patch in the place of the
-- matched code.
pub mod Once
use f1x.Prelude.{
  ℕ, List, [], ◌∷◌, ◌++◌, drop, Bool, true, false, ◌&&◌, not, ◌==◌, none, some, String, ◌<>◌,
  if◌then◌else◌,
}
use f1x.Core.{Location}
use f1x.Profiler.{covers}
use f1x.Transform.Clang.{Stmt, SourceManager, Parents, info}
use f1x.Transform.Documents.{to_text}
use f1x.Transform.Places.{get_expanded_loc, current_location, is_child_of_nonblock}
use f1x.Transform.Settings.{TransformConfig}
use f1x.Transform.Schema.{
  Edit, replace_range, replace_length, Match, expression_match, guard_match, through_semicolon,
}
use f1x.Transform.Profile.{Traced}

module _ (cfg : TransformConfig) (sm : SourceManager) (parents : Parents) where
  -- The test for the location of the patch
  unfoldable pub is_patched : Location → Bool
  is_patched l =
      l.begin_line == cfg.begin_line
      && (l.begin_column == cfg.begin_column
          && (l.end_line == cfg.end_line && l.end_column == cfg.end_column))

  unfoldable pub guard_patch : Stmt → List Edit
  unfolding through_semicolon is_child_of_nonblock
  guard_patch s =
      let r = get_expanded_loc sm (info s).range in
      let guard = "if (" <> cfg.patch <> ") " <> to_text s in
      if is_child_of_nonblock parents s
      then (elim (through_semicolon (drop (sm.range_size r) (sm.character_data r.first))
          (sm.range_size r)) [
            | none ↦ []
            | some n ↦ replace_length r.first n ("{ " <> guard <> "; }") ∷ []
          ])
      else replace_length r.first (sm.range_size r) guard ∷ []

  unfoldable pub patch_edits : Match → List Edit
  unfolding guard_patch
  patch_edits (expression_match s) =
      replace_range (get_expanded_loc sm (info s).range) cfg.patch ∷ []
  patch_edits (guard_match s) = guard_patch s

  -- The guards of both handlers, with the edits of the one that runs
  unfoldable pub patch_match : Stmt → List Edit → Traced → Traced
  unfolding is_patched
  patch_match s edits st =
      let l = current_location sm cfg.file_id s in
      if covers st.already_matched l
      then st
      else let st = record st { already_matched = l ∷ st.already_matched } in
        if not (sm.in_main_file (get_expanded_loc sm (info s).range).first)
        then st
        else if is_patched l
        then record st { edits = st.edits ++ edits }
        else st

  -- The two `run` functions
  unfoldable pub apply_at_match : Match → Traced → Traced
  unfolding patch_match patch_edits
  apply_at_match (expression_match s) st = patch_match s (patch_edits (expression_match s)) st
  apply_at_match (guard_match s) st = patch_match s (patch_edits (guard_match s)) st

  unfoldable pub apply_all : List Match → Traced → Traced
  unfolding apply_at_match
  apply_all [] st = st
  apply_all (m ∷ ms) st = apply_all ms (apply_at_match m st)
