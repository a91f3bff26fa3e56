-- ===== src/Transform/Steps.antt =====
-- transform/SchemaApplication.cpp: what a handler does with the state.
use f1x.Prelude.{
  ℕ, suc, ◌+◌, ◌*◌, ◌<◌, ◌≤◌, ◌≡◌, refl, List, [], ◌∷◌, ◌++◌, map, Bool, true, false, String, ltb,
  if◌then◌else◌, Result, ok, arith, inl, inr, Bool-cases, ap, ◌∙◌,
}
use f1x.Core.{Location, SchemaApplication, TransformationSchema}
use f1x.Core.Expressions.{Expression}
use f1x.Util.Operators.{transformation_schema_by_string}
use f1x.Loading.{Json, load_application}
use f1x.Profiler.{covers}
use f1x.Transform.Clang.{Stmt, DynNode, statement, Parents, SourceManager}
use f1x.Transform.Documents.{JsonBuilder, constant_document, stmt_to_json}
use f1x.Transform.Places.{first_line}
use f1x.Transform.Expressions.{Reads, IsSupported, depth, expression_of, constant}
use f1x.Transform.RoundTrip.{convert-constant, document, visit_stmt_lem, convert_lem}
use f1x.Transform.Components.Visible.{IsBlock, IsRanked}
use f1x.Transform.Components.Made.{Component, component_document}
use f1x.Transform.Components.Distinct.{collect_components-distinct}
use f1x.Transform.Arguments.Agree.{make_argument_list-ok}
use f1x.Transform.Settings.{TransformConfig, value_limit, f1xapp}
use f1x.Transform.Applications.{Fits, load_application-document}
use f1x.Transform.Schema.{
  State, Match, expression_match, guard_match, matched, is_interesting_location, app_to_json,
  expanded_location, is_in_main_file, guarded_by, components_of_match, next_app_id, guard_edit,
  handle_guard, expression_edit, context_text, handle_expression, run_match,
}

pub f1xapp_lem :
    (base file : ℕ)
    → base < value_limit
    → file < 1024
    → f1xapp base file ≡ ok (file * value_limit + base)
unfolding f1xapp
f1xapp_lem base file h k =
    let test : ltb base value_limit ≡ true = ground arith in rw test (ap ok (omega arith))

module _ {J : Type 0} (json : Json J) (build : JsonBuilder J) (reads : Reads json build)
    (cfg : TransformConfig) (sm : SourceManager) (parents : Parents) (rank : DynNode → ℕ)
    (ranked : IsRanked parents rank) (fuel : ℕ) (lines : List String) where
  abbrev pub place : Stmt → Location
  place = expanded_location build json cfg sm parents (suc fuel) lines

  abbrev pub in_main : Stmt → Bool
  in_main = is_in_main_file build json cfg sm parents (suc fuel) lines

  abbrev pub is_wanted : Stmt → Bool
  is_wanted s = if in_main s then is_interesting_location lines (place s) else false

  -- The place of the statement fits the numbers of JSON, and the chain of its parents ends.
  abbrev pub IsPlaced : Stmt → Type 0
  IsPlaced s = Fits (place s) × IsBlock (statement s) × (rank (statement s) < suc fuel)

  -- What the matchers bind: an expression of nodes that are written to JSON and with operators that the
  -- repair tool knows, or any statement for a guard.
  abbrev pub IsMatch : Match → Type 0
  IsMatch (expression_match s) =
      IsPlaced s
      × IsSupported s
      × (depth s ≤ suc fuel)
      × ((e : Expression) × (expression_of s ≡ ok e))
  IsMatch (guard_match s) = IsPlaced s

  -- The outcomes of a handler: a location that was seen before, one that is dismissed, and one that is
  -- recorded as the next application.
  pub data Step (s : Stmt) (st st' : State J) : Type 0 where
    seen : covers st.already_matched (place s) ≡ true → st' ≡ st → Step s st st'
    dismissed :
        covers st.already_matched (place s) ≡ false
        → is_wanted s ≡ false
        → st' ≡ record st { already_matched = place s ∷ st.already_matched }
        → Step s st st'
    recorded :
        (j : J) (sa : SchemaApplication)
        → covers st.already_matched (place s) ≡ false
        → is_wanted s ≡ true
        → load_application json (suc fuel) j ≡ ok sa
        → sa.id ≡ cfg.file_id * value_limit + st.base_app_id
        → sa.location ≡ place s
        → st'.already_matched ≡ place s ∷ st.already_matched
        → st'.base_app_id ≡ suc st.base_app_id
        → st'.schema_applications ≡ st.schema_applications ++ j ∷ []
        → Step s st st'

  components_of_match_lem :
      (s : Stmt)
      → IsPlaced s
      → (cs : List Component) × (text : String) × (components_of_match build json cfg sm parents
            (suc fuel)
            lines
            s
          ≡ ok (map (component_document build) cs, text))
  unfolding components_of_match
  components_of_match_lem s h =
      let found =
        collect_components-distinct json build reads sm (first_line sm s) cfg.use_global_variables
          parents rank ranked (suc fuel) s h.1 h.2 in
      let (text, e) = make_argument_list-ok json build reads found.2 in
      (found.2, text, rw (found.5, e))

  -- A handler that records a location
  abbrev Records : (Stmt → State J → Result (State J)) → Stmt → Type 0
  Records handle s =
      (st : State J)
      → st.base_app_id < value_limit
      → (st' : State J) × (j : J) × (sa : SchemaApplication) × (handle s st ≡ ok st')
        × (load_application json (suc fuel) j ≡ ok sa)
        × (sa.id ≡ cfg.file_id * value_limit + st.base_app_id)
        × (sa.location ≡ place s)
        × (st'.already_matched ≡ st.already_matched)
        × (st'.base_app_id ≡ suc st.base_app_id)
        × (st'.schema_applications ≡ st.schema_applications ++ j ∷ [])

  module _ (small : cfg.file_id < 512) where
    handle_guard-Records :
        (s : Stmt)
        → IsPlaced s
        → Records (handle_guard build json cfg sm parents (suc fuel) lines) s
    unfolding handle_guard next_app_id
    handle_guard-Records s h st k =
        let (cs, text, e) = components_of_match_lem s h in
        let id : ℕ = cfg.file_id * value_limit + st.base_app_id in
        let j =
          app_to_json build "if_guard" (constant_document build "int" "1") id (place s) "condition"
            (map (component_document build) cs) in
        (
          record st {
            base_app_id = st.base_app_id + 1;
            schema_applications = st.schema_applications ++ j ∷ [];
            edits = st.edits ++ guard_edit build json cfg sm parents (suc fuel) lines s id text;
          },
          j,
          _,
          rw (f1xapp_lem st.base_app_id cfg.file_id k (omega arith), e),
          load_application-document json build reads fuel id "if_guard" "condition"
              TransformationSchema.if_guard (constant_document build "int" "1") (constant "int" "1")
              (place s) cs (unfold transformation_schema_by_string in refl)
              (convert-constant json build reads fuel "int" "1") h.0 (omega arith),
          refl,
          refl,
          refl,
          omega arith,
          refl,
        )

    handle_expression-Records :
        (s : Stmt)
        → IsMatch (expression_match s)
        → Records (handle_expression build json cfg sm parents (suc fuel) lines) s
    unfolding handle_expression next_app_id stmt_to_json
    handle_expression-Records s h st k =
        let (cs, text, e) = components_of_match_lem s h.0 in
        let id : ℕ = cfg.file_id * value_limit + st.base_app_id in
        let context = context_text build json cfg sm parents (suc fuel) lines s in
        let d = document json build s in
        let j =
          app_to_json build "expression" d id (place s) context
            (map (component_document build) cs) in
        (
          record st {
            base_app_id = st.base_app_id + 1;
            schema_applications = st.schema_applications ++ j ∷ [];
            edits =
                st.edits
                ++ expression_edit build json cfg sm parents (suc fuel) lines s id text ∷ [];
          },
          j,
          _,
          rw (
            f1xapp_lem st.base_app_id cfg.file_id k (omega arith),
            visit_stmt_lem json build s [] h.1,
            e,
          ),
          load_application-document json build reads fuel id "expression" context
              TransformationSchema.expression d h.3.0 (place s) cs
              (unfold transformation_schema_by_string in refl)
              (convert_lem json build reads s (suc fuel) h.1 h.2 ∙ h.3.1) h.0.0 (omega arith),
          refl,
          refl,
          refl,
          omega arith,
          refl,
        )

    guarded_by-Step :
        (handle : Stmt → State J → Result (State J)) (s : Stmt) (st : State J)
        → Records handle s
        → st.base_app_id < value_limit
        → (st' : State J) × (guarded_by build json cfg sm parents (suc fuel) lines handle s st
            ≡ ok st')
          × Step s st st'
    unfolding guarded_by
    guarded_by-Step handle s st records k =
        let with_place : State J = record st { already_matched = place s ∷ st.already_matched } in
        let (st', j, sa, e, l, id, at, old, next, apps) = records with_place k in
        elim (Bool-cases (covers st.already_matched (place s))) [
          | inl c ↦ (st, rw c, Step.seen c refl)
          | inr c ↦ elim (Bool-cases (in_main s)) [
            | inr m ↦ (with_place, rw (c, m), Step.dismissed c (rw m) refl)
            | inl m ↦ elim (Bool-cases (is_interesting_location lines (place s))) [
              | inr i ↦ (with_place, rw (c, m, i), Step.dismissed c (rw (m, i)) refl)
              | inl i ↦
                  (st', rw (c, m, i) e, Step.recorded j sa c (rw (m, i)) l id at old next apps)
            ]
          ]
        ]

    -- Every match leads to one of the outcomes.
    pub run_match-Step :
        (m : Match) (st : State J)
        → IsMatch m
        → st.base_app_id < value_limit
        → (st' : State J) × (run_match build json cfg sm parents (suc fuel) lines m st ≡ ok st')
          × Step (matched m) st st'
    unfolding run_match
    run_match-Step (expression_match s) st h k =
        guarded_by-Step (handle_expression build json cfg sm parents (suc fuel) lines) s st
          (handle_expression-Records s h) k
    run_match-Step (guard_match s) st h k =
        guarded_by-Step (handle_guard build json cfg sm parents (suc fuel) lines) s st
          (handle_guard-Records s h) k
