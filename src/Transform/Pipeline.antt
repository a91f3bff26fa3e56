-- ===== src/Transform/Pipeline.antt =====
-- transform/SchemaApplication.cpp with repair/Util.cpp: what the repair tool loads for a file.
use f1x.Prelude.{
  ℕ, suc, ◌+◌, ◌*◌, ◌<◌, ◌≤◌, ◌≡◌, refl, List, [], length, All, true, false, String, ok,
}
use f1x.Core.{SchemaApplication}
use f1x.Loading.{Json, load_applications, load_sa_file}
use f1x.Transform.Clang.{DynNode, Parents, SourceManager}
use f1x.Transform.Documents.{JsonBuilder}
use f1x.Transform.Expressions.{Reads}
use f1x.Transform.Components.Visible.{IsRanked}
use f1x.Transform.Settings.{TransformConfig, value_limit}
use f1x.Transform.Schema.{State, Match, is_interesting_location, transform_file}
use f1x.Transform.Recorded.{
  HasIds, AreApart, AreMatches, IsRecorded, Steps-IsRecorded, run_all-Steps,
}

module _ {J : Type 0} (json : Json J) (build : JsonBuilder J) (reads : Reads json build)
    (cfg : TransformConfig) (sm : SourceManager) (parents : Parents) (rank : DynNode → ℕ)
    (ranked : IsRanked parents rank) (fuel : ℕ) (lines : List String) where
  -- Before the first match nothing is recorded.
  pub nothing-IsRecorded :
      (st : State J)
      → st.schema_applications ≡ []
      → IsRecorded json build reads cfg sm parents rank ranked fuel lines st.base_app_id st []
  unfolding load_applications
  nothing-IsRecorded st e = record { loads = rw e; ids = refl; known = tt; apart = tt; named = tt }

  -- For matches of supported expressions with operators that the repair tool knows, and of
  -- statements for guards, at places whose numbers fit an int and whose chains of parents end
  -- within the fuel, in a file with an id below 512 and with ids left for as many applications:
  -- the first run of the transformation on a file returns, and the repair tool loads the array
  -- of applications that it writes, with ids that count up from the first id of the file, no
  -- location twice, and only locations that the profile names.
  pub transform_file-load_sa_file :
      (ms : List Match) (st : State J)
      → cfg.file_id < 512
      → AreMatches json build reads cfg sm parents rank ranked fuel lines ms
      → st.base_app_id + length ms ≤ value_limit
      → (st' : State J) × (sas : List SchemaApplication) × (transform_file build json cfg sm parents
            (suc fuel)
            lines
            false
            ms
            st
          ≡ ok st')
        × (load_sa_file json (suc fuel) (build.array st'.schema_applications) ≡ ok sas)
        × HasIds
            (cfg.file_id * value_limit + st.base_app_id)
            sas
            (cfg.file_id * value_limit + st'.base_app_id)
        × AreApart sas
        × All (λ sa. is_interesting_location lines sa.location ≡ true) sas
  unfolding transform_file load_sa_file
  transform_file-load_sa_file ms st small h k =
      let start : State J = record st { schema_applications = [] } in
      let (st', e, steps) =
        run_all-Steps json build reads cfg sm parents rank ranked fuel lines ms start small h k in
      let (sas, r) =
        Steps-IsRecorded json build reads cfg sm parents rank ranked fuel lines st.base_app_id ms
          start st' [] steps (nothing-IsRecorded start refl) in
      (
        st',
        sas,
        e,
        rw (reads.get_array_array st'.schema_applications) r.loads,
        r.ids,
        r.apart,
        r.named,
      )
