-- ===== src/Transform/Eventually.antt =====
-- transform/SchemaApplication.cpp with repair/Util.cpp: a location of the profile that Clang matches is
-- reported.
use f1x.Prelude.{
  ℕ, suc, ◌+◌, ◌<◌, ◌≤◌, ◌≡◌, refl, List, [], ◌∷◌, ◌++◌, map, length, All, Bool, true, false, ◌||◌,
  String, ok, arith, inl, inr, Bool-cases, ap, sym, subst, ◌∙◌,
}
use f1x.Core.{Location, location_eq, location_eq_sound, SchemaApplication}
use f1x.Loading.{Json, load_applications, load_sa_file}
use f1x.Profiler.{covers}
use f1x.Transform.Clang.{Stmt, DynNode, Parents, SourceManager}
use f1x.Transform.Documents.{JsonBuilder}
use f1x.Transform.Expressions.{Reads}
use f1x.Transform.Components.Visible.{IsRanked}
use f1x.Transform.Settings.{TransformConfig, value_limit}
use f1x.Transform.Schema.{State, Match, matched, is_interesting_location, transform_file}
use f1x.Transform.Steps.{in_main, is_wanted, Step}
use f1x.Transform.Recorded.{
  locations, covers-locations_left, covers-locations_last, at, StepOf, Steps, AreMatches,
  IsRecorded, Step-IsRecorded, run_all-Steps, load_applications-append,
}
use f1x.Transform.Pipeline.{nothing-IsRecorded}

ok_inj {ℓ} : {A : Type ℓ} {a b : A} → ok a ≡ ok b → a ≡ b
ok_inj e = cc e

regroup : (a b c d : Bool) → (a || (b || c)) ≡ true → ((b || a) ≡ true → d ≡ true) → (d || c) ≡ true
regroup a b c true k h = refl
regroup a true c false k h = cc (h refl)
regroup true false c false k h = cc (h refl)
regroup false false c false k h = k

module _ {J : Type 0} (json : Json J) (build : JsonBuilder J) (reads : Reads json build)
    (cfg : TransformConfig) (sm : SourceManager) (parents : Parents) (rank : DynNode → ℕ)
    (ranked : IsRanked parents rank) (fuel : ℕ) (lines : List String) (l : Location) where
  abbrev here : Stmt → Location
  here = at json build reads cfg sm parents rank ranked fuel lines

  abbrev RecordedAs : ℕ → State J → List SchemaApplication → Type 0
  RecordedAs = IsRecorded json build reads cfg sm parents rank ranked fuel lines

  -- A statement at the location stands in the main file.
  abbrev pub IsMainAt : Stmt → Type 0
  IsMainAt s =
      location_eq (here s) l ≡ true
      → in_main json build reads cfg sm parents rank ranked fuel lines s ≡ true

  abbrev Loads : State J → List SchemaApplication → Type 0
  Loads st sas = load_applications json (suc fuel) st.schema_applications ≡ ok sas

  -- If the location was matched, it is among those that are loaded.
  abbrev IsLive : State J → List SchemaApplication → Type 0
  IsLive st sas = covers st.already_matched l ≡ true → covers (locations sas) l ≡ true

  dismissed_elsewhere :
      (s : Stmt)
      → is_wanted json build reads cfg sm parents rank ranked fuel lines s ≡ false
      → is_interesting_location lines l ≡ true
      → IsMainAt s
      → location_eq (here s) l ≡ false
  dismissed_elsewhere s w i m = elim (Bool-cases (location_eq (here s) l)) [
    | inr e ↦ e
    | inl e ↦
        let same = location_eq_sound (here s) l e in
        let named : is_interesting_location lines (here s) ≡ true =
          ap (is_interesting_location lines) same ∙ i in
        let main = m e in ground (arith, main, named, w)
  ]

  Step-IsLive :
      (s : Stmt) (st st' : State J) (sas sas' : List SchemaApplication)
      → StepOf json build reads cfg sm parents rank ranked fuel lines s st st'
      → is_interesting_location lines l ≡ true
      → IsMainAt s
      → Loads st sas
      → Loads st' sas'
      → IsLive st sas
      → IsLive st' sas'
  Step-IsLive s st st' sas sas' (Step.seen c e) i m p q live k =
      let same : sas ≡ sas' = ok_inj (sym p ∙ (subst (λ t. Loads t sas') e q)) in
      subst (λ x. covers (locations x) l ≡ true) same
        (live (subst (λ t. covers t.already_matched l ≡ true) e k))
  Step-IsLive s st st' sas sas' (Step.dismissed c w e) i m p q live k =
      let same : sas ≡ sas' = ok_inj (sym p ∙ (subst (λ t. Loads t sas') e q)) in
      let k' : covers (here s ∷ st.already_matched) l ≡ true =
        subst (λ t. covers t.already_matched l ≡ true) e k in
      let elsewhere = dismissed_elsewhere s w i m in
      subst (λ x. covers (locations x) l ≡ true) same (live (ground (arith, elsewhere, k')))
  Step-IsLive s st st' sas sas' (Step.recorded j sa c w loads id place old next apps) i m p q live
        k =
      let all : Loads st' (sas ++ sa ∷ []) =
        rw apps
          (load_applications-append json (suc fuel) st.schema_applications j sas sa p loads) in
      let same : sas ++ sa ∷ [] ≡ sas' = ok_inj (sym all ∙ q) in
      let k' : covers (here s ∷ st.already_matched) l ≡ true =
        subst (λ ls. covers ls l ≡ true) old k in
      subst (λ x. covers (locations x) l ≡ true) same
        (elim (Bool-cases (location_eq (here s) l)) [
          | inl e ↦
              let found : sa.location ≡ l = place ∙ location_eq_sound (here s) l e in
              subst (λ x. covers (locations (sas ++ sa ∷ [])) x ≡ true) found
                (covers-locations_last sas sa)
          | inr e ↦ covers-locations_left l sas sa (live (ground (arith, e, k')))
        ])

  Step-covers :
      (s : Stmt) (st st' : State J)
      → StepOf json build reads cfg sm parents rank ranked fuel lines s st st'
      → covers (here s ∷ st.already_matched) l ≡ true
      → covers st'.already_matched l ≡ true
  Step-covers s st st' (Step.seen c e) k = elim (Bool-cases (location_eq (here s) l)) [
    | inl p ↦
        let same = location_eq_sound (here s) l p in
        rw e (subst (λ x. covers st.already_matched x ≡ true) same c)
    | inr p ↦ rw e (ground (arith, p, k))
  ]
  Step-covers s st st' (Step.dismissed c w e) k = rw e k
  Step-covers s st st' (Step.recorded j sa c w loads id place old next apps) k = rw old k

  -- The matched statements, and whether one of them is at the location
  abbrev pub statements : List Match → List Location
  statements = map (λ m. here (matched m))

  Steps-IsLive :
      (first : ℕ) (ms : List Match) (st st' : State J) (sas : List SchemaApplication)
      → Steps json build reads cfg sm parents rank ranked fuel lines ms st st'
      → is_interesting_location lines l ≡ true
      → All (λ m. IsMainAt (matched m)) ms
      → RecordedAs first st sas
      → IsLive st sas
      → (sas' : List SchemaApplication) × Loads st' sas'
        × IsLive st' sas'
        × (covers st.already_matched l || covers (statements ms) l ≡ true
            → covers st'.already_matched l ≡ true)
  Steps-IsLive first [] st st' sas e i ms r live =
      (sas, rw e r.loads, rw e live, λ k. rw e (ground (arith, k)))
  Steps-IsLive first (m ∷ ms) st st' sas (mid, step, later) i (main, mains) r live =
      let (next, r') =
        Step-IsRecorded json build reads cfg sm parents rank ranked fuel lines first (matched m) st
          mid sas step r in
      let live' = Step-IsLive (matched m) st mid sas next step i main r.loads r'.loads live in
      let (sas', p, q, c) = Steps-IsLive first ms mid st' next later i mains r' live' in
      let stays = Step-covers (matched m) st mid step in
      (
        sas',
        p,
        q,
        λ k. c (
            regroup (covers st.already_matched l) (location_eq (here (matched m)) l)
              (covers (statements ms) l) (covers mid.already_matched l) k stays),
      )

  -- For matches of supported expressions with operators that the repair tool knows, and of
  -- statements for guards, at places whose numbers fit an int and whose chains of parents end
  -- within the fuel, in a file with an id below 512 and with ids left for as many applications:
  -- a location that the profile names, that was not matched before the file and that one of the
  -- matches has, where every match with it stands in the main file, is the location of a schema
  -- application that the repair tool loads.
  pub transform_file-eventually :
      (ms : List Match) (st : State J)
      → cfg.file_id < 512
      → AreMatches json build reads cfg sm parents rank ranked fuel lines ms
      → st.base_app_id + length ms ≤ value_limit
      → is_interesting_location lines l ≡ true
      → covers st.already_matched l ≡ false
      → covers (statements ms) l ≡ true
      → All (λ m. IsMainAt (matched m)) ms
      → (st' : State J) × (sas : List SchemaApplication) × (transform_file build json cfg sm parents
            (suc fuel)
            lines
            false
            ms
            st
          ≡ ok st')
        × (load_sa_file json (suc fuel) (build.array st'.schema_applications) ≡ ok sas)
        × (covers (locations sas) l ≡ true)
  unfolding transform_file load_sa_file
  transform_file-eventually ms st small h k i fresh there mains =
      let start : State J = record st { schema_applications = [] } in
      let (st', e, steps) =
        run_all-Steps json build reads cfg sm parents rank ranked fuel lines ms start small h k in
      let nothing =
        nothing-IsRecorded json build reads cfg sm parents rank ranked fuel lines start refl in
      let (sas, p, live, seen) =
        Steps-IsLive st.base_app_id ms start st' [] steps i mains nothing
          (λ old. cc (old, fresh)) in
      (
        st',
        sas,
        e,
        rw (reads.get_array_array st'.schema_applications) p,
        live (seen (rw there (ground arith))),
      )
