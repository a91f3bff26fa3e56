-- ===== src/Transform/Recorded.antt =====
-- transform/SchemaApplication.cpp with repair/Util.cpp: the schema applications of a file, from the
-- matches that Clang finds to the applications that the repair tool loads.
use f1x.Prelude.{
  ℕ, suc, ◌+◌, ◌*◌, ◌<◌, ◌≤◌, ◌≡◌, ◌≢◌, refl, List, [], ◌∷◌, ◌++◌, map, length, All, All-append,
  All-mono, true, false, String, ok, ◌>>=◌, IsOk-bind_parts, arith, ap, sym, subst,
}
use f1x.Core.{Location, SchemaApplication}
use f1x.Loading.{Json, load_application, load_applications}
use f1x.Profiler.{covers}
use f1x.Transform.Clang.{Stmt, DynNode, Parents, SourceManager}
use f1x.Transform.Documents.{JsonBuilder}
use f1x.Transform.Expressions.{Reads}
use f1x.Transform.Components.Visible.{IsRanked}
use f1x.Transform.Locations.{location_eq_refl, covers-cons}
use f1x.Transform.Settings.{TransformConfig, value_limit}
use f1x.Transform.Schema.{State, Match, matched, is_interesting_location, run_all}
use f1x.Transform.Steps.{place, is_wanted, IsMatch, Step, run_match-Step}

-- The ids count from the first number to the second.
abbrev pub HasIds : ℕ → List SchemaApplication → ℕ → Type 0
HasIds n [] m = n ≡ m
HasIds n (sa ∷ sas) m = (sa.id ≡ n) × HasIds (suc n) sas m

-- No location twice
abbrev pub AreApart : List SchemaApplication → Type 0
AreApart [] = Unit
AreApart (sa ∷ sas) = All (λ sb. sa.location ≢ sb.location) sas × AreApart sas

append-HasIds :
    (n m : ℕ) (sas : List SchemaApplication) (sa : SchemaApplication)
    → HasIds n sas m
    → sa.id ≡ m
    → HasIds n (sas ++ sa ∷ []) (suc m)
append-HasIds n m [] sa h e = (omega (arith, h), omega (arith, h))
append-HasIds n m (sb ∷ sas) sa h e = (h.0, append-HasIds (suc n) m sas sa h.1 e)

append-AreApart :
    (sas : List SchemaApplication) (sa : SchemaApplication)
    → AreApart sas
    → All (λ sb. sb.location ≢ sa.location) sas
    → AreApart (sas ++ sa ∷ [])
append-AreApart [] sa h k = (tt, tt)
append-AreApart (sb ∷ sas) sa h k = (
  All-append (λ sc. sb.location ≢ sc.location) sas (sa ∷ []) h.0 (k.0, tt),
  append-AreApart sas sa h.1 k.1,
)

abbrev pub locations : List SchemaApplication → List Location
locations = map (λ sa. sa.location)

pub covers-locations_left :
    (l : Location) (sas : List SchemaApplication) (sa : SchemaApplication)
    → covers (locations sas) l ≡ true
    → covers (locations (sas ++ sa ∷ [])) l ≡ true
covers-locations_left l [] sa h = cc h
covers-locations_left l (sb ∷ sas) sa h = ground (arith, covers-locations_left l sas sa)

pub covers-locations_last :
    (sas : List SchemaApplication) (sa : SchemaApplication)
    → covers (locations (sas ++ sa ∷ [])) sa.location ≡ true
covers-locations_last [] sa = ground (arith, location_eq_refl sa.location)
covers-locations_last (sb ∷ sas) sa = ground (arith, covers-locations_last sas sa)

pub load_applications-append :
    {J : Type 0} (json : Json J) (fuel : ℕ) (js : List J) (j : J) (sas : List SchemaApplication)
    (sa : SchemaApplication)
    → load_applications json fuel js ≡ ok sas
    → load_application json fuel j ≡ ok sa
    → load_applications json fuel (js ++ j ∷ []) ≡ ok (sas ++ sa ∷ [])
unfolding load_applications
load_applications-append json fuel [] j sas sa h k = ground (arith, k)
load_applications-append json fuel (i ∷ js) j sas sa h k =
    let (a, e, (tail, e')) =
      IsOk-bind_parts (load_application json fuel i)
        (λ sb. load_applications json fuel js >>= λ rest. ok (sb ∷ rest)) (sas, h) in
    let (rest, e'', (out, same)) =
      IsOk-bind_parts (load_applications json fuel js) (λ rest. ok (a ∷ rest)) (tail, e') in
    let step = load_applications-append json fuel js j rest sa e'' k in
    rw (e, step) (ground (arith, e, e'', h))

module _ {J : Type 0} (json : Json J) (build : JsonBuilder J) (reads : Reads json build)
    (cfg : TransformConfig) (sm : SourceManager) (parents : Parents) (rank : DynNode → ℕ)
    (ranked : IsRanked parents rank) (fuel : ℕ) (lines : List String) where
  abbrev pub at : Stmt → Location
  at = place json build reads cfg sm parents rank ranked fuel lines

  abbrev pub StepOf : Stmt → State J → State J → Type 0
  StepOf = Step json build reads cfg sm parents rank ranked fuel lines

  -- The steps for a list of matches
  abbrev pub Steps : List Match → State J → State J → Type 0
  Steps [] st st' = st' ≡ st
  Steps (m ∷ ms) st st' = (mid : State J) × StepOf (matched m) st mid × Steps ms mid st'

  -- The applications of the state, as the repair tool loads them
  pub record IsRecorded (first : ℕ) (st : State J) (sas : List SchemaApplication) : Type 0 where
    pub loads : load_applications json (suc fuel) st.schema_applications ≡ ok sas
    pub ids :
        HasIds (cfg.file_id * value_limit + first) sas (cfg.file_id * value_limit + st.base_app_id)
    pub known : All (λ sa. covers st.already_matched sa.location ≡ true) sas
    pub apart : AreApart sas
    pub named : All (λ sa. is_interesting_location lines sa.location ≡ true) sas

  covers-apart :
      (ls : List Location) (l : Location) (sas : List SchemaApplication)
      → covers ls l ≡ false
      → All (λ sa. covers ls sa.location ≡ true) sas
      → All (λ sa. sa.location ≢ l) sas
  covers-apart ls l sas h k =
      All-mono (λ sa. covers ls sa.location ≡ true) (λ sa. sa.location ≢ l)
        (λ sa c e. cc (c, h, ap (covers ls) e)) sas k

  pub wanted-interesting :
      (s : Stmt)
      → is_wanted json build reads cfg sm parents rank ranked fuel lines s ≡ true
      → is_interesting_location lines (at s) ≡ true
  wanted-interesting s w = ground (arith, w)

  pub Step-IsRecorded :
      (first : ℕ) (s : Stmt) (st st' : State J) (sas : List SchemaApplication)
      → StepOf s st st'
      → IsRecorded first st sas
      → (sas' : List SchemaApplication) × IsRecorded first st' sas'
  Step-IsRecorded first s st st' sas (Step.seen c e) r =
      (sas, subst (λ t. IsRecorded first t sas) (sym e) r)
  Step-IsRecorded first s st st' sas (Step.dismissed c w e) r = (
    sas,
    subst (λ t. IsRecorded first t sas) (sym e)
        (record {
          loads = r.loads;
          ids = r.ids;
          known =
              All-mono (λ sa. covers st.already_matched sa.location ≡ true)
                (λ sa. covers (at s ∷ st.already_matched) sa.location ≡ true)
                (λ sa k. covers-cons (at s) sa.location st.already_matched k) sas r.known;
          apart = r.apart;
          named = r.named;
        }),
  )
  Step-IsRecorded first s st st' sas (Step.recorded j sa c w l id here old next apps) r =
      let covered : All (λ sb. covers st'.already_matched sb.location ≡ true) sas = rw old (
        All-mono (λ sb. covers st.already_matched sb.location ≡ true)
          (λ sb. covers (at s ∷ st.already_matched) sb.location ≡ true)
          (λ sb k. covers-cons (at s) sb.location st.already_matched k) sas r.known) in
      let new : covers st'.already_matched sa.location ≡ true =
        rw (old, here) (ground (arith, location_eq_refl (at s))) in
      let counted : suc (cfg.file_id * value_limit + st.base_app_id)
          ≡ cfg.file_id * value_limit + st'.base_app_id =
        omega (arith, next) in
      let others : All (λ sb. sb.location ≢ sa.location) sas =
        rw here (covers-apart st.already_matched (at s) sas c r.known) in
      let all_ids =
        append-HasIds (cfg.file_id * value_limit + first)
          (cfg.file_id * value_limit + st.base_app_id) sas sa r.ids id in
      (
        sas ++ sa ∷ [],
        record {
          loads =
              rw apps (
                load_applications-append json (suc fuel) st.schema_applications j sas sa r.loads l);
          ids = subst (HasIds (cfg.file_id * value_limit + first) (sas ++ sa ∷ [])) counted all_ids;
          known =
              All-append (λ sb. covers st'.already_matched sb.location ≡ true) sas (sa ∷ []) covered
                (new, tt);
          apart = append-AreApart sas sa r.apart others;
          named =
              All-append (λ sb. is_interesting_location lines sb.location ≡ true) sas (sa ∷ [])
                r.named (rw here (wanted-interesting s w), tt);
        },
      )

  pub Steps-IsRecorded :
      (first : ℕ) (ms : List Match) (st st' : State J) (sas : List SchemaApplication)
      → Steps ms st st'
      → IsRecorded first st sas
      → (sas' : List SchemaApplication) × IsRecorded first st' sas'
  Steps-IsRecorded first [] st st' sas e r = (sas, subst (λ t. IsRecorded first t sas) (sym e) r)
  Steps-IsRecorded first (m ∷ ms) st st' sas (mid, here, later) r =
      let (next, r') = Step-IsRecorded first (matched m) st mid sas here r in
      Steps-IsRecorded first ms mid st' next later r'

  abbrev pub AreMatches : List Match → Type 0
  AreMatches = All (IsMatch json build reads cfg sm parents rank ranked fuel lines)

  pub Step-base :
      (s : Stmt) (st st' : State J) → StepOf s st st' → st'.base_app_id ≤ suc st.base_app_id
  Step-base s st st' (Step.seen c e) = rw e (omega arith)
  Step-base s st st' (Step.dismissed c w e) = rw e (omega arith)
  Step-base s st st' (Step.recorded j sa c w l id here old next apps) = omega (arith, next)

  pub run_all-Steps :
      (ms : List Match) (st : State J)
      → cfg.file_id < 512
      → AreMatches ms
      → st.base_app_id + length ms ≤ value_limit
      → (st' : State J) × (run_all build json cfg sm parents (suc fuel) lines ms st ≡ ok st')
        × Steps ms st st'
  unfolding run_all
  run_all-Steps [] st small h k = (st, refl, refl)
  run_all-Steps (m ∷ ms) st small h k =
      let (mid, e, here) =
        run_match-Step json build reads cfg sm parents rank ranked fuel lines small m st h.0
          (omega arith) in
      let bound = Step-base (matched m) st mid here in
      let (st', e', later) = run_all-Steps ms mid small h.1 (omega arith) in
      (st', rw e e', (mid, here, later))
