-- ===== src/Transform/Components/Distinct.antt =====
-- transform/TransformUtil.cpp: `collectComponents` keeps each text once.
use f1x.Prelude.{
  ℕ, ◌<◌, ◌≡◌, refl, List, [], ◌∷◌, ◌++◌, map, All, All-append, All-mono, Bool, not, true, false,
  Option, none, some, String, str_eq, str_eq_iff, if◌then◌else◌, ok, arith, inl, inr, ◌⊎◌,
  Bool-cases, sym, subst,
}
use mathlib.Core.List.{map-append}
use f1x.Loading.{Json, text_of_member}
use f1x.Transform.Clang.{QualType, Stmt, DynNode, statement, Parents, SourceManager}
use f1x.Transform.Types.{is_pointer_type}
use f1x.Transform.Documents.{JsonBuilder, type_members, variable_document, dereference_document}
use f1x.Transform.Expressions.{Reads}
use f1x.Transform.Components.{
  collect_from_expression, collect_visible, is_new, keep_new, collect_components,
}
use f1x.Transform.Components.Visible.{IsBlock, IsRanked, collect_visible-Makes}
use f1x.Transform.Components.Made.{
  Component, document_of, component_document, collect_from_expression-Makes,
}

-- The same on components: whether a text is among theirs, and the first component of each text.
abbrev pub has_repr : String → List Component → Bool
has_repr r [] = false
has_repr r (c ∷ cs) = let rest = has_repr r cs in if str_eq r c.repr then true else rest

abbrev pub keep : List Component → List Component → List Component
keep [] kept = kept
keep (c ∷ cs) kept = keep cs (if has_repr c.repr kept then kept else kept ++ c ∷ [])

-- No text twice.
abbrev pub AreDistinct : List Component → Type 0
AreDistinct [] = Unit
AreDistinct (c ∷ cs) = (has_repr c.repr cs ≡ false) × AreDistinct cs

-- One of the components
abbrev pub IsAmong : List Component → Component → Type 0
IsAmong [] c = ⊥
IsAmong (d ∷ ds) c = (c ≡ d) ⊎ IsAmong ds c

has_repr-append :
    (r : String) (xs : List Component) (c : Component)
    → has_repr r (xs ++ c ∷ []) ≡ (if has_repr r xs then true else str_eq r c.repr)
has_repr-append r [] c = ground arith
has_repr-append r (x ∷ xs) c = ground (arith, has_repr-append r xs c)

add-AreDistinct :
    (xs : List Component) (c : Component)
    → AreDistinct xs
    → has_repr c.repr xs ≡ false
    → AreDistinct (xs ++ c ∷ [])
add-AreDistinct [] c h k = (refl, tt)
add-AreDistinct (x ∷ xs) c h k = (
  rw (has_repr-append x.repr xs c)
      (ground (arith, h, str_eq_iff c.repr x.repr, str_eq_iff x.repr c.repr)),
  add-AreDistinct xs c h.1 (ground (arith, str_eq_iff c.repr x.repr)),
)

keep-AreDistinct : (cs kept : List Component) → AreDistinct kept → AreDistinct (keep cs kept)
keep-AreDistinct [] kept h = h
keep-AreDistinct (c ∷ cs) kept h = elim (Bool-cases (has_repr c.repr kept)) [
  | inl e ↦ rw e (keep-AreDistinct cs kept h)
  | inr e ↦ rw e (keep-AreDistinct cs (kept ++ c ∷ []) (add-AreDistinct kept c h e))
]

keep-has_old :
    (r : String) (cs kept : List Component)
    → has_repr r kept ≡ true
    → has_repr r (keep cs kept) ≡ true
keep-has_old r [] kept h = h
keep-has_old r (c ∷ cs) kept h = elim (Bool-cases (has_repr c.repr kept)) [
  | inl e ↦ rw e (keep-has_old r cs kept h)
  | inr e ↦ rw e (keep-has_old r cs (kept ++ c ∷ []) (rw (has_repr-append r kept c, h)))
]

keep-has_each : (cs kept : List Component) → All (λ c. has_repr c.repr (keep cs kept) ≡ true) cs
keep-has_each [] kept = tt
keep-has_each (c ∷ cs) kept = elim (Bool-cases (has_repr c.repr kept)) [
  | inl e ↦
      let same : keep cs kept ≡ keep (c ∷ cs) kept = rw e in
      subst (Holds c cs) same (keep-has_old c.repr cs kept e, keep-has_each cs kept)
  | inr e ↦
      let same : keep cs (kept ++ c ∷ []) ≡ keep (c ∷ cs) kept = rw e in
      let here : has_repr c.repr (kept ++ c ∷ []) ≡ true =
        rw (has_repr-append c.repr kept c, e) ((str_eq_iff c.repr c.repr).1 refl) in
      subst (Holds c cs) same
        (keep-has_old c.repr cs (kept ++ c ∷ []) here, keep-has_each cs (kept ++ c ∷ []))
]
  where
    Holds : Component → List Component → List Component → Type 0
    Holds c cs out = All (λ d. has_repr d.repr out ≡ true) (c ∷ cs)

keep-All {κ} :
    (P : Component → Type κ) (cs kept : List Component)
    → All P cs
    → All P kept
    → All P (keep cs kept)
keep-All P [] kept h k = k
keep-All P (c ∷ cs) kept h k = elim (Bool-cases (has_repr c.repr kept)) [
  | inl e ↦ rw e (keep-All P cs kept h.1 k)
  | inr e ↦ rw e (keep-All P cs (kept ++ c ∷ []) h.1 (All-append P kept (c ∷ []) k (h.0, tt)))
]

keep-append : (xs ys kept : List Component) → keep (xs ++ ys) kept ≡ keep ys (keep xs kept)
keep-append [] ys kept = refl
keep-append (x ∷ xs) ys kept =
    keep-append xs ys (if has_repr x.repr kept then kept else kept ++ x ∷ [])

IsAmong-self : (cs : List Component) → All (IsAmong cs) cs
IsAmong-self [] = tt
IsAmong-self (c ∷ cs) =
    (inl refl, All-mono (IsAmong cs) (IsAmong (c ∷ cs)) (λ d k. inr k) cs (IsAmong-self cs))

module _ {J : Type 0} (json : Json J) (build : JsonBuilder J) (reads : Reads json build) where
  open reads use {member_object, get_string_text}

  repr-document_of :
      (b : Option String) (t : QualType) (r : String)
      → text_of_member json (document_of build b t r) "repr" ≡ ok r
  unfolding variable_document dereference_document type_members
  repr-document_of none t r = elim (Bool-cases (is_pointer_type t)) [
    | inl e ↦ simp (e, member_object, get_string_text)
    | inr e ↦ simp (e, member_object, get_string_text)
  ]
  repr-document_of (some b) t r = elim (Bool-cases (is_pointer_type t)) [
    | inl e ↦ simp (e, member_object, get_string_text)
    | inr e ↦ simp (e, member_object, get_string_text)
  ]

  repr-document :
      (c : Component) → text_of_member json (component_document build c) "repr" ≡ ok c.repr
  unfolding component_document
  repr-document c = repr-document_of c.base c.type c.repr

  is_new_lem :
      (c : Component) (cs : List Component)
      → is_new json (component_document build c) (map (component_document build) cs)
        ≡ ok (not (has_repr c.repr cs))
  unfolding is_new
  is_new_lem c [] = refl
  is_new_lem c (d ∷ ds) = rw (repr-document c, repr-document d, is_new_lem c ds) (ground arith)

  keep_new_lem :
      (cs kept : List Component)
      → keep_new json (map (component_document build) cs) (map (component_document build) kept)
        ≡ ok (map (component_document build) (keep cs kept))
  unfolding keep_new
  keep_new_lem [] kept = refl
  keep_new_lem (c ∷ cs) kept = elim (Bool-cases (has_repr c.repr kept)) [
    | inl e ↦ rw (is_new_lem c kept, e) (keep_new_lem cs kept)
    | inr e ↦
        rw (is_new_lem c kept, e, ← map-append (component_document build) kept (c ∷ []))
          (keep_new_lem cs (kept ++ c ∷ []))
  ]

  module _ (sm : SourceManager) (line : ℕ) (use_globals : Bool) (parents : Parents)
      (rank : DynNode → ℕ) (ranked : IsRanked parents rank) where
    -- Where the chain of first parents of a statement ends within the fuel and references that are
    -- assigned to name variables, the code finds the components in the statement and those that are
    -- visible at it, and collectComponents returns some of them: no text twice, and for each one that was
    -- found one with its text.
    pub collect_components-distinct :
        (fuel : ℕ) (s : Stmt)
        → IsBlock (statement s)
        → rank (statement s) < fuel
        → (from visible cs : List Component) × (collect_from_expression build false false s
            ≡ ok (map (component_document build) from))
          × (collect_visible build sm line use_globals parents fuel (statement s)
              ≡ ok (map (component_document build) visible))
          × (collect_components build sm line json use_globals parents fuel s
              ≡ ok (map (component_document build) cs))
          × AreDistinct cs
          × All (λ c. has_repr c.repr cs ≡ true) (from ++ visible)
          × All (IsAmong (from ++ visible)) cs
    unfolding collect_components
    collect_components-distinct fuel s h k =
        let (from, e) = collect_from_expression-Makes build false false s in
        let (visible, e') =
          collect_visible-Makes build sm line use_globals parents rank ranked fuel (statement s) h
            k in
        let found = from ++ visible in
        let twice : keep visible (keep from []) ≡ keep found [] =
          sym (keep-append from visible []) in
        (
          from,
          visible,
          keep found [],
          e,
          e',
          rw (e, e', keep_new_lem from [], keep_new_lem visible (keep from []), twice),
          keep-AreDistinct found [] tt,
          keep-has_each found [],
          keep-All (IsAmong found) found [] (IsAmong-self found) tt,
        )
