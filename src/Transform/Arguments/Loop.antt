-- ===== src/Transform/Arguments/Loop.antt =====
-- transform/TransformUtil.cpp with repair/Synthesis.cpp: how the loop of `makeArgumentList` reads the
-- documents of components.
use f1x.Prelude.{
  ◌≡◌, refl, List, [], ◌∷◌, map, Bool, true, false, Option, none, some, String, str_eq,
  if◌then◌else◌, ok, arith, inl, inr, Bool-cases, ◌∙◌,
}
use f1x.Loading.{Json, text_of_member, flag_of_member}
use f1x.Transform.Clang.{QualType}
use f1x.Transform.Types.{is_pointer_type, get_pointee_type}
use f1x.Transform.Documents.{JsonBuilder, type_members, variable_document, dereference_document}
use f1x.Transform.Expressions.{Reads, raw_of}
use f1x.Transform.Components.Made.{Component, document_of, component_document}
use f1x.Transform.Arguments.{Groups, add_dereference, add_pointer, add_value, group_components}
use f1x.Transform.Arguments.Grouping.{
  with_base, with_kind, with_pointer, with_value, with_component, groups,
}

abbrev pub kind_text : Option String → String
kind_text none = "variable"
kind_text (some b) = "dereference"

abbrev pub type_text : Bool → String
type_text true = "pointer"
type_text false = "integer"

module _ {J : Type 0} (json : Json J) (build : JsonBuilder J) (reads : Reads json build) where
  open reads use {member_object, get_string_text, get_bool_flag}

  pub document_of-members :
      (b : Option String) (t : QualType) (r : String)
      → (text_of_member json (document_of build b t r) "kind" ≡ ok (kind_text b))
        × (text_of_member json (document_of build b t r) "type"
            ≡ ok (type_text (is_pointer_type t)))
        × (text_of_member json (document_of build b t r) "rawType" ≡ ok (raw_of t))
        × (text_of_member json (document_of build b t r) "repr" ≡ ok r)
  unfolding variable_document dereference_document type_members
  document_of-members none t r = elim (Bool-cases (is_pointer_type t)) [
    | inl e ↦ (
      simp (member_object, get_string_text),
      simp (e, member_object, get_string_text),
      simp (e, member_object, get_string_text),
      simp (e, member_object, get_string_text),
    )
    | inr e ↦ (
      simp (member_object, get_string_text),
      simp (e, member_object, get_string_text),
      simp (e, member_object, get_string_text),
      simp (e, member_object, get_string_text),
    )
  ]
  document_of-members (some b) t r = elim (Bool-cases (is_pointer_type t)) [
    | inl e ↦ (
      simp (member_object, get_string_text),
      simp (e, member_object, get_string_text),
      simp (e, member_object, get_string_text),
      simp (e, member_object, get_string_text),
    )
    | inr e ↦ (
      simp (member_object, get_string_text),
      simp (e, member_object, get_string_text),
      simp (e, member_object, get_string_text),
      simp (e, member_object, get_string_text),
    )
  ]

  base-document :
      (b : String) (t : QualType) (r : String)
      → text_of_member json (document_of build (some b) t r) "base" ≡ ok b
  unfolding dereference_document type_members
  base-document b t r = elim (Bool-cases (is_pointer_type t)) [
    | inl e ↦ simp (e, member_object, get_string_text)
    | inr e ↦ simp (e, member_object, get_string_text)
  ]

  pub flag-document :
      (b : Option String) (t : QualType) (r : String)
      → is_pointer_type t ≡ true
      → flag_of_member json (document_of build b t r) "incomplete" ≡ ok (get_pointee_type t).1
  unfolding variable_document dereference_document type_members
  flag-document none t r e = simp (e, member_object, get_bool_flag)
  flag-document (some b) t r e = simp (e, member_object, get_bool_flag)

  with_base-step :
      (b : Option String) (t : QualType) (r : String) (g : Groups J)
      → (if str_eq (kind_text b) "dereference"
          then add_dereference json (document_of build b t r) g
          else ok g)
        ≡ ok (with_base build b r g)
  unfolding add_dereference
  with_base-step none t r g = refl
  with_base-step (some b) t r g =
      rw ((document_of-members (some b) t r).3, base-document b t r) (ground arith)

  kind-step :
      (c : Component) (g : Groups J)
      → (if str_eq (kind_text c.base) "dereference"
          then add_dereference json (component_document build c) g
          else ok g)
        ≡ ok (with_kind build c g)
  unfolding with_kind component_document
  kind-step c g = with_base-step c.base c.type c.repr g

  pointer-step :
      (c : Component) (g : Groups J)
      → is_pointer_type c.type ≡ true
      → add_pointer json (component_document build c) g ≡ ok (with_pointer build c g)
  unfolding add_pointer with_pointer component_document
  pointer-step c g e =
      rw (flag-document c.base c.type c.repr e, (document_of-members c.base c.type c.repr).2)
        (ground arith)

  value-step :
      (c : Component) (g : Groups J)
      → add_value json (component_document build c) g ≡ ok (with_value build c g)
  unfolding add_value with_value component_document
  value-step c g = rw (document_of-members c.base c.type c.repr).2

  document-members :
      (c : Component)
      → (text_of_member json (component_document build c) "kind" ≡ ok (kind_text c.base))
        × (text_of_member json (component_document build c) "type"
            ≡ ok (type_text (is_pointer_type c.type)))
  unfolding component_document
  document-members c = let h = document_of-members c.base c.type c.repr in (h.0, h.1)

  group_components-step :
      (c : Component) (js : List J) (g : Groups J)
      → group_components json (component_document build c ∷ js) g
        ≡ group_components json js (with_component build c g)
  unfolding group_components
  group_components-step c js g =
      let h = document-members c in
      elim (Bool-cases (is_pointer_type c.type)) [
        | inl e ↦
            rw (h.0, kind-step c g, h.1, e, pointer-step c (with_kind build c g) e)
              (unfold with_component in rw e)
        | inr e ↦
            rw (h.0, kind-step c g, h.1, e, value-step c (with_kind build c g))
              (unfold with_component in rw e)
      ]

  pub group_components_lem :
      (cs : List Component) (g : Groups J)
      → group_components json (map (component_document build) cs) g ≡ ok (groups build cs g)
  unfolding groups
  group_components_lem [] g = unfold group_components in refl
  group_components_lem (c ∷ cs) g =
      group_components-step c (map (component_document build) cs) g
      ∙ group_components_lem cs (with_component build c g)

  pub repr-document :
      (c : Component) → text_of_member json (component_document build c) "repr" ≡ ok c.repr
  unfolding component_document
  repr-document c = (document_of-members c.base c.type c.repr).3
