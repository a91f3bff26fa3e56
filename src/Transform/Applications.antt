-- ===== src/Transform/Applications.antt =====
-- transform/SchemaApplication.cpp with repair/Util.cpp: the schema applications that are written are
-- those that are loaded.
use f1x.Prelude.{
  ℕ, suc, ◌<◌, ◌≡◌, refl, List, [], ◌∷◌, map, not, ◌&&◌, Option, none, some, String, str_lt,
  add_text, stable_sort, if◌then◌else◌, ok, inl, inr, Bool-cases,
}
use f1x.Core.{Location, TransformationSchema}
use f1x.Core.Expressions.{Expression, NodeKind}
use f1x.Util.Operators.{transformation_schema_by_string}
use f1x.Loading.{
  Json, context_by_string, is_complete, convert_expression, load_components, load_location,
  load_application,
}
use f1x.Transform.Clang.{QualType}
use f1x.Transform.Types.{is_pointer_type, get_pointee_type}
use f1x.Transform.Documents.{JsonBuilder, loc_to_json}
use f1x.Transform.Expressions.{Reads, leaf, raw_of}
use f1x.Transform.RoundTrip.{convert-variable, convert-dereference}
use f1x.Transform.Components.Made.{Component, document_of, component_document}
use f1x.Transform.Arguments.Layout.{loaded}
use f1x.Transform.Arguments.Grouping.{is_complete_pointer}
use f1x.Transform.Arguments.Totals.{pointee_types}
use f1x.Transform.Arguments.Loop.{document_of-members, flag-document, type_text}
use f1x.Transform.Schema.{app_to_json}

-- The numbers of a location fit an `int`.
abbrev pub int_limit : ℕ
int_limit = 2147483648

abbrev pub Fits : Location → Type 0
Fits l =
    (l.file_id < int_limit)
    × (l.begin_line < int_limit)
    × (l.begin_column < int_limit)
    × (l.end_line < int_limit)
    × (l.end_column < int_limit)

module _ {J : Type 0} (json : Json J) (build : JsonBuilder J) (reads : Reads json build) where
  open reads use {member_object, get_string_text, get_array_array, get_uint_number}

  convert-document_of :
      (fuel : ℕ) (b : Option String) (t : QualType) (r : String)
      → convert_expression json (suc fuel) (document_of build b t r)
        ≡ ok (leaf (elim b [ none ↦ NodeKind.variable | some b' ↦ NodeKind.dereference ]) t r)
  convert-document_of fuel none t r = convert-variable json build reads fuel t r
  convert-document_of fuel (some b) t r = convert-dereference json build reads fuel t r b

  is_complete-document_of :
      (b : Option String) (t : QualType) (r : String)
      → is_complete json (document_of build b t r) (type_text (is_pointer_type t))
        ≡ ok (is_pointer_type t && not (get_pointee_type t).1)
  is_complete-document_of b t r = elim (Bool-cases (is_pointer_type t)) [
    | inl e ↦ rw (e, flag-document json build reads b t r e)
    | inr e ↦ rw e
  ]

  pub load_components-documents :
      (fuel : ℕ) (cs : List Component) (types : List String)
      → load_components json (suc fuel) (map (component_document build) cs) types
        ≡ ok (map loaded cs, pointee_types cs types)
  unfolding load_components component_document pointee_types
  load_components-documents fuel [] types = refl
  load_components-documents fuel (c ∷ cs) types = rw (
    convert-document_of fuel c.base c.type c.repr,
    (document_of-members json build reads c.base c.type c.repr).1,
    is_complete-document_of c.base c.type c.repr,
    load_components-documents fuel cs
        (if is_complete_pointer c then add_text types (raw_of c.type) else types),
  )

  load_location-document :
      (app : J) (l : Location)
      → json.member app "location"
        ≡ some (loc_to_json build l.file_id l.begin_line l.begin_column l.end_line l.end_column)
      → Fits l
      → load_location json app ≡ ok l
  unfolding load_location loc_to_json
  load_location-document app l e h = simp (
    e,
    member_object,
    get_uint_number l.file_id h.0,
    get_uint_number l.begin_line h.1,
    get_uint_number l.begin_column h.2,
    get_uint_number l.end_line h.3,
    get_uint_number l.end_column h.4,
  )

  -- loadSAFile reads from the object of an application what the handler has put into it.
  pub load_application-document :
      (fuel id : ℕ) (schema_text context : String) (schema : TransformationSchema) (document : J)
      (e : Expression) (l : Location) (cs : List Component)
      → transformation_schema_by_string schema_text ≡ ok schema
      → convert_expression json (suc fuel) document ≡ ok e
      → Fits l
      → id < int_limit
      → load_application json
          (suc fuel)
          (app_to_json build schema_text document id l context (map (component_document build) cs))
        ≡ ok (record {
          id = id;
          schema = schema;
          location = l;
          context = context_by_string context;
          original = e;
          components = map loaded cs;
          complete_pointee_types = stable_sort str_lt (pointee_types cs []);
        })
  unfolding load_application app_to_json
  load_application-document fuel id schema_text context schema document e l cs p q h k =
      let app =
        app_to_json build schema_text document id l context (map (component_document build) cs) in
      simp (
        load_location-document app l (simp member_object) h,
        member_object,
        get_string_text,
        get_array_array,
        get_uint_number id k,
        p,
        q,
        load_components-documents fuel cs [],
      )
