-- ===== src/Ante/Wrap/Walk/Clean.antt =====
-- The messages whose types the walk describes: what `reflect` does not panic on, with fields named by words,
-- where a slice stands in a slice only with elements of a basic type, and where no struct is left without a field.
use flux_sdk_go.Common.{◌≡◌, ◌≢◌, Bool, true, false, not, ◌||◌, [], ◌∷◌, Bytes, codes}
use flux_sdk_go.TypedData.Validate.{all_word}
use flux_sdk_go.Ante.Wrap.{
  Typ, basic_type, text_type, other_type, interface_type, pointer_type, slice_type, struct_type,
  TypFields, no_types, field_type, any_type, Value, basic, text_struct, other, nil_interface,
  interface, pointer, nil_pointer, slice, struct, no_items, item, Fields, no_fields, field, nil_any,
  broken_any, any, typ_to_eth,
}
use flux_sdk_go.Ante.Wrap.Names.{sanitize_typedef, json_name_from_tag}

abbrev pub is_empty : Bytes → Bool
is_empty [] = true
is_empty (_ ∷ _) = false

-- Does a field of the type, or with the value, get an entry?
unfoldable mutual
  pub keeps_type : Typ → Bool
  keeps_type (basic_type k) = true
  keeps_type text_type = true
  keeps_type other_type = false
  keeps_type interface_type = false
  keeps_type (pointer_type t) = keeps_type t
  keeps_type (slice_type t) = not (is_empty (typ_to_eth (slice_type t)))
  keeps_type (struct_type fs) = true

  pub keeps_types : TypFields → Bool
  keeps_types no_types = false
  keeps_types (field_type tag t fs) = keeps_type t || keeps_types fs
  keeps_types (any_type tag fs) = false

unfoldable mutual
  pub keeps : Bool → Value → Bool
  keeps is_collection (basic k) = true
  keeps is_collection text_struct = true
  keeps is_collection other = false
  keeps is_collection nil_interface = false
  keeps is_collection (interface v) = keeps is_collection v
  keeps is_collection (pointer v) = keeps is_collection v
  keeps is_collection (nil_pointer t) = keeps_type t
  keeps true (slice t vs) = not (is_empty (typ_to_eth (slice_type t)))
  keeps false (slice t no_items) = false
  keeps false (slice t (item v vs)) = keeps true v
  keeps is_collection (struct fs) = true

  pub keeps_fields : Fields → Bool
  keeps_fields no_fields = false
  keeps_fields (field tag v fs) = keeps false v || keeps_fields fs
  keeps_fields (nil_any tag fs) = false
  keeps_fields (broken_any tag fs) = false
  keeps_fields (any tag v fs) = true

-- The name of a field of a struct type: a word, from which a name of a type is made.
abbrev pub IsStructName : Bytes → Type 0
IsStructName name = (all_word name ≡ true) × (sanitize_typedef name ≢ [])

abbrev pub IsFlat : Typ → Type 0
IsFlat (slice_type t) = ⊥
IsFlat _ = Unit {0}

unfoldable mutual
  pub IsCleanType : Bool → Bytes → Typ → Type 0
  IsCleanType is_collection name (basic_type k) = name ≢ []
  IsCleanType is_collection name text_type = name ≢ []
  IsCleanType is_collection name other_type = Unit {0}
  IsCleanType is_collection name interface_type = ⊥
  IsCleanType is_collection name (pointer_type t) = IsCleanType is_collection name t
  IsCleanType true name (slice_type t) = (name ≢ []) × IsFlat t
  IsCleanType false name (slice_type t) = ⊥
  IsCleanType is_collection name (struct_type fs) =
      IsStructName name × (AreCleanTypes fs × (keeps_types fs ≡ true))

  pub AreCleanTypes : TypFields → Type 0
  AreCleanTypes no_types = Unit {0}
  AreCleanTypes (field_type tag t fs) =
      IsCleanType false (json_name_from_tag tag) t × AreCleanTypes fs
  AreCleanTypes (any_type tag fs) = ⊥

unfoldable mutual
  pub IsClean : Bool → Bytes → Value → Type 0
  IsClean is_collection name (basic k) = name ≢ []
  IsClean is_collection name text_struct = name ≢ []
  IsClean is_collection name other = Unit {0}
  IsClean is_collection name nil_interface = ⊥
  IsClean is_collection name (interface v) = IsCleanBoxed is_collection name v
  IsClean is_collection name (pointer v) = IsClean is_collection name v
  IsClean is_collection name (nil_pointer t) = IsCleanType is_collection name t
  IsClean true name (slice t vs) = (name ≢ []) × IsFlat t
  IsClean false name (slice t no_items) = Unit {0}
  IsClean false name (slice t (item v vs)) = IsClean true name v
  IsClean is_collection name (struct fs) =
      IsStructName name × (AreClean fs × (keeps_fields fs ≡ true))

  -- What an interface holds: a struct only behind a pointer, and a slice only as an element.
  pub IsCleanBoxed : Bool → Bytes → Value → Type 0
  IsCleanBoxed is_collection name (basic k) = name ≢ []
  IsCleanBoxed is_collection name text_struct = name ≢ []
  IsCleanBoxed is_collection name other = Unit {0}
  IsCleanBoxed is_collection name nil_interface = ⊥
  IsCleanBoxed is_collection name (interface v) = ⊥
  IsCleanBoxed is_collection name (pointer v) = IsClean is_collection name v
  IsCleanBoxed is_collection name (nil_pointer t) = IsCleanType is_collection name t
  IsCleanBoxed true name (slice t vs) = (name ≢ []) × IsFlat t
  IsCleanBoxed false name (slice t vs) = ⊥
  IsCleanBoxed is_collection name (struct fs) = ⊥

  pub AreClean : Fields → Type 0
  AreClean no_fields = Unit {0}
  AreClean (field tag v fs) = IsClean false (json_name_from_tag tag) v × AreClean fs
  AreClean (nil_any tag fs) = ⊥
  AreClean (broken_any tag fs) = ⊥
  AreClean (any tag v fs) =
      IsStructName (json_name_from_tag tag) × (IsCleanBoxed false (codes "value") v × AreClean fs)

unfoldable pub IsCleanNil : Typ → Type 0
IsCleanNil (pointer_type t) = IsCleanNil t
IsCleanNil (struct_type fs) = AreCleanTypes fs
IsCleanNil _ = ⊥

-- A message: a struct behind any number of pointers, the last of which may be nil.
unfoldable pub IsCleanMessage : Value → Type 0
IsCleanMessage (pointer v) = IsCleanMessage v
IsCleanMessage (nil_pointer t) = IsCleanNil t
IsCleanMessage (struct fs) = AreClean fs
IsCleanMessage _ = ⊥
