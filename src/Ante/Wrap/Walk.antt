-- ===== src/Ante/Wrap/Walk.antt =====
-- walkFields, traverseFields and extractMsgTypes of eip712_cosmos.go. The recursion is on the message; a table of
-- types is passed along. Where `reflect` panics, so does the walk, and walkFields answers an error for it.
pub mod Table
pub mod Clean
pub mod Keys
pub mod Grown
pub mod Parts
pub mod Laws
pub mod Values
mod Tests
use flux_sdk_go.Common.{
  ℕ, suc, Bool, true, false, List, [], ◌∷◌, ◌++◌, Result, ok, err, panic, ◌>>=◌, Bytes, codes,
  bytes_eq, length, or_else, if◌then◌else◌, ◌==◌,
}
use flux_sdk_go.TypedData.{TypeEntry, Types, lookup_type}
use flux_sdk_go.Ante.Wrap.{
  Typ, basic_type, text_type, other_type, interface_type, pointer_type, slice_type, struct_type,
  TypFields, no_types, field_type, any_type, Value, basic, text_struct, other, nil_interface,
  interface, pointer, nil_pointer, slice, struct, Items, no_items, item, Fields, no_fields, field,
  nil_any, broken_any, any, num_field, size, kind_name, typ_to_eth,
}
use flux_sdk_go.Ante.Wrap.Names.{sanitize_typedef, json_name_from_tag}

pub data Error : Type 0 where
  cannot_unpack recovered : Error

-- `typeDefPrefix`
abbrev pub type_def_prefix : Bytes
type_def_prefix = codes "_"

-- `typeMap[key] = append(typeMap[key], e)`
unfoldable pub append_entry : Types → Bytes → TypeEntry → Types
append_entry [] key e = (key, e ∷ []) ∷ []
append_entry ((k, fields) ∷ types) key e =
    let rest = (k, fields) ∷ append_entry types key e in
    if bytes_eq k key then (k, fields ++ (e ∷ [])) ∷ types else rest

-- `fmt.Sprintf("%s.%s", prefix, fieldName)`
abbrev pub child : Bytes → Bytes → Bytes
child prefix name = prefix ++ (46 ∷ name)

-- The type of the table that a prefix writes to.
unfoldable pub type_key : Bytes → Bytes → Bytes
type_key root prefix = if bytes_eq prefix type_def_prefix then root else sanitize_typedef prefix

abbrev pub field_entry : Bytes → Bytes → TypeEntry
field_entry name typ = record { name = name; typ = typ }

-- A field of a type that has a name in EIP-712; a type without one is passed over.
unfoldable pub add_basic : Bytes → Bytes → Bytes → Bytes → Types → Types
add_basic root prefix name [] types = types
add_basic root prefix name (c ∷ s) types =
    append_entry types (type_key root prefix) (field_entry name (c ∷ s))

-- `fieldTypedef`
abbrev pub field_typedef : Bool → Bytes → Bytes
field_typedef true prefix = sanitize_typedef prefix ++ codes "[]"
field_typedef false prefix = sanitize_typedef prefix

-- The start of traverseFields: a type that has all its fields already is left as it is.
abbrev pub traverse : Bytes → Bytes → ℕ → (Types → Result Error Types) → Types → Result Error Types
traverse root prefix n loop types =
    if length (or_else (lookup_type types (type_key root prefix)) []) == n
    then ok types
    else loop types

-- A field of a struct type: the field's own entry, then the fields of the struct.
abbrev pub add_struct :
    Bytes → Bytes → Bytes → Bool → ℕ → (Types → Result Error Types) → Types → Result Error Types
add_struct root prefix name is_collection n loop types = traverse root (child prefix name) n loop (
    append_entry types (type_key root prefix)
      (field_entry name (field_typedef is_collection (child prefix name))))

-- The fields of a struct that an interface holds without a pointer: the first access panics.
abbrev pub walk_boxed : ℕ → Types → Result Error Types
walk_boxed n types = if n == 0 then ok types else panic

-- A field of the type *codectypes.Any: the struct of a cosmosAnyWrapper, whose second field is an interface with
-- what was unpacked.
abbrev pub add_any :
    Bytes → Bytes → Bytes → (Types → Result Error Types) → Types → Result Error Types
add_any root prefix name value types =
    add_struct root prefix name false 2
      (λ t. value (add_basic root (child prefix name) (codes "type") (codes "string") t)) types

-- A field of which there is no value, below a nil pointer.
unfoldable mutual
  pub step_absent : Bytes → Bytes → Bytes → Bool → Typ → Types → Result Error Types
  step_absent root prefix name is_collection (basic_type k) types =
      ok (add_basic root prefix name (kind_name k) types)
  step_absent root prefix name is_collection text_type types =
      ok (add_basic root prefix name (codes "string") types)
  step_absent root prefix name is_collection other_type types = ok types
  step_absent root prefix name is_collection interface_type types = panic
  step_absent root prefix name is_collection (pointer_type t) types =
      step_absent root prefix name is_collection t types
  step_absent root prefix name true (slice_type t) types =
      ok (add_basic root prefix name (typ_to_eth (slice_type t)) types)
  step_absent root prefix name false (slice_type t) types = panic
  step_absent root prefix name is_collection (struct_type fs) types =
      add_struct root prefix name is_collection (num_field fs)
        (walk_absent root (child prefix name) fs) types

  pub walk_absent : Bytes → Bytes → TypFields → Types → Result Error Types
  walk_absent root prefix no_types types = ok types
  walk_absent root prefix (field_type tag t fs) types = do
    types' ← step_absent root prefix (json_name_from_tag tag) false t types
    walk_absent root prefix fs types'
  walk_absent root prefix (any_type tag fs) types = panic

-- One turn of the loop over the fields: its value, and whether it is the first element of a collection.
unfoldable mutual
  pub step : Bytes → Bytes → Bytes → Bool → Value → Types → Result Error Types
  step root prefix name is_collection (basic k) types =
      ok (add_basic root prefix name (kind_name k) types)
  step root prefix name is_collection text_struct types =
      ok (add_basic root prefix name (codes "string") types)
  step root prefix name is_collection other types = ok types
  step root prefix name is_collection nil_interface types = panic
  step root prefix name is_collection (interface v) types =
      step_boxed root prefix name is_collection v types
  step root prefix name is_collection (pointer v) types =
      step root prefix name is_collection v types
  step root prefix name is_collection (nil_pointer t) types =
      step_absent root prefix name is_collection t types
  step root prefix name true (slice t vs) types =
      ok (add_basic root prefix name (typ_to_eth (slice_type t)) types)
  step root prefix name false (slice t no_items) types = ok types
  step root prefix name false (slice t (item v vs)) types = step root prefix name true v types
  step root prefix name is_collection (struct fs) types =
      add_struct root prefix name is_collection (size fs) (walk root (child prefix name) fs) types

  -- What an interface holds. An interface holds no other.
  pub step_boxed : Bytes → Bytes → Bytes → Bool → Value → Types → Result Error Types
  step_boxed root prefix name is_collection (basic k) types =
      ok (add_basic root prefix name (kind_name k) types)
  step_boxed root prefix name is_collection text_struct types =
      ok (add_basic root prefix name (codes "string") types)
  step_boxed root prefix name is_collection other types = ok types
  step_boxed root prefix name is_collection nil_interface types = panic
  step_boxed root prefix name is_collection (interface v) types = panic
  step_boxed root prefix name is_collection (pointer v) types =
      step root prefix name is_collection v types
  step_boxed root prefix name is_collection (nil_pointer t) types =
      step_absent root prefix name is_collection t types
  step_boxed root prefix name true (slice t vs) types =
      ok (add_basic root prefix name (typ_to_eth (slice_type t)) types)
  step_boxed root prefix name false (slice t vs) types = panic
  step_boxed root prefix name is_collection (struct fs) types =
      add_struct root prefix name is_collection (size fs) (walk_boxed (size fs)) types

  pub walk : Bytes → Bytes → Fields → Types → Result Error Types
  walk root prefix no_fields types = ok types
  walk root prefix (field tag v fs) types = do
    types' ← step root prefix (json_name_from_tag tag) false v types
    walk root prefix fs types'
  walk root prefix (nil_any tag fs) types = panic
  walk root prefix (broken_any tag fs) types = err cannot_unpack
  walk root prefix (any tag v fs) types = do
    types' ←
        add_any root prefix (json_name_from_tag tag)
          (step_boxed root (child prefix (json_name_from_tag tag)) (codes "value") false v) types
    walk root prefix fs types'

-- A struct type below the pointers of a message that is nil.
unfoldable pub walk_nil : Bytes → Typ → Types → Result Error Types
walk_nil root (pointer_type t) types = walk_nil root t types
walk_nil root (struct_type fs) types =
    traverse root type_def_prefix (num_field fs) (walk_absent root type_def_prefix fs) types
walk_nil root _ types = panic

-- The message below its pointers; what is no struct has no fields to count.
unfoldable pub walk_message : Bytes → Value → Types → Result Error Types
walk_message root (pointer v) types = walk_message root v types
walk_message root (nil_pointer t) types = walk_nil root t types
walk_message root (struct fs) types =
    traverse root type_def_prefix (size fs) (walk root type_def_prefix fs) types
walk_message root _ types = panic

-- `doRecover`
abbrev pub recover {ℓ} : {A : Type ℓ} → Result Error A → Result Error A
recover (ok a) = ok a
recover (err e) = err e
recover panic = err recovered

-- `walkFields`
unfoldable pub walk_fields : Types → Bytes → Value → Result Error Types
walk_fields types root message = recover (walk_message root message types)
