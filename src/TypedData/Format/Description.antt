-- ===== src/TypedData/Format/Description.antt =====
-- A description of what Format shows, by the types and the values alone.
use flux_sdk_go.Common.{
  ◌≡◌, Bool, true, false, Option, none, some, List, [], ◌∷◌, ok, Bytes, codes, has_suffix,
  trim_suffix,
}
use flux_sdk_go.TypedData.{
  TypeEntry, Types, Value, object, Items, no_items, item, Entries, lookup_type, lookup_value,
}
use flux_sdk_go.TypedData.Primitive.{Ethereum}
use flux_sdk_go.TypedData.Format.{
  Printer, Shown, nothing, shown_text, shown_struct, NameValueTypes, no_nvts, nvt, as_map, as_items,
  format_primitive_value,
}

-- The last element of an array, if it has one.
unfoldable pub last_item : Items → Option Value
last_item no_items = none
last_item (item v no_items) = some v
last_item (item v (item w rest)) = last_item (item w rest)

-- A value that is an object.
abbrev pub as_object : Value → Option Entries
as_object (object es) = some es
as_object _ = none

abbrev pub is_array : Bytes → Bool
is_array enc_type = has_suffix enc_type (codes "[]")

abbrev pub element_type : Bytes → Bytes
element_type enc_type = trim_suffix enc_type (codes "[]")

module _ (eth : Ethereum) (printer : Printer) (types : Types) where
  mutual
    -- The items of a struct: one for each field of its type, in order, with the field's name and type.
    pub data Shows : List TypeEntry → Entries → NameValueTypes → Type 0 where
      no_field : {es : Entries} → Shows [] es no_nvts
      field :
          {t : TypeEntry} {fields : List TypeEntry} {es : Entries} {s : Shown}
          {rest : NameValueTypes}
          → ShowsField t.typ (lookup_value es t.name) s
          → Shows fields es rest
          → Shows (t ∷ fields) es (nvt t.name s t.typ rest)

    -- The value that a field shows: of an array of structs the last element, of another array that is not empty the
    -- whole array as a primitive value, of a struct its items, or `<nil>` where the value is no object.
    pub data ShowsField : Bytes → Value → Shown → Type 0 where
      empty_array :
          {typ : Bytes} {v : Value}
          → is_array typ ≡ true
          → last_item (as_items v) ≡ none
          → ShowsField typ v nothing
      struct_array :
          {typ : Bytes} {v last : Value} {fields : List TypeEntry} {out : NameValueTypes}
          → is_array typ ≡ true
          → last_item (as_items v) ≡ some last
          → lookup_type types (element_type typ) ≡ some fields
          → Shows fields (as_map last) out
          → ShowsField typ v (shown_struct out)
      primitive_array :
          {typ : Bytes} {v last : Value} {s : Bytes}
          → is_array typ ≡ true
          → last_item (as_items v) ≡ some last
          → lookup_type types (element_type typ) ≡ none
          → format_primitive_value eth printer typ v ≡ ok s
          → ShowsField typ v (shown_text s)
      struct :
          {typ : Bytes} {v : Value} {es : Entries} {fields : List TypeEntry} {out : NameValueTypes}
          → is_array typ ≡ false
          → lookup_type types typ ≡ some fields
          → as_object v ≡ some es
          → Shows fields es out
          → ShowsField typ v (shown_struct out)
      no_struct :
          {typ : Bytes} {v : Value} {fields : List TypeEntry}
          → is_array typ ≡ false
          → lookup_type types typ ≡ some fields
          → as_object v ≡ none
          → ShowsField typ v (shown_text (codes "<nil>"))
      primitive :
          {typ : Bytes} {v : Value} {s : Bytes}
          → is_array typ ≡ false
          → lookup_type types typ ≡ none
          → format_primitive_value eth printer typ v ≡ ok s
          → ShowsField typ v (shown_text s)
