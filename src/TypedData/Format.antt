-- ===== src/TypedData/Format.antt =====
-- Format, formatData and formatPrimitiveValue of typed_data.go: what a wallet shows of typed data. formatData
-- calls itself on what stands in its data, so the model's recursion is on fuel, and `stuck` when it is used up. The
-- texts that fmt and go-ethereum make of a value are a record.
pub mod Laws
pub mod Description
pub mod Shows
mod Tests
use flux_sdk_go.Common.{
  ℕ, zero, suc, Bool, true, false, ◌||◌, Option, List, [], ◌∷◌, Result, ok, err, ◌>>=◌, Bytes,
  codes, bytes_eq, has_prefix, has_suffix, trim_suffix, is_some, if◌then◌else◌,
}
use flux_sdk_go.Common.Int.{ℤ}
use flux_sdk_go.TypedData.{
  TypeEntry, Types, TypedMessage, Value, boolean, text, array, object, Items, no_items, item,
  Entries, no_entries, lookup_type, lookup_value,
}
use flux_sdk_go.TypedData.Primitive.{Ethereum, Error, stuck, mismatch, unrecognized, parse_integer}
use flux_sdk_go.TypedData.Encode.{domain_map, entries_depth, fields_of}

-- `fmt.Sprintf` with `%s`, and with `%d (0x%x)` of one number, and the checksummed text of HexToAddress.
pub record Printer : Type 0 where
  pub print_value : Value → Bytes
  pub print_number : ℤ → Bytes
  pub print_address : Bytes → Bytes

-- The value of a NameValueType: nil, a text, or a list of NameValueType, each with a name, a value and a type.
mutual
  pub data Shown : Type 0 where
    nothing : Shown
    shown_text : Bytes → Shown
    shown_struct : NameValueTypes → Shown

  pub data NameValueTypes : Type 0 where
    no_nvts : NameValueTypes
    nvt : Bytes → Shown → Bytes → NameValueTypes → NameValueTypes

-- A type assertion whose second answer is dropped: nil where it fails.
abbrev pub as_map : Value → Entries
as_map (object es) = es
as_map _ = no_entries

abbrev pub as_items : Value → Items
as_items (array xs) = xs
as_items _ = no_items

module _ (eth : Ethereum) (printer : Printer) where
  unfoldable pub format_address : Value → Result Error Bytes
  format_address (text s) = ok (printer.print_address s)
  format_address _ = err (mismatch (codes "address"))

  unfoldable pub format_bool : Value → Result Error Bytes
  format_bool (boolean b) = ok (if b then codes "true" else codes "false")
  format_bool _ = err (mismatch (codes "bool"))

  unfoldable pub format_integer : Bytes → Value → Result Error Bytes
  format_integer enc_type v = do b ← parse_integer eth enc_type v; ok (printer.print_number b)

  -- `formatPrimitiveValue`
  unfoldable pub format_primitive_value : Bytes → Value → Result Error Bytes
  format_primitive_value enc_type v =
      if bytes_eq enc_type (codes "address")
      then format_address v
      else if bytes_eq enc_type (codes "bool")
      then format_bool v
      else if bytes_eq enc_type (codes "bytes") || bytes_eq enc_type (codes "string")
      then ok (printer.print_value v)
      else if has_prefix enc_type (codes "bytes")
      then ok (printer.print_value v)
      else if has_prefix enc_type (codes "uint") || has_prefix enc_type (codes "int")
      then format_integer enc_type v
      else err (unrecognized enc_type)

  -- A value that is no struct, as the value of an item.
  unfoldable pub format_text : Bytes → Value → Result Error Shown
  format_text enc_type v = do output ← format_primitive_value enc_type v; ok (shown_text output)

  module _ (call : Bytes → Entries → Result Error NameValueTypes) (types : Types) where
    unfoldable pub format_map : Bytes → Entries → Result Error Shown
    format_map name es = do output ← call name es; ok (shown_struct output)

    -- One turn of the loop over an array, which is `whole`, of a field of type `enc_type`.
    unfoldable pub format_element : Bytes → Bytes → Value → Value → Result Error Shown
    format_element enc_type parsed_type whole v =
        if is_some (lookup_type types parsed_type)
        then format_map parsed_type (as_map v)
        else format_text enc_type whole

    -- The loop over an array: each turn overwrites the item's value.
    unfoldable pub format_array : Bytes → Bytes → Value → Items → Shown → Result Error Shown
    format_array enc_type parsed_type whole no_items shown = ok shown
    format_array enc_type parsed_type whole (item v rest) shown = do
      this ← format_element enc_type parsed_type whole v
      format_array enc_type parsed_type whole rest this

    unfoldable pub format_struct : Bytes → Value → Result Error Shown
    format_struct name (object es) = format_map name es
    format_struct name _ = ok (shown_text (codes "<nil>"))

    -- The `switch` on the type of a field.
    unfoldable pub format_field : Bytes → Value → Result Error Shown
    format_field enc_type v =
        if has_suffix enc_type (codes "[]")
        then format_array enc_type (trim_suffix enc_type (codes "[]")) v (as_items v) nothing
        else if is_some (lookup_type types enc_type)
        then format_struct enc_type v
        else format_text enc_type v

    unfoldable pub format_fields : List TypeEntry → Entries → Result Error NameValueTypes
    format_fields [] values = ok no_nvts
    format_fields (t ∷ fields) values = do
      this ← format_field t.typ (lookup_value values t.name)
      others ← format_fields fields values
      ok (nvt t.name this t.typ others)

  module _ (td : TypedMessage) where
    -- `formatData`
    unfoldable pub format_data : ℕ → Bytes → Entries → Result Error NameValueTypes
    format_data zero primary values = err stuck
    format_data (suc n) primary values =
        format_fields (format_data n) td.types (fields_of td primary) values

    -- A call with fuel for two calls more than objects nest: an element that is no object is shown as an empty one.
    unfoldable pub format_root : Bytes → Entries → Result Error NameValueTypes
    format_root primary values = format_data (suc (suc (entries_depth values))) primary values

    -- `Format`
    unfoldable pub format : Result Error NameValueTypes
    format = do
      domain ← format_root (codes "EIP712Domain") (domain_map td.domain)
      ptype ← format_root td.primary_type td.message
      ok (
          nvt (codes "EIP712Domain") (shown_struct domain) (codes "domain")
            (nvt td.primary_type (shown_struct ptype) (codes "primary type") no_nvts))
