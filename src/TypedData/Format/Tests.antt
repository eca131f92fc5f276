-- ===== src/TypedData/Format/Tests.antt =====
-- What is shown of letters.
use flux_sdk_go.Common.{
  ◌≡◌, refl, ◌≢◌, ◌⊎◌, [], ◌∷◌, Bytes, ok, err, codes, cut_suffix, cut_prefix, String, digits_value,
}
use flux_sdk_go.TypedData.{
  Types, TypedMessage, Value, text, array, object, item, no_items, Entries, entry, no_entries,
  lookup_type, lookup_value,
}
use flux_sdk_go.TypedData.Sample.{lengths, field, mail}
use flux_sdk_go.TypedData.Primitive.{
  Error, stuck, unrecognized, parse_integer, integer_size, integer_value, atoi, atoi_digits,
}
use flux_sdk_go.TypedData.Encode.{domain_map, value_depth, items_depth, entries_depth}
use flux_sdk_go.TypedData.Format.{
  Printer, Shown, nothing, shown_text, shown_struct, NameValueTypes, no_nvts, nvt, format_address,
  format_bool, format_integer, format_primitive_value, format_text, format_map, format_element,
  format_array, format_struct, format_field, format_fields, format_data, format_root, format,
}
use flux_sdk_go.TypedData.Format.Shows.{IsFormat, format-Shows}

abbrev name_text : Value → Bytes
name_text (text s) = s
name_text _ = []

abbrev plain : Printer
plain = record {
  print_value = name_text;
  print_number = λ n. codes "7 (0x7)";
  print_address = λ s. s;
}

abbrev zero_address : Bytes
zero_address = codes "0x0000000000000000000000000000000000000000"

abbrev shown_person : Shown
shown_person =
    shown_struct (nvt (codes "wallet") (shown_text zero_address) (codes "address") no_nvts)

abbrev shown_mail : NameValueTypes
shown_mail = nvt (codes "from") shown_person (codes "Person") (
    nvt (codes "to") shown_person (codes "Person[]")
      (nvt (codes "size") (shown_text (codes "7 (0x7)")) (codes "uint8") no_nvts))

run : Unit {0}
unfolding format_address format_bool format_integer format_primitive_value format_text format_map
    format_element format_array format_struct format_field format_fields format_data format_root
    format domain_map value_depth items_depth entries_depth parse_integer integer_size integer_value
    atoi atoi_digits lookup_type lookup_value cut_suffix cut_prefix digits_value
run = tt

shows_mail : format_root lengths plain mail (codes "Mail") mail.message ≡ ok shown_mail
unfolding run
shows_mail = refl

abbrev people : Types
people =
    (codes "Team", field "names" "string[]" ∷ field "members" "Person[]" ∷ [])
    ∷ (codes "Person", field "name" "string" ∷ [])
    ∷ []

abbrev team : Entries → TypedMessage
team message = record {
  types = people;
  primary_type = codes "Team";
  domain = mail.domain;
  message = message;
}

abbrev named : String → Value
named s = object (entry (codes "name") (text (codes s)) no_entries)

-- Of two members only the second is shown.
shows_last :
    format_root lengths plain
      (team no_entries)
      (codes "Team")
      (entry (codes "members") (array (item (named "a") (item (named "b") no_items))) no_entries)
    ≡ ok (
        nvt (codes "names") nothing (codes "string[]") (
          nvt
            (codes "members")
            (shown_struct (nvt (codes "name") (shown_text (codes "b")) (codes "string") no_nvts))
            (codes "Person[]")
            no_nvts))
unfolding run
shows_last = refl

-- An array of strings that is not empty is refused.
refuses_strings :
    format_root lengths plain
      (team no_entries)
      (codes "Team")
      (entry (codes "names") (array (item (text (codes "a")) no_items)) no_entries)
    ≡ err (unrecognized (codes "string[]"))
unfolding run
refuses_strings = refl

format-Shows_example :
    ((out : NameValueTypes) × (domain : NameValueTypes) × (message : NameValueTypes) × (format
          lengths plain mail
        ≡ ok out)
      × IsFormat lengths plain mail domain message out)
    ⊎ ((x : Error) × (format lengths plain mail ≡ err x) × (x ≢ stuck))
format-Shows_example = format-Shows lengths plain mail
