-- ===== src/TypedData/Encode/Tests.antt =====
-- The encoding of a message of two struct types.
use flux_sdk_go.Common.{
  ◌∷◌, ◌≡◌, refl, ok, replicate, ◌++◌, Bytes, codes, cut_suffix, cut_prefix, before_byte,
  digits_value,
}
use flux_sdk_go.TypedData.{lookup_type, lookup_value}
use flux_sdk_go.TypedData.Sample.{lengths, mail, no_upper, person, fill}
use flux_sdk_go.TypedData.Validate.{
  validate, validate_types, check_types, check_entries, check_entry, is_reference_type, type_name,
  matches_reference, validate_domain, is_primitive_type_valid,
}
use flux_sdk_go.TypedData.Depend.{
  encode_type, dependencies, add_type, add_fields, add_missing, base_name, ordered, sort_strings,
  insert_string, write_types, write_type, write_fields, drop_last,
}
use flux_sdk_go.TypedData.Primitive.{
  encode_primitive_value, encode_address, encode_number, encode_string, parse_integer, integer_size,
  integer_value, atoi, atoi_digits,
}
use flux_sdk_go.TypedData.Primitive.Returns.{Returns}
use flux_sdk_go.TypedData.Encode.{
  encode_data, compute_typed_data_hash, hash_struct, encode_fields, encode_field, encode_item,
  encode_items, encode_array, encode_struct, ends_bracket, entries_depth, value_depth, items_depth,
  size, domain_map,
}
use flux_sdk_go.TypedData.Encode.Reference.{Encodes, compute_typed_data_hash-Encodes}
use flux_sdk_go.TypedData.Encode.Fuel.{compute_typed_data_hash-Returns}

-- A person is the hash of its type, a text of 22 bytes, and the wallet's address.
abbrev person_bytes : Bytes
person_bytes = fill 22 ++ (replicate 12 0 ++ replicate 20 42)

encodes_person : encode_data lengths no_upper mail 1 (codes "Person") person ≡ ok person_bytes
unfolding compute_typed_data_hash hash_struct encode_data encode_fields encode_field encode_item
    encode_items encode_array encode_struct ends_bracket entries_depth value_depth items_depth size
    domain_map validate validate_types check_types check_entries check_entry is_reference_type
    type_name matches_reference validate_domain encode_type dependencies add_type add_fields
    add_missing base_name ordered sort_strings insert_string write_types write_type write_fields
    drop_last encode_primitive_value encode_address encode_number encode_string parse_integer
    integer_size integer_value atoi atoi_digits is_primitive_type_valid lookup_type lookup_value
    cut_suffix cut_prefix before_byte digits_value
encodes_person = refl

compute_typed_data_hash-Returns_example : Returns (compute_typed_data_hash lengths no_upper mail)
compute_typed_data_hash-Returns_example = compute_typed_data_hash-Returns lengths no_upper mail

hashes_mail : compute_typed_data_hash lengths no_upper mail ≡ ok (fill 66)
unfolding compute_typed_data_hash hash_struct encode_data encode_fields encode_field encode_item
    encode_items encode_array encode_struct ends_bracket entries_depth value_depth items_depth size
    domain_map validate validate_types check_types check_entries check_entry is_reference_type
    type_name matches_reference validate_domain encode_type dependencies add_type add_fields
    add_missing base_name ordered sort_strings insert_string write_types write_type write_fields
    drop_last encode_primitive_value encode_address encode_number encode_string parse_integer
    integer_size integer_value atoi atoi_digits is_primitive_type_valid lookup_type lookup_value
    cut_suffix cut_prefix before_byte digits_value
hashes_mail = refl

compute_typed_data_hash-Encodes_example :
    (domain : Bytes) × (message : Bytes) × Encodes lengths mail
      (codes "EIP712Domain")
      (domain_map mail.domain)
      domain
    × Encodes lengths mail (codes "Mail") mail.message message
    × (fill 66
        ≡ lengths.keccak256 (25 ∷ 1 ∷ (lengths.keccak256 domain ++ lengths.keccak256 message)))
compute_typed_data_hash-Encodes_example =
    compute_typed_data_hash-Encodes lengths mail no_upper (fill 66) hashes_mail
