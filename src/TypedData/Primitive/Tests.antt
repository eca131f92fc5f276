-- ===== src/TypedData/Primitive/Tests.antt =====
-- Integers and fixed byte types at their limits.
use flux_sdk_go.Common.{◌≡◌, refl, ◌≢◌, ok, err, codes, cut_prefix, digits_value, before_byte}
use flux_sdk_go.Common.Int.{pos, negsuc}
use flux_sdk_go.TypedData.{big}
use flux_sdk_go.TypedData.Sample.{lengths}
use flux_sdk_go.TypedData.Validate.{is_primitive_type_valid}
use flux_sdk_go.TypedData.Primitive.{
  too_large, negative, bad_size, unrecognized, integer_size, integer_value, parse_integer, atoi,
  atoi_digits, encode_primitive_value,
}
use flux_sdk_go.TypedData.Primitive.Types.{encode_primitive_value-knows-types}

takes_200 : parse_integer lengths (codes "int8") (big (pos 200)) ≡ ok (pos 200)
unfolding parse_integer integer_size integer_value atoi atoi_digits digits_value cut_prefix
takes_200 = refl

refuses_256 : parse_integer lengths (codes "int8") (big (pos 256)) ≡ err (too_large (codes "int8"))
unfolding parse_integer integer_size integer_value atoi atoi_digits digits_value cut_prefix
refuses_256 = refl

refuses_negative :
    parse_integer lengths (codes "uint8") (big (negsuc 0)) ≡ err (negative (codes "uint8"))
unfolding parse_integer integer_size integer_value atoi atoi_digits digits_value cut_prefix
refuses_negative = refl

encode_primitive_value-knows-types_example :
    (encode_primitive_value lengths (before_byte 91 (codes "uint8[]")) (big (pos 7))
      ≢ err (unrecognized (before_byte 91 (codes "uint8[]"))))
    × (encode_primitive_value lengths (before_byte 91 (codes "uint8[]")) (big (pos 7))
        ≢ err (bad_size (before_byte 91 (codes "uint8[]"))))
unfolding is_primitive_type_valid
encode_primitive_value-knows-types_example =
    encode_primitive_value-knows-types lengths (codes "uint8[]") (big (pos 7)) refl
