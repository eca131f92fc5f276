-- ===== src/TypedData/Encode/Laws.antt =====
-- The length of a member of what EncodeData answers.
use flux_sdk_go.Common.{◌≡◌, Result, ok, >>=-eq-ok, Bytes, length, arith, before_byte}
use flux_sdk_go.TypedData.{Types, Value, array, object, Entries}
use flux_sdk_go.TypedData.Primitive.{Ethereum, Error}
use flux_sdk_go.TypedData.Primitive.Laws.{length-encode_primitive_value}
use flux_sdk_go.TypedData.Encode.{
  encode_struct, encode_item, encode_items, encode_array, encode_field,
}

module _ (eth : Ethereum) (encode : Bytes → Entries → Result Error Bytes) (types : Types) where
  length-encode_struct :
      (name : Bytes) (v : Value) (b : Bytes)
      → encode_struct eth encode name v ≡ ok b
      → length b ≡ 32
  unfolding encode_struct
  length-encode_struct name (object es) b e =
      let (raw, _, same) = >>=-eq-ok (encode name es) _ e in
      ground (arith, eth.length-keccak256 raw)
  length-encode_struct name _ b e = cc

  length-encode_item :
      (name : Bytes) (v : Value) (b : Bytes)
      → encode_item eth encode types name v ≡ ok b
      → length b ≡ 32
  unfolding encode_item
  length-encode_item name v b e =
      ground (arith, length-encode_struct name v b, length-encode_primitive_value eth name v b)

  length-encode_array :
      (enc_type : Bytes) (v : Value) (b : Bytes)
      → encode_array eth encode types enc_type v ≡ ok b
      → length b ≡ 32
  unfolding encode_array
  length-encode_array enc_type (array xs) b e =
      let (raw, _, same) =
        >>=-eq-ok (encode_items eth encode types (before_byte 91 enc_type) xs) _ e in
      ground (arith, eth.length-keccak256 raw)
  length-encode_array enc_type _ b e = cc

  pub length-encode_field :
      (enc_type : Bytes) (v : Value) (b : Bytes)
      → encode_field eth encode types enc_type v ≡ ok b
      → length b ≡ 32
  unfolding encode_field
  length-encode_field enc_type v b e =
      ground (arith, length-encode_array enc_type v b, length-encode_item enc_type v b)
