-- ===== src/Ante/Wrap/Walk/Tests.antt =====
-- The types of small messages.
use flux_sdk_go.Common.{◌≡◌, refl, [], ◌∷◌, ok, err, codes, before_byte}
use flux_sdk_go.TypedData.{lookup_type}
use flux_sdk_go.TypedData.Sample.{field as row}
use flux_sdk_go.Ante.Wrap.{
  string, uint8, uint64, basic_type, Value, basic, nil_interface, pointer, slice, struct, no_items,
  item, Fields, no_fields, field, any, size,
}
use flux_sdk_go.Ante.Wrap.Names.{
  sanitize_typedef, json_name_from_tag, split_onto, write_parts, write_part, title_all, title_from,
}
use flux_sdk_go.Ante.Wrap.Walk.{
  Error, walk_fields, walk_message, walk, step, append_entry, type_key, add_basic,
}

names : sanitize_typedef (codes "_.foo_bar.baz") ≡ codes "TypeFooBarBaz"
unfolding sanitize_typedef split_onto write_parts write_part title_all title_from
names = refl

abbrev coin : Value
coin = struct (
    field (codes "denom") (basic string)
      (field (codes "amount,omitempty") (basic string) no_fields))

abbrev sent : Fields
sent = field (codes "sender") (basic string) (
    field (codes "coins") (slice (basic_type string) (item coin no_items))
      (field (codes "memo") (slice (basic_type uint8) (item (basic uint8) no_items)) no_fields))

-- The bytes of the memo are given the type of one byte.
walks_sent :
    walk_fields ((codes "MsgValue", []) ∷ []) (codes "MsgValue") (pointer (struct sent))
    ≡ ok (
        (
          codes "MsgValue",
          row "sender" "string" ∷ row "coins" "TypeCoins[]" ∷ row "memo" "uint8" ∷ [],
        )
        ∷ (codes "TypeCoins", row "denom" "string" ∷ row "amount" "string" ∷ [])
        ∷ [])
unfolding sanitize_typedef split_onto write_parts write_part title_all title_from walk_fields
    walk_message walk step append_entry type_key add_basic json_name_from_tag lookup_type size
    before_byte
walks_sent = refl

walks_any :
    walk_fields []
      (codes "MsgValue")
      (struct (field (codes "n") (basic uint64) (any (codes "key") (pointer coin) no_fields)))
    ≡ ok (
        (codes "MsgValue", row "n" "uint64" ∷ row "key" "TypeKey" ∷ [])
        ∷ (codes "TypeKey", row "type" "string" ∷ row "value" "TypeKeyValue" ∷ [])
        ∷ (codes "TypeKeyValue", row "denom" "string" ∷ row "amount" "string" ∷ [])
        ∷ [])
unfolding sanitize_typedef split_onto write_parts write_part title_all title_from walk_fields
    walk_message walk step append_entry type_key add_basic json_name_from_tag lookup_type size
    before_byte
walks_any = refl

recovers :
    walk_fields [] (codes "MsgValue") (struct (field (codes "x") nil_interface no_fields))
    ≡ err Error.recovered
unfolding walk_fields walk_message walk step json_name_from_tag lookup_type size type_key
recovers = refl
