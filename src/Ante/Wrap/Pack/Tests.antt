-- ===== src/Ante/Wrap/Pack/Tests.antt =====
-- The typed data of a transfer whose fee another account pays.
use flux_sdk_go.Common.{◌≡◌, refl, Option, some, [], ok, Bytes, codes, before_byte}
use flux_sdk_go.TypedData.{TypedMessage, object, text, Entries, entry, no_entries, lookup_value}
use flux_sdk_go.TypedData.Sample.{no_upper}
use flux_sdk_go.TypedData.Validate.{validate}
use flux_sdk_go.Ante.Wrap.{
  Value, string, uint64, basic, pointer, nil_pointer, slice, struct, struct_type, basic_type,
  text_struct, no_items, item, no_fields, field, any, no_types, field_type,
}
use flux_sdk_go.Ante.Wrap.Names.{
  json_name_from_tag, sanitize_typedef, split_onto, write_parts, write_part, title_all, title_from,
}
use flux_sdk_go.Ante.Wrap.Walk.Clean.{IsCleanMessage, IsClean, IsCleanType, keeps, keeps_type}
use flux_sdk_go.Ante.Wrap.Pack.{wrap_tx_to_eip712}
use flux_sdk_go.Ante.Wrap.Pack.Sound.{NamesPayer, wrap_tx_to_eip712-validate}

abbrev coin : Value
coin = struct (field (codes "denom") (basic string) (field (codes "amount") text_struct no_fields))

-- A transfer of coins, with a packed key and an option that is nil.
abbrev transfer : Value
transfer = pointer (
    struct (
      field (codes "sender") (basic string) (
        field (codes "coins,omitempty") (slice (basic_type string) (item coin no_items)) (
          any (codes "key") (pointer coin) (
            field (codes "option")
              (nil_pointer (struct_type (field_type (codes "limit") (basic_type uint64) no_types)))
              no_fields)))))

transfer-IsCleanMessage : IsCleanMessage transfer
unfolding IsCleanMessage IsClean IsCleanType keeps keeps_type json_name_from_tag sanitize_typedef
    split_onto write_parts write_part title_all title_from before_byte
transfer-IsCleanMessage = (
  λ p. cc,
  (
    ((refl, λ p. cc), ((λ p. cc, (λ p. cc, tt)), refl)),
    (
      (refl, λ p. cc),
      (
        ((refl, λ p. cc), ((λ p. cc, (λ p. cc, tt)), refl)),
        (((refl, λ p. cc), ((λ p. cc, tt), refl)), tt),
      ),
    ),
  ),
)

abbrev tx : Entries
tx = entry (codes "fee") (object (entry (codes "gas") (text (codes "5")) no_entries)) no_entries

abbrev decode : Bytes → Option Entries
decode bytes = some tx

decodes_fee : (fee : Entries) × (lookup_value tx (codes "fee") ≡ object fee)
unfolding lookup_value
decodes_fee = (entry (codes "gas") (text (codes "5")) no_entries, refl)

wrap_tx_to_eip712-validate_example :
    (td : TypedMessage) × (wrap_tx_to_eip712 decode 1 transfer [] (some (codes "lux1b")) ≡ ok td)
    × (validate no_upper td ≡ ok tt)
    × (td.primary_type ≡ codes "Tx")
    × NamesPayer (some (codes "lux1b")) tx td.message
wrap_tx_to_eip712-validate_example =
    wrap_tx_to_eip712-validate no_upper decode 1 transfer [] (some (codes "lux1b")) tx refl
      transfer-IsCleanMessage decodes_fee
