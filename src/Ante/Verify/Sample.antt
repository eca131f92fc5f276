-- ===== src/Ante/Verify/Sample.antt =====
-- A transfer whose fee another account pays. The hash of a text is its length, and a signature repeats the hash.
use flux_sdk_go.Common.{
  ℕ, ◌-◌, ◌==◌, String, ◌≡◌, refl, true, false, some, none, [], ◌∷◌, Result, ok, Bytes, codes, take,
  bytes_eq, replicate, if◌then◌else◌, cut_suffix, cut_prefix, before_byte, digits_value,
}
use flux_sdk_go.TypedData.{
  Value, text, object, array, item, no_items, Entries, entry, no_entries, lookup_type, lookup_value,
}
use flux_sdk_go.TypedData.Sample.{lengths, no_upper}
use flux_sdk_go.TypedData.Validate.{
  validate, validate_types, check_types, check_entries, check_entry, is_reference_type, type_name,
  matches_reference, validate_domain, is_primitive_type_valid,
}
use flux_sdk_go.TypedData.Depend.{
  encode_type, dependencies, add_type, add_fields, add_missing, base_name, ordered, sort_strings,
  insert_string, write_types, write_type, write_fields, drop_last, bytes_lt,
}
use flux_sdk_go.TypedData.Primitive.{
  encode_primitive_value, encode_number, encode_string, parse_integer, integer_size, integer_value,
  atoi, atoi_digits,
}
use flux_sdk_go.TypedData.Encode.{
  encode_data, compute_typed_data_hash, hash_struct, encode_fields, encode_field, encode_item,
  encode_items, encode_array, encode_struct, ends_bracket, entries_depth, size, domain_map,
}
use flux_sdk_go.Ante.Fee
use flux_sdk_go.Ante.Fee.{Bank, deduct_fee_handle, delegated_payer, extension_payer, deduct_fees}
use flux_sdk_go.Ante.Verify.Payer.{fee_tx}
use flux_sdk_go.Ante.Wrap
use flux_sdk_go.Ante.Wrap.{string, basic, struct, pointer, no_fields, field}
use flux_sdk_go.Ante.Wrap.Names.{sanitize_typedef, json_name_from_tag}
use flux_sdk_go.Ante.Wrap.Walk.{
  walk_fields, walk_message, walk, step, append_entry, type_key, add_basic,
}
use flux_sdk_go.Ante.Wrap.Pack.{
  wrap_tx_to_eip712, extract_msg_types, set_type, set_value, to_int64, eip712_domain,
}
use flux_sdk_go.Ante.Verify.{
  Error, Web3, web3, single, Signature, Tx, Chain, read_web3, read_extension, check_fee_payer,
  signed_hash, verify_signature_eip712, signer_data, check_signature, check_signatures,
  eip712_handle,
}

abbrev pub message : Entries
message = entry (codes "sender") (text (codes "lux1a")) no_entries

abbrev pub put : String → Value → Entries → Entries
put name v rest = entry (codes name) v rest

abbrev pub fee_json : Value
fee_json = object (put "amount" (array no_items) (put "gas" (text (codes "5")) no_entries))

abbrev pub msg_json : Value
msg_json = object (put "type" (text (codes "send")) (put "value" (object message) no_entries))

abbrev pub tx_json : Entries
tx_json = put "account_number" (text (codes "4")) (
    put "chain_id" (text (codes "7")) (
      put "fee" fee_json (
        put "memo" (text []) (
          put "msgs" (array (item msg_json no_items)) (
            put "sequence" (text (codes "2"))
              (put "timeout_height" (text (codes "0")) no_entries))))))

abbrev pub home : Chain ℕ ℕ
home = record {
  is_recheck = λ ctx. false;
  block_height = λ ctx. 9;
  chain_id = λ ctx. codes "7";
  get_signer_acc =
      λ ctx a. some (record { address = a; pub_key = some a; account_number = 4; sequence = 2 });
  get_sign_bytes = λ signer body. some [];
  unmarshal = λ bytes. some tx_json;
  acc_address_from_bech32 = λ s. some s;
  address_text = λ a. a;
  recover_address = λ hash sig. if bytes_eq hash sig then some (codes "lux1b") else none;
  verify_signature = λ key hash sig. bytes_eq (take 32 sig) hash;
  upper_rune = no_upper;
  eth = lengths;
}

abbrev pub hash : Bytes
hash = replicate 32 66

abbrev pub option : Web3
option = record { typed_data_chain_id = 1; fee_payer = codes "lux1b"; fee_payer_sig = hash }

abbrev pub signature : Signature
signature = record { sequence = 2; sig = single true (replicate 65 66) }

abbrev pub transfer : Tx ℕ
transfer = record {
  is_sig_verifiable = true;
  signatures = some (signature ∷ []);
  signers = some (codes "lux1a" ∷ []);
  msgs = pointer (struct (field (codes "sender") (basic string) no_fields)) ∷ [];
  extension_options = some (web3 option ∷ []);
  body = 0;
}

abbrev pub keep : ℕ → Result Error ℕ
keep ctx = ok ctx

pub passes_transfer : eip712_handle home transfer false keep 3 ≡ ok 3
unfolding eip712_handle check_signatures check_signature verify_signature_eip712 read_extension
    read_web3 signed_hash check_fee_payer signer_data wrap_tx_to_eip712 extract_msg_types set_type
    set_value to_int64 eip712_domain walk_fields walk_message walk step append_entry type_key
    add_basic json_name_from_tag sanitize_typedef Wrap.size before_byte compute_typed_data_hash
    hash_struct encode_data encode_fields encode_field encode_item encode_items encode_array
    encode_struct ends_bracket entries_depth size domain_map validate validate_types check_types
    check_entries check_entry is_reference_type type_name matches_reference validate_domain
    encode_type dependencies add_type add_fields add_missing base_name ordered sort_strings
    insert_string bytes_lt write_types write_type write_fields drop_last encode_primitive_value
    encode_number encode_string parse_integer integer_size integer_value atoi atoi_digits
    is_primitive_type_valid lookup_type lookup_value cut_suffix cut_prefix digits_value
passes_transfer = refl

abbrev pub fee_keep : ℕ → Result Fee.Error ℕ
fee_keep ctx = ok ctx

abbrev pub balance : Bank ℕ ℕ
balance = record {
  fee_collector_set = λ ctx. true;
  acc_address_from_bech32 = λ s. some s;
  get_account = λ ctx a. some a;
  is_zero = λ fee. fee == 0;
  is_valid = λ fee. true;
  send_to_fee_collector = λ ctx a fee. some (ctx - fee);
}

pub charges_transfer :
    deduct_fee_handle balance (fee_tx transfer (codes "lux1a") 2) fee_keep 5 ≡ ok 3
unfolding deduct_fee_handle delegated_payer extension_payer deduct_fees
charges_transfer = refl
