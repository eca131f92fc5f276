-- ===== src/TypedData/Sample.antt =====
-- A message of two struct types, and operations with the lengths of go-ethereum's, for the tests.
use flux_sdk_go.Common.{
  ℕ, ◌≡◌, Bool, none, some, [], ◌∷◌, Bytes, codes, length, length-replicate, replicate, ◌==◌,
  String,
}
use flux_sdk_go.Common.Int.{pos, abs}
use flux_sdk_go.TypedData.{
  TypeEntry, Types, TypedMessage, text, big, array, object, no_items, item, Entries, no_entries,
  entry,
}
use flux_sdk_go.TypedData.Primitive.{Ethereum}

abbrev pub fill : ℕ → Bytes
fill n = replicate 32 n

pub fill-length : (n : ℕ) → length (fill n) ≡ 32
fill-length n = length-replicate {0} 32 n

-- The hash of a text is its length.
abbrev pub lengths : Ethereum
lengths = record {
  keccak256 = λ b. fill (length b);
  length-keccak256 = λ b. fill-length (length b);
  hex_decode = λ s. some s;
  is_hex_address = λ s. length s == 42;
  hex_to_address = λ s. replicate 20 (length s);
  length-hex_to_address = λ s. length-replicate {0} 20 (length s);
  parse_big256 = λ s. none;
  u256_bytes = λ n. fill (abs n);
  length-u256_bytes = λ n. fill-length (abs n);
  padded_big_bytes = λ n. fill n;
  length-padded_big_bytes = λ n lt. fill-length n;
}

abbrev pub field : String → String → TypeEntry
field name typ = record { name = codes name; typ = codes typ }

abbrev pub no_upper : Bytes → Bool
no_upper s = Bool.false

abbrev pub mail_types : Types
mail_types =
    (codes "Mail", field "from" "Person" ∷ field "to" "Person[]" ∷ field "size" "uint8" ∷ [])
    ∷ (codes "Person", field "wallet" "address" ∷ [])
    ∷ (codes "EIP712Domain", field "name" "string" ∷ [])
    ∷ []

abbrev pub person : Entries
person =
    entry (codes "wallet") (text (codes "0x0000000000000000000000000000000000000000")) no_entries

abbrev pub letter : Entries
letter = entry (codes "from") (object person) (
    entry (codes "to") (array (item (object person) no_items))
      (entry (codes "size") (big (pos 7)) no_entries))

abbrev pub mail : TypedMessage
mail = record {
  types = mail_types;
  primary_type = codes "Mail";
  domain = record {
    name = codes "Flux";
    version = [];
    chain_id = none;
    verifying_contract = [];
    salt = [];
  };
  message = letter;
}
