-- ===== src/Strategy/Address.antt =====
-- ParseContractAddr and StringifyContractAddr of types.go, with hex.EncodeToString and hex.DecodeString of Go's
-- library. Bech32 is the Cosmos SDK's and base58 the Solana library's: a record with the laws of their texts.
pub mod Laws
pub mod Sample
mod Tests
use flux_sdk_go.Common.{
  ℕ, ◌+◌, ◌-◌, ◌*◌, ◌/◌, ◌%◌, ◌≤◌, ◌≡◌, ◌≢◌, Bool, ◌&&◌, Option, none, some, List, [], ◌∷◌, Result,
  ok, err, or_err, or_panic, Bytes, codes, length, ltb, leb, and_then, if◌then◌else◌,
}
use flux_sdk_go.Common.Int.{ℤ}

-- A virtual machine of the chain; any other number has no name.
pub data Plane : Type 0 where
  cosmos wasm evm svm : Plane
  unknown : ℤ → Plane

pub data Error : Type 0 where
  invalid_hex unsupported_plane : Error

abbrev pub hex_digit : ℕ → ℕ
hex_digit n = if ltb n 10 then 48 + n else 87 + n

-- `hex.EncodeToString`
unfoldable pub hex_encode : Bytes → Bytes
hex_encode [] = []
hex_encode (b ∷ s) = hex_digit (b / 16) ∷ (hex_digit (b % 16) ∷ hex_encode s)

abbrev pub hex_value : ℕ → Option ℕ
hex_value c =
    if leb 48 c && leb c 57
    then some (c - 48)
    else (if leb 97 c && leb c 102
        then some (c - 87)
        else (if leb 65 c && leb c 70 then some (c - 55) else none))

-- `hex.DecodeString`
unfoldable pub hex_decode : Bytes → Option Bytes
hex_decode [] = some []
hex_decode (c ∷ []) = none
hex_decode (c ∷ d ∷ s) = and_then (hex_value c) (λ high.
    and_then (hex_value d)
      (λ low. and_then (hex_decode s) (λ rest. some ((high * 16 + low) ∷ rest))))

-- The texts of addresses: a bech32 address has 1 to 255 bytes, and a Solana key has 32.
pub record Codec : Type 0 where
  pub from_bech32 : Bytes → Option Bytes
  pub bech32 : Bytes → Bytes
  pub from_base58 : Bytes → Option Bytes
  pub base58 : Bytes → Bytes
  pub from_bech32-bech32 : (a : Bytes) → a ≢ [] → length a ≤ 255 → from_bech32 (bech32 a) ≡ some a
  pub from_base58-base58 : (a : Bytes) → length a ≡ 32 → from_base58 (base58 a) ≡ some a

module _ (codec : Codec) where
  -- `ParseContractAddr`
  unfoldable pub parse_contract_addr : Bytes → Plane → Result Error Bytes
  parse_contract_addr contract wasm = or_panic (codec.from_bech32 contract)
  parse_contract_addr contract evm = or_err (hex_decode contract) invalid_hex
  parse_contract_addr contract svm = or_panic (codec.from_base58 contract)
  parse_contract_addr contract cosmos = err unsupported_plane
  parse_contract_addr contract (unknown n) = err unsupported_plane

  -- `StringifyContractAddr`
  pub stringify_contract_addr : Bytes → Plane → Result Error Bytes
  stringify_contract_addr contract wasm = ok (codec.bech32 contract)
  stringify_contract_addr contract evm = ok (hex_encode contract)
  stringify_contract_addr contract svm = ok (codec.base58 contract)
  stringify_contract_addr contract cosmos = err unsupported_plane
  stringify_contract_addr contract (unknown n) = err unsupported_plane
