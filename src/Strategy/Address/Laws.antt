-- ===== src/Strategy/Address/Laws.antt =====
-- An address that is written as text is read back.
use flux_sdk_go.Common.{
  ℕ, ◌/◌, ◌%◌, ◌≤◌, ◌<◌, ◌≡◌, refl, ap, ◌≢◌, ◌⊎◌, inl, inr, some, [], ◌∷◌, ok, err, Bytes, All,
  length, arith,
}
use flux_sdk_go.Strategy.Address.{
  Plane, cosmos, wasm, evm, svm, unknown, Error, hex_digit, hex_encode, hex_value, hex_decode,
  Codec, parse_contract_addr, stringify_contract_addr,
}

hex_value-hex_digit : (n : ℕ) → n < 16 → hex_value (hex_digit n) ≡ some n
hex_value-hex_digit n h = ground arith

hex_decode-hex_encode : (s : Bytes) → All (λ b. b < 256) s → hex_decode (hex_encode s) ≡ some s
unfolding hex_decode hex_encode
hex_decode-hex_encode [] h = refl
hex_decode-hex_encode (b ∷ s) h =
    rw
      (
        hex_value-hex_digit (b / 16) (omega (arith, h.0)),
        hex_value-hex_digit (b % 16) (omega arith),
        hex_decode-hex_encode s h.1,
      )
      (ap (λ x. some (x ∷ s)) (omega arith))

-- What an address of a plane is.
abbrev pub IsAddress : Plane → Bytes → Type 0
IsAddress wasm a = (a ≢ []) × (length a ≤ 255)
IsAddress evm a = All (λ b. b < 256) a
IsAddress svm a = length a ≡ 32
IsAddress _ a = Unit {0}

-- StringifyContractAddr and ParseContractAddr agree: an address of a plane that has a text is read back from its
-- text, and where a plane's addresses have no text, no text is read either.
pub parse_contract_addr-stringify_contract_addr :
    (codec : Codec) (plane : Plane) (a : Bytes)
    → IsAddress plane a
    → ((s : Bytes) × (stringify_contract_addr codec a plane ≡ ok s)
        × (parse_contract_addr codec s plane ≡ ok a))
      ⊎ ((stringify_contract_addr codec a plane ≡ err Error.unsupported_plane)
          × ((s : Bytes) → parse_contract_addr codec s plane ≡ err Error.unsupported_plane))
unfolding parse_contract_addr stringify_contract_addr
parse_contract_addr-stringify_contract_addr codec wasm a h =
    inl (codec.bech32 a, refl, rw (codec.from_bech32-bech32 a h.0 h.1) refl)
parse_contract_addr-stringify_contract_addr codec evm a h =
    inl (hex_encode a, refl, rw (hex_decode-hex_encode a h) refl)
parse_contract_addr-stringify_contract_addr codec svm a h =
    inl (codec.base58 a, refl, rw (codec.from_base58-base58 a h) refl)
parse_contract_addr-stringify_contract_addr codec cosmos a h = inr (refl, λ s. refl)
parse_contract_addr-stringify_contract_addr codec (unknown n) a h = inr (refl, λ s. refl)
