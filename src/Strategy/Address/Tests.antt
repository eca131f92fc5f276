-- ===== src/Strategy/Address/Tests.antt =====
-- Addresses of the planes as texts.
use flux_sdk_go.Strategy.Address.Sample.{plain}
use flux_sdk_go.Common.{◌≡◌, refl, ◌⊎◌, arith, some, none, [], ◌∷◌, Bytes, codes, ok, err}
use flux_sdk_go.Strategy.Address.{
  Error, evm, hex_encode, hex_decode, parse_contract_addr, stringify_contract_addr,
}
use flux_sdk_go.Strategy.Address.Laws.{parse_contract_addr-stringify_contract_addr}

-- Addresses that are their own texts.
writes_hex : hex_encode (171 ∷ 5 ∷ []) ≡ codes "ab05"
unfolding hex_encode
writes_hex = refl

reads_capitals : hex_decode (codes "AB05") ≡ some (171 ∷ 5 ∷ [])
unfolding hex_decode
reads_capitals = refl

refuses_half : hex_decode (codes "ab0") ≡ none
unfolding hex_decode
refuses_half = refl

parse_contract_addr-stringify_contract_addr_example :
    ((s : Bytes) × (stringify_contract_addr plain (171 ∷ 5 ∷ []) evm ≡ ok s)
      × (parse_contract_addr plain s evm ≡ ok (171 ∷ 5 ∷ [])))
    ⊎ ((stringify_contract_addr plain (171 ∷ 5 ∷ []) evm ≡ err Error.unsupported_plane)
        × ((s : Bytes) → parse_contract_addr plain s evm ≡ err Error.unsupported_plane))
parse_contract_addr-stringify_contract_addr_example =
    parse_contract_addr-stringify_contract_addr plain evm (171 ∷ 5 ∷ []) (omega arith)
