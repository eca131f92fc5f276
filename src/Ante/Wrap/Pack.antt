-- ===== src/Ante/Wrap/Pack.antt =====
-- extractMsgTypes and WrapTxToEIP712 of eip712_cosmos.go. How encoding/json decodes the sign bytes, and the
-- text of an address, are parameters.
pub mod Laws
pub mod Sound
mod Tests
use flux_sdk_go.Common.{
  ℕ, ◌-◌, ◌^◌, Bool, Option, none, some, List, [], ◌∷◌, String, Result, ok, err, panic, ◌>>=◌,
  or_err, Bytes, codes, bytes_eq, ltb, if◌then◌else◌,
}
use flux_sdk_go.Common.Int.{ℤ, pos, negsuc}
use flux_sdk_go.TypedData.{
  TypeEntry, Types, Domain, TypedMessage, text, object, Entries, no_entries, entry, lookup_value,
}
use flux_sdk_go.TypedData
use flux_sdk_go.Ante.Wrap
use flux_sdk_go.Ante.Wrap.Walk
use flux_sdk_go.Ante.Wrap.Walk.{walk_fields, field_entry}

pub data Error : Type 0 where
  cannot_unmarshal : Error
  cannot_walk : Walk.Error → Error

abbrev row : String → String → TypeEntry
row name typ = field_entry (codes name) (codes typ)

-- `rootTypes`
abbrev pub root_types : Bytes → Types
root_types msg_type =
    (
      codes "EIP712Domain",
      row "name" "string"
          ∷ row "version" "string"
          ∷ row "chainId" "uint256"
          ∷ row "verifyingContract" "string"
          ∷ row "salt" "string"
          ∷ [],
    )
    ∷ (
      codes "Tx",
      row "account_number" "string"
          ∷ row "chain_id" "string"
          ∷ row "fee" "Fee"
          ∷ row "memo" "string"
          ∷ row "msgs" "Msg[]"
          ∷ row "sequence" "string"
          ∷ row "timeout_height" "string"
          ∷ [],
    )
    ∷ (codes "Fee", row "amount" "Coin[]" ∷ row "gas" "string" ∷ [])
    ∷ (codes "Coin", row "denom" "string" ∷ row "amount" "string" ∷ [])
    ∷ (codes "Msg", row "type" "string" ∷ field_entry (codes "value") msg_type ∷ [])
    ∷ (msg_type, [])
    ∷ []

-- `extractMsgTypes`
unfoldable pub extract_msg_types : Bytes → Wrap.Value → Result Walk.Error Types
extract_msg_types msg_type message = walk_fields (root_types msg_type) msg_type message

-- `msgTypes["Fee"]` of a fee that another account pays.
abbrev pub delegated_fee : List TypeEntry
delegated_fee = row "feePayer" "string" ∷ row "amount" "Coin[]" ∷ row "gas" "string" ∷ []

unfoldable pub set_type : Types → Bytes → List TypeEntry → Types
set_type [] key fields = (key, fields) ∷ []
set_type ((k, own) ∷ types) key fields =
    let rest = (k, own) ∷ set_type types key fields in
    if bytes_eq k key then (k, fields) ∷ types else rest

-- `m[key] = v`
unfoldable pub set_value : Entries → Bytes → TypedData.Value → Entries
set_value no_entries key v = entry key v no_entries
set_value (entry k w rest) key v =
    let more = entry k w (set_value rest key v) in if bytes_eq k key then entry k v rest else more

-- The fee of the transaction with its payer; the type assertion panics where the fee is no object.
abbrev pub add_fee_payer : TypedData.Value → Bytes → Entries → Result Error Entries
add_fee_payer (object fee) payer tx =
    ok (set_value tx (codes "fee") (object (set_value fee (codes "feePayer") (text payer))))
add_fee_payer _ payer tx = panic

-- `int64(chainID)`
unfoldable pub to_int64 : ℕ → ℤ
to_int64 n = if ltb n (2 ^ 63) then pos n else negsuc (2 ^ 64 - n - 1)

unfoldable pub eip712_domain : ℕ → Domain
eip712_domain chain_id = record {
  name = codes "Flux Web3";
  version = codes "1.0.0";
  chain_id = some (to_int64 chain_id);
  verifying_contract = codes "cosmos";
  salt = codes "0";
}

abbrev pub as_walk {ℓ} : {A : Type ℓ} → Result Walk.Error A → Result Error A
as_walk (ok a) = ok a
as_walk (err e) = err (cannot_walk e)
as_walk panic = panic

-- The types and the transaction, patched for the account that pays the fee.
abbrev pub delegate : Option Bytes → Types → Entries → Result Error (Types × Entries)
delegate none types tx = ok (types, tx)
delegate (some payer) types tx = do
  tx' ← add_fee_payer (lookup_value tx (codes "fee")) payer tx
  ok (set_type types (codes "Fee") delegated_fee, tx')

module _ (unmarshal : Bytes → Option Entries) where
  -- `WrapTxToEIP712`; the payer of a delegated fee is the text of its address.
  unfoldable pub wrap_tx_to_eip712 :
      ℕ → Wrap.Value → Bytes → Option Bytes → Result Error TypedMessage
  wrap_tx_to_eip712 chain_id message bytes payer = do
    tx ← or_err (unmarshal bytes) cannot_unmarshal
    types ← as_walk (extract_msg_types (codes "MsgValue") message)
    (types', tx') ← delegate payer types tx
    ok (record {
      types = types';
      primary_type = codes "Tx";
      domain = eip712_domain chain_id;
      message = tx';
    })
