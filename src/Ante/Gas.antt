-- ===== src/Ante/Gas.antt =====
-- DefaultSigVerificationGasConsumer and ConsumeMultisignatureVerificationGas of ante.go. A gas meter panics
-- when its limit is passed.
pub mod Laws
mod Tests
use flux_sdk_go.Common.{
  ℕ, ◌+◌, Bool, true, false, List, [], ◌∷◌, Result, ok, err, panic, ◌>>=◌, leb, if◌then◌else◌,
}

pub data Error : Type 0 where
  not_multisignature invalid_pub_key : Error

-- The public keys that the consumer tells apart; `multisig` is a key with other keys in it.
mutual
  pub data PubKey : Type 0 where
    ed25519 ethsecp256k1 unrecognized : PubKey
    multisig : PubKeys → PubKey

  pub data PubKeys : Type 0 where
    no_keys : PubKeys
    key : PubKey → PubKeys → PubKeys

-- `SignatureData`; the bits of a multisignature say which of the keys have signed.
mutual
  pub data SigData : Type 0 where
    single : SigData
    multi : List Bool → Signatures → SigData

  pub data Signatures : Type 0 where
    no_signatures : Signatures
    signature : SigData → Signatures → Signatures

pub record Params : Type 0 where
  pub sig_verify_cost_ed25519 : ℕ
  pub sig_verify_cost_secp256k1 : ℕ

pub record Meter : Type 0 where
  pub limit : ℕ
  pub consumed : ℕ

-- `meter.ConsumeGas`
pub consume_gas : ℕ → Meter → Result Error Meter
consume_gas amount m =
    if leb (m.consumed + amount) m.limit
    then ok (record { limit = m.limit; consumed = m.consumed + amount })
    else panic

module _ (params : Params) where
  mutual
    -- `DefaultSigVerificationGasConsumer`
    pub sig_gas : PubKey → SigData → Meter → Result Error Meter
    sig_gas ed25519 sig m = consume_gas params.sig_verify_cost_ed25519 m
    sig_gas ethsecp256k1 sig m = consume_gas params.sig_verify_cost_secp256k1 m
    sig_gas unrecognized sig m = err invalid_pub_key
    sig_gas (multisig keys) single m = err not_multisignature
    sig_gas (multisig keys) (multi bits sigs) m = multisig_gas keys bits sigs m

    -- The loop of `ConsumeMultisignatureVerificationGas`, over the keys that are left: a bit that is set takes
    -- the next signature. A bit without a key, and a key without a signature, index out of range.
    pub multisig_gas : PubKeys → List Bool → Signatures → Meter → Result Error Meter
    multisig_gas keys [] sigs m = ok m
    multisig_gas no_keys (true ∷ bits) sigs m = panic
    multisig_gas no_keys (false ∷ bits) sigs m = multisig_gas no_keys bits sigs m
    multisig_gas (key k keys) (false ∷ bits) sigs m = multisig_gas keys bits sigs m
    multisig_gas (key k keys) (true ∷ bits) no_signatures m = panic
    multisig_gas (key k keys) (true ∷ bits) (signature s sigs) m =
        sig_gas k s m >>= λ m'. multisig_gas keys bits sigs m'
