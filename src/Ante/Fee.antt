-- ===== src/Ante/Fee.antt =====
-- DeductFeeDecorator and DeductFees of fee.go. `Ctx` is the context with its store and `Coins` an amount: what the
-- account and bank keepers and the SDK's coins answer is a record. A fee that is delegated is paid by the account
-- that the first extension option names.
pub mod Laws
mod Tests
use flux_sdk_go.Common.{
  ℕ, suc, Bool, true, false, not, Option, none, some, List, [], ◌∷◌, Result, Check, ok, err, panic,
  ◌>>=◌, ◌>>◌, reject_if, or_err, Bytes, is_some, or_else, if◌then◌else◌,
}

pub data Error : Type 0 where
  not_a_fee_tx cannot_unpack invalid_fee_payer unknown_payer invalid_fee insufficient_funds : Error

-- What UnpackAny makes of an extension option.
pub data Extension : Type 0 where
  broken : Extension
  web3 : Bytes → Extension
  other : Extension

-- A transaction: none for options if it has none of the interface, and whether it is a FeeTx.
pub record FeeTx (Coins : Type 0) : Type 0 where
  pub is_fee_tx : Bool
  pub extension_options : Option (List Extension)
  pub fee_payer : Bytes
  pub fee : Coins

pub record Bank (Ctx Coins : Type 0) : Type 0 where
  pub fee_collector_set : Ctx → Bool
  pub acc_address_from_bech32 : Bytes → Option Bytes
  pub get_account : Ctx → Bytes → Option Bytes
  pub is_zero : Coins → Bool
  pub is_valid : Coins → Bool
  pub send_to_fee_collector : Ctx → Bytes → Coins → Option Ctx

module _ {Ctx Coins : Type 0} (bank : Bank Ctx Coins) where
  -- The payer that the extension names, none if it names none.
  unfoldable pub extension_payer : Extension → Result Error (Option Bytes)
  extension_payer broken = err cannot_unpack
  extension_payer other = ok none
  extension_payer (web3 []) = ok none
  extension_payer (web3 (c ∷ s)) = do
    payer ← or_err (bank.acc_address_from_bech32 (c ∷ s)) invalid_fee_payer
    ok (some payer)

  unfoldable pub delegated_payer : Option (List Extension) → Result Error (Option Bytes)
  delegated_payer none = ok none
  delegated_payer (some []) = ok none
  delegated_payer (some (o ∷ _)) = extension_payer o

  -- `DeductFees`; `account` is the address of the account.
  unfoldable pub deduct_fees : Ctx → Bytes → Coins → Result Error Ctx
  deduct_fees ctx account fee = do
    reject_if (not (bank.is_valid fee)) invalid_fee
    or_err (bank.send_to_fee_collector ctx account fee) insufficient_funds

  -- `DeductFeeDecorator.AnteHandle`
  unfoldable pub deduct_fee_handle : FeeTx Coins → (Ctx → Result Error Ctx) → Ctx → Result Error Ctx
  deduct_fee_handle tx next ctx = do
    reject_if (not tx.is_fee_tx) not_a_fee_tx
    (if bank.fee_collector_set ctx then ok tt else panic)
    delegated ← delegated_payer tx.extension_options
    account ← or_err (bank.get_account ctx (or_else delegated tx.fee_payer)) unknown_payer
    charged ← (if bank.is_zero tx.fee then ok ctx else deduct_fees ctx account tx.fee)
    next charged
