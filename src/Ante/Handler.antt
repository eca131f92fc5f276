-- ===== src/Ante/Handler.antt =====
-- NewAnteHandler of ante.go: which decorators a transaction passes, and in which order. The decorators of the
-- libraries are a parameter; this program's three are the models of fee.go, eip712.go and svm.go. The rest
-- of a chain runs behind a decorator, so each of these three is run up to its call of the rest.
pub mod Steps
pub mod Order
pub mod Laws
mod Tests
use flux_sdk_go.Common.{
  ℕ, Bool, true, false, Option, none, some, List, [], ◌∷◌, Result, Check, ok, err, panic, ◌>>=◌,
  ◌>>◌, Bytes, bytes_eq, codes, map, if◌then◌else◌,
}
use mathlib.Core.Option
use flux_sdk_go.Ante.Fee
use flux_sdk_go.Ante.Fee.{FeeTx, Bank, deduct_fee_handle}
use flux_sdk_go.Ante.Verify
use flux_sdk_go.Ante.Verify.{Extension, Signature, Tx, Chain, eip712_handle}
use flux_sdk_go.Ante.Verify.Payer.{fee_extension}
use flux_sdk_go.Ante.Wrap.{Value}
use flux_sdk_go.Svm
use flux_sdk_go.Svm.Ante.{SvmKeeper, SdkMsg, SdkTx, ante_handle}

pub data Error : Type 0 where
  unknown_extension_options later : Error
  of_fee : Fee.Error → Error
  of_signature : Verify.Error → Error
  of_svm : Svm.Ante.Error → Error

-- An extension option: its type, and what UnpackAny makes of it.
pub record AnyOption : Type 0 where
  pub type_url : Bytes
  pub unpacked : Extension

-- A transaction as each of the decorators reads it; none for options if it has none of the interface.
pub record AnteTx (Body Coins : Type 0) : Type 0 where
  pub options : Option (List AnyOption)
  pub is_fee_tx : Bool
  pub is_sig_verifiable : Bool
  pub is_sig_tx : Bool
  pub signatures : Option (List Signature)
  pub signers : Option (List Bytes)
  pub msgs : List Value
  pub svm_msgs : List SdkMsg
  pub fee_payer : Bytes
  pub fee : Coins
  pub body : Body

-- The decorators of the SDK, wasmd, IBC and the circuit module.
pub data LibraryDecorator : Type 0 where
  set_up_context limit_simulation_gas count_tx gas_register circuit_breaker : LibraryDecorator
  extension_options validate_basic tx_timeout_height validate_memo consume_gas_for_tx_size :
      LibraryDecorator
  set_pub_key validate_sig_count sdk_deduct_fee sig_gas_consume sig_verification : LibraryDecorator
  increment_sequence redundant_relay : LibraryDecorator

pub data Decorator : Type 0 where
  library : LibraryDecorator → Decorator
  deduct_fee eip712_sig_verification svm_decorator : Decorator

-- The options that must not be nil; the wasm keeper is not checked, and each chain calls it as it is put together.
pub record HandlerOptions : Type 0 where
  pub has_account_keeper : Bool
  pub has_bank_keeper : Bool
  pub has_sign_mode_handler : Bool
  pub has_wasm_config : Bool
  pub has_tx_counter_store : Bool
  pub has_circuit_keeper : Bool
  pub has_svm_keeper : Bool
  pub has_wasm_keeper : Bool

-- `run_library` runs a decorator of a library on a transaction, simulated or not, with the rest of the chain.
pub record Env (Ctx Body Coins : Type 0) : Type 0 where
  pub run_library :
      LibraryDecorator
      → AnteTx Body Coins
      → Bool
      → (Ctx → Result Error Ctx)
      → Ctx
      → Result Error Ctx
  pub bank : Bank Ctx Coins
  pub chain : Chain Ctx Body
  pub svm_keeper : Ctx → SvmKeeper
  pub svm_decorator_enabled : Bool

abbrev pub web3_url : Bytes
web3_url = codes "/flux.types.v1beta1.ExtensionOptionsWeb3Tx"

abbrev pub web3_decorators : List Decorator
web3_decorators =
    library set_up_context
    ∷ library limit_simulation_gas
    ∷ library count_tx
    ∷ library gas_register
    ∷ library circuit_breaker
    ∷ library validate_basic
    ∷ library tx_timeout_height
    ∷ library validate_memo
    ∷ library consume_gas_for_tx_size
    ∷ library set_pub_key
    ∷ library validate_sig_count
    ∷ deduct_fee
    ∷ library sig_gas_consume
    ∷ eip712_sig_verification
    ∷ svm_decorator
    ∷ library increment_sequence
    ∷ library redundant_relay
    ∷ []

abbrev pub cosmos_decorators : List Decorator
cosmos_decorators =
    library set_up_context
    ∷ library limit_simulation_gas
    ∷ library count_tx
    ∷ library gas_register
    ∷ library circuit_breaker
    ∷ library extension_options
    ∷ library validate_basic
    ∷ library tx_timeout_height
    ∷ library validate_memo
    ∷ library consume_gas_for_tx_size
    ∷ library sdk_deduct_fee
    ∷ library set_pub_key
    ∷ library validate_sig_count
    ∷ library sig_gas_consume
    ∷ library sig_verification
    ∷ svm_decorator
    ∷ library increment_sequence
    ∷ library redundant_relay
    ∷ []

-- The decorators for the first extension option. A transaction is always a sdk.Tx, so the inner switch has one case.
pub ante_decorators : Option (List AnyOption) → Result Error (List Decorator)
ante_decorators none = ok cosmos_decorators
ante_decorators (some []) = ok cosmos_decorators
ante_decorators (some (o ∷ _)) =
    if bytes_eq o.type_url web3_url then ok web3_decorators else err unknown_extension_options

abbrev pub require : Bool → Check Error
require given = if given then ok tt else panic

-- The checks at the head of the handler, each of which panics.
pub check_options : HandlerOptions → Check Error
check_options o = do
  require o.has_account_keeper
  require o.has_bank_keeper
  require o.has_sign_mode_handler
  require o.has_wasm_config
  require o.has_tx_counter_store
  require o.has_circuit_keeper
  require o.has_svm_keeper

-- The error of a decorator, among those of the chain.
pub lift_err : {E A : Type 0} → (E → Error) → Result E A → Result Error A
lift_err f (ok a) = ok a
lift_err f (err e) = err (f e)
lift_err f panic = panic

module _ {Body Coins : Type 0} (tx : AnteTx Body Coins) where
  abbrev unpacked_options : Option (List Extension)
  unpacked_options = Option.map (map (λ o. o.unpacked)) tx.options

  -- The transaction as fee.go, eip712.go and svm.go read it.
  abbrev pub fee_view : FeeTx Coins
  fee_view = record {
    is_fee_tx = tx.is_fee_tx;
    extension_options = Option.map (map fee_extension) unpacked_options;
    fee_payer = tx.fee_payer;
    fee = tx.fee;
  }

  abbrev pub sig_view : Tx Body
  sig_view = record {
    is_sig_verifiable = tx.is_sig_verifiable;
    signatures = tx.signatures;
    signers = tx.signers;
    msgs = tx.msgs;
    extension_options = unpacked_options;
    body = tx.body;
  }

  abbrev pub svm_view : SdkTx
  svm_view = record { msgs = tx.svm_msgs; is_sig_tx = tx.is_sig_tx; signers = tx.signers }

module _ {Ctx Body Coins : Type 0} (env : Env Ctx Body Coins) (tx : AnteTx Body Coins)
    (simulate : Bool) where
  pub run_decorator : Decorator → (Ctx → Result Error Ctx) → Ctx → Result Error Ctx
  run_decorator (library step) next ctx = env.run_library step tx simulate next ctx
  run_decorator deduct_fee next ctx =
      lift_err of_fee (deduct_fee_handle env.bank (fee_view tx) ok ctx) >>= next
  run_decorator eip712_sig_verification next ctx =
      lift_err of_signature (eip712_handle env.chain (sig_view tx) simulate ok ctx) >>= next
  run_decorator svm_decorator next ctx =
      lift_err of_svm
        (ante_handle (env.svm_keeper ctx) env.svm_decorator_enabled (svm_view tx) (ok ctx))
      >>= next

  -- `sdk.ChainAnteDecorators`: behind the last decorator the context is returned.
  pub run_chain : List Decorator → Ctx → Result Error Ctx
  run_chain [] ctx = ok ctx
  run_chain (d ∷ ds) ctx = run_decorator d (run_chain ds) ctx

  -- `NewAnteHandler`
  pub new_ante_handler : HandlerOptions → Ctx → Result Error Ctx
  new_ante_handler options ctx = do
    check_options options
    decorators ← ante_decorators tx.options
    require options.has_wasm_keeper
    run_chain decorators ctx
