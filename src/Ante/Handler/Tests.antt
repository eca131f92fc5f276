-- ===== src/Ante/Handler/Tests.antt =====
-- Runs of the handler on a web3 transfer whose fee another account pays.
use flux_sdk_go.Common.{ℕ, ◌≡◌, refl, ◌⊎◌, true, false, none, some, [], ◌∷◌, ok, err, codes}
use flux_sdk_go.Ante.Fee.{deduct_fee_handle, delegated_payer, extension_payer, deduct_fees}
use flux_sdk_go.Ante.Verify.{web3, other}
use flux_sdk_go.Ante.Verify.Sample.{home, option, transfer, passes_transfer, balance}
use flux_sdk_go.Svm.Ante.{ante_handle, SvmKeeper, has_svm_msg}
use flux_sdk_go.Ante.Handler.{
  AnyOption, AnteTx, LibraryDecorator, HandlerOptions, Env, web3_url, ante_decorators,
  check_options, lift_err, run_decorator, run_chain, new_ante_handler, unknown_extension_options,
}
use flux_sdk_go.Ante.Handler.Order.{Web3Run, CosmosRun}
use flux_sdk_go.Ante.Handler.Laws.{IsComplete, IsWeb3, IsPlain, new_ante_handler-Passes}

abbrev nobody : SvmKeeper
nobody = record {
  get_account_link = λ addr. none;
  get_account_link_by_svm_addr = λ addr. none;
  acc_address_from_bech32 = λ s. none;
  base58_decode = λ s. [];
}

abbrev env : Env ℕ ℕ ℕ
env = record {
  run_library = λ step tx simulate next ctx. next ctx;
  bank = balance;
  chain = home;
  svm_keeper = λ ctx. nobody;
  svm_decorator_enabled = true;
}

abbrev all_set : HandlerOptions
all_set = record {
  has_account_keeper = true;
  has_bank_keeper = true;
  has_sign_mode_handler = true;
  has_wasm_config = true;
  has_tx_counter_store = true;
  has_circuit_keeper = true;
  has_svm_keeper = true;
  has_wasm_keeper = true;
}

-- The transfer, with an option of the type that is given.
abbrev sent : AnyOption → AnteTx ℕ ℕ
sent o = record {
  options = some (o ∷ []);
  is_fee_tx = true;
  is_sig_verifiable = true;
  is_sig_tx = true;
  signatures = transfer.signatures;
  signers = transfer.signers;
  msgs = transfer.msgs;
  svm_msgs = [];
  fee_payer = codes "lux1a";
  fee = 2;
  body = 0;
}

abbrev web3_tx : AnteTx ℕ ℕ
web3_tx = sent (record { type_url = web3_url; unpacked = web3 option })

passes_web3 : new_ante_handler env web3_tx false all_set 5 ≡ ok 3
unfolding new_ante_handler check_options ante_decorators run_chain run_decorator lift_err
    ante_handle has_svm_msg deduct_fee_handle delegated_payer extension_payer deduct_fees
passes_web3 = rw passes_transfer refl

refuses_other :
    new_ante_handler env (sent (record { type_url = codes "/x"; unpacked = other })) false all_set 5
    ≡ err unknown_extension_options
unfolding new_ante_handler check_options ante_decorators
refuses_other = refl

-- The libraries' decorators of this chain leave the context as it is.
abbrev Kept : LibraryDecorator → ℕ → ℕ → Type 0
Kept step ctx out = ctx ≡ out

new_ante_handler-Passes_example :
    IsComplete all_set
    × ((IsWeb3 web3_tx.options × Web3Run env web3_tx Kept 5 (ok 3))
        ⊎ (IsPlain web3_tx.options × CosmosRun env web3_tx Kept 5 (ok 3)))
new_ante_handler-Passes_example =
    new_ante_handler-Passes env web3_tx Kept all_set 5 (ok 3)
      (record {
        calls = λ step next ctx r e reach. (ctx, refl, refl, e);
        charges = λ ctx mid account fee sent. refl;
      })
      refl passes_web3 tt
