-- ===== src/Ante/Fee/Tests.antt =====
-- A fee that is delegated, with a bank that keeps the balance of one account.
use flux_sdk_go.Common.{
  ℕ, ◌-◌, ◌≡◌, refl, true, some, none, Result, [], ◌∷◌, ok, err, Bytes, codes, ltb, ◌==◌,
  if◌then◌else◌,
}
use flux_sdk_go.Ante.Fee.{
  Error, web3, FeeTx, Bank, extension_payer, delegated_payer, deduct_fees, deduct_fee_handle,
  insufficient_funds,
}
use flux_sdk_go.Ante.Fee.Laws.{Pays, IsCharged, deduct_fee_handle-Pays}

abbrev balance : Bank ℕ ℕ
balance = record {
  fee_collector_set = λ ctx. true;
  acc_address_from_bech32 = λ s. some s;
  get_account = λ ctx a. some a;
  is_zero = λ fee. fee == 0;
  is_valid = λ fee. true;
  send_to_fee_collector = λ ctx a fee. if ltb ctx fee then none else some (ctx - fee);
}

abbrev delegated_tx : FeeTx ℕ
delegated_tx = record {
  is_fee_tx = true;
  extension_options = some (web3 (codes "lux1b") ∷ []);
  fee_payer = codes "lux1a";
  fee = 3;
}

abbrev keep : ℕ → Result Error ℕ
keep ctx = ok ctx

pays_three : deduct_fee_handle balance delegated_tx keep 10 ≡ ok 7
unfolding deduct_fee_handle delegated_payer extension_payer deduct_fees
pays_three = refl

deduct_fee_handle-Pays_example :
    (payer : Bytes) × (account : Bytes) × (after : ℕ) × Pays balance delegated_tx payer
    × (some payer ≡ some account)
    × IsCharged balance 10 account 3 after
    × (keep after ≡ ok 7)
deduct_fee_handle-Pays_example = deduct_fee_handle-Pays balance delegated_tx keep 10 7 pays_three

refuses_poor : deduct_fee_handle balance delegated_tx keep 2 ≡ err insufficient_funds
unfolding deduct_fee_handle delegated_payer extension_payer deduct_fees
refuses_poor = refl
