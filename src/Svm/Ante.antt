-- ===== src/Svm/Ante.antt =====
-- chain/modules/svm/ante/svm.go: the decorator that ties the signers of a Solana transaction to the
-- signers of the Cosmos transaction that carries it. The keeper of the svm module, the bech32 and the
-- base58 decoders are parameters; the codecs' `Must` form panics where the decoder fails.
pub mod Laws
pub mod Panics
mod Tests
use flux_sdk_go.Common.{
  ℕ, String, str_eq, Bool, true, false, not, Option, none, some, List, [], ◌∷◌, length, get_elem?,
  bytes_mem, Result, ok, err, panic, Check, ◌>>=◌, ◌>>◌, reject_if, or_err, or_panic, ltb,
  if◌then◌else◌,
}
use flux_sdk_go.Svm.Validate.{InstructionAccount, Instruction, MsgTransaction}

pub record AccountLink : Type 0 where
  pub cosmos_addr : List ℕ
  pub svm_addr : List ℕ

-- `SvmKeeper` of expected_keepers.go, and the address codecs.
pub record SvmKeeper : Type 0 where
  pub get_account_link : List ℕ → Option AccountLink
  pub get_account_link_by_svm_addr : List ℕ → Option AccountLink
  pub acc_address_from_bech32 : String → Option (List ℕ)
  pub base58_decode : String → List ℕ

-- A message of the transaction: this module's, or another with its proto name.
pub data SdkMsg : Type 0 where
  transaction : MsgTransaction → SdkMsg
  other : String → SdkMsg

-- `signers` is the answer of `GetSigners`, `none` being its error; `is_sig_tx` says whether the
-- transaction implements authsigning.Tx.
pub record SdkTx : Type 0 where
  pub msgs : List SdkMsg
  pub is_sig_tx : Bool
  pub signers : Option (List (List ℕ))

pub data Error : Type 0 where
  not_alone bad_tx_type bad_signers bad_cast : Error
  signer_not_linked ix_account_not_linked not_a_signer : String → Error
  later : Error

abbrev pub msg_transaction_name : String
msg_transaction_name = "flux.svm.v1beta1.MsgTransaction"

abbrev pub message_name : SdkMsg → String
message_name (transaction m) = msg_transaction_name
message_name (other name) = name

-- `svmTransactMsgExist`
unfoldable pub has_svm_msg : List SdkMsg → Bool
has_svm_msg [] = false
has_svm_msg (msg ∷ rest) =
    let found = has_svm_msg rest in
    if str_eq (message_name msg) msg_transaction_name then true else found

-- `tx.GetMsgs()[0].(*svmtypes.MsgTransaction)`
pub first_transaction : List SdkMsg → Result Error MsgTransaction
first_transaction [] = panic
first_transaction (transaction m ∷ _) = ok m
first_transaction (other _ ∷ _) = err bad_cast

module _ (k : SvmKeeper) where
  -- `ensure sender links exist`
  pub check_signer_links : List String → Check Error
  check_signer_links [] = ok tt
  check_signer_links (signer ∷ rest) = do
    signer_acc ← or_panic (k.acc_address_from_bech32 signer)
    _ ← or_err (k.get_account_link signer_acc) (signer_not_linked signer)
    check_signer_links rest

  -- The body of the loop over an instruction's accounts, for an account that signs.
  pub check_signing_account : List (List ℕ) → List String → ℕ → Check Error
  check_signing_account signers accounts index = do
    account ← or_panic (get_elem? accounts index)
    link ←
        or_err (k.get_account_link_by_svm_addr (k.base58_decode account))
          (ix_account_not_linked account)
    reject_if (not (bytes_mem link.cosmos_addr signers)) (not_a_signer account)

  pub check_ix_accounts : List (List ℕ) → List String → List InstructionAccount → Check Error
  check_ix_accounts signers accounts [] = ok tt
  check_ix_accounts signers accounts (a ∷ rest) =
      (if a.is_signer then check_signing_account signers accounts a.caller_index else ok tt)
      >> check_ix_accounts signers accounts rest

  pub check_instructions : List (List ℕ) → List String → List Instruction → Check Error
  check_instructions signers accounts [] = ok tt
  check_instructions signers accounts (ix ∷ rest) =
      check_ix_accounts signers accounts ix.accounts >> check_instructions signers accounts rest

  -- What `AnteHandle` does with a transaction that has a svm message.
  pub check_svm_tx : SdkTx → Check Error
  check_svm_tx tx = do
    reject_if (ltb 1 (length tx.msgs)) not_alone
    reject_if (not tx.is_sig_tx) bad_tx_type
    signers ← or_err tx.signers bad_signers
    msg ← first_transaction tx.msgs
    check_signer_links msg.signers
    check_instructions signers msg.accounts msg.instructions

  -- `next` is the answer of the rest of the chain, `later` being its errors.
  unfoldable pub ante_handle {ℓ} : {A : Type ℓ} → Bool → SdkTx → Result Error A → Result Error A
  ante_handle is_enabled tx next =
      if not is_enabled
      then next
      else if not (has_svm_msg tx.msgs)
      then next
      else check_svm_tx tx >> next
