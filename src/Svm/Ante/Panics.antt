-- ===== src/Svm/Ante/Panics.antt =====
-- Where the decorator panics: an index that ValidateBasic lets through, and no other.
use flux_sdk_go.Common.{
  ℕ, ◌^◌, ◌<◌, ◌≡◌, refl, ◌≢◌, String, Bool, true, false, Option, none, some, List, [], ◌∷◌, length,
  get_elem?-lt, get_elem?-ge, All, Result, ok, panic, Bool-cases, inl, inr, arith,
}
use flux_sdk_go.Svm.Validate.{InstructionAccount, Instruction, MsgTransaction, validate_basic}
use flux_sdk_go.Svm.Validate.Laws.{
  AreDistinct, validate_basic_iff, validate_basic_parts, check_signers_iff,
}
use flux_sdk_go.Svm.Ante.{
  SvmKeeper, SdkMsg, transaction, other, SdkTx, Error, has_svm_msg, first_transaction,
  check_signer_links, check_signing_account, check_ix_accounts, check_instructions, check_svm_tx,
  ante_handle,
}

-- A message with the given accounts, and one instruction with one signing account at `index`.
abbrev pub signing_at : List String → ℕ → MsgTransaction
signing_at accounts index = record {
  signers = [];
  accounts = accounts;
  instructions =
      record {
        program_index = 0 ∷ [];
        accounts =
            record {
              id_index = index;
              caller_index = index;
              callee_index = 0;
              is_signer = true;
              is_writable = false;
            }
            ∷ [];
        ix_data = [];
      }
      ∷ [];
  compute_budget = 1;
}

abbrev pub carried : MsgTransaction → List (List ℕ) → SdkTx
carried m signers = record { msgs = transaction m ∷ []; is_sig_tx = true; signers = some signers }

-- For every list of distinct accounts that is not empty and shorter than 2^32, the message that names the account
-- one past the end passes ValidateBasic, and the enabled decorator panics on it.
pub ante_handle-panic {ℓ} :
    {A : Type ℓ} (k : SvmKeeper) (accounts : List String) (signers : List (List ℕ))
    (next : Result Error A)
    → accounts ≢ []
    → AreDistinct accounts
    → length accounts < 2 ^ 32
    → (validate_basic k.acc_address_from_bech32 (signing_at accounts (length accounts)) ≡ ok tt)
      × (ante_handle k true (carried (signing_at accounts (length accounts)) signers) next ≡ panic)
unfolding ante_handle check_svm_tx check_signer_links check_signing_account check_ix_accounts
    check_instructions has_svm_msg first_transaction
ante_handle-panic k accounts signers next some_accounts distinct short = (
  (validate_basic_iff k.acc_address_from_bech32 (signing_at accounts (length accounts)) short
        (omega arith, tt)).1
      (record {
        signers_parse = tt;
        has_budget = omega arith;
        has_accounts = some_accounts;
        has_instructions = λ e. cc;
        accounts_distinct = distinct;
        placed = (
          (
            record {
              id_bound = omega arith;
              caller_bound = omega arith;
              callee_bound = omega arith;
              first = ground arith;
            },
            tt,
          ),
          tt,
        );
      }),
  rw (get_elem?-ge accounts (length accounts) (omega arith)) refl,
)

-- Every caller index has an account.
abbrev pub HasCallers : MsgTransaction → Type 0
HasCallers m = All (λ ix. All (λ a. a.caller_index < length m.accounts) ix.accounts) m.instructions

module _ (k : SvmKeeper) where
  -- A message of the svm module that has passed ValidateBasic and has its callers.
  abbrev pub IsIndexed : SdkMsg → Type 0
  IsIndexed (transaction m) = (validate_basic k.acc_address_from_bech32 m ≡ ok tt) × HasCallers m
  IsIndexed (other name) = Unit {0}

  check_signer_links-ne-panic :
      (signers : List String)
      → All (λ s. k.acc_address_from_bech32 s ≢ none) signers
      → check_signer_links k signers ≢ panic
  unfolding check_signer_links
  check_signer_links-ne-panic [] h = λ e. cc
  check_signer_links-ne-panic (s ∷ rest) h = ground (arith, check_signer_links-ne-panic rest h.1)

  check_signing_account-ne-panic :
      (signers : List (List ℕ)) (accounts : List String) (index : ℕ)
      → index < length accounts
      → check_signing_account k signers accounts index ≢ panic
  unfolding check_signing_account
  check_signing_account-ne-panic signers accounts index h =
      let (account, listed) = get_elem?-lt accounts index h in rw listed (ground arith)

  check_ix_accounts-ne-panic :
      (signers : List (List ℕ)) (accounts : List String) (accs : List InstructionAccount)
      → All (λ a. a.caller_index < length accounts) accs
      → check_ix_accounts k signers accounts accs ≢ panic
  unfolding check_ix_accounts
  check_ix_accounts-ne-panic signers accounts [] h = λ e. cc
  check_ix_accounts-ne-panic signers accounts (a ∷ rest) h = ground (
    arith,
    check_signing_account-ne-panic signers accounts a.caller_index h.0,
    check_ix_accounts-ne-panic signers accounts rest h.1,
  )

  check_instructions-ne-panic :
      (signers : List (List ℕ)) (accounts : List String) (ixs : List Instruction)
      → All (λ ix. All (λ a. a.caller_index < length accounts) ix.accounts) ixs
      → check_instructions k signers accounts ixs ≢ panic
  unfolding check_instructions
  check_instructions-ne-panic signers accounts [] h = λ e. cc
  check_instructions-ne-panic signers accounts (ix ∷ rest) h = ground (
    arith,
    check_ix_accounts-ne-panic signers accounts ix.accounts h.0,
    check_instructions-ne-panic signers accounts rest h.1,
  )

  -- The part of the checks that follows the choice of the message.
  check_svm_tx-ne-panic :
      (msgs : List SdkMsg) (sig_tx : Bool) (signers : Option (List (List ℕ)))
      → has_svm_msg msgs ≡ true
      → All IsIndexed msgs
      → check_svm_tx k (record { msgs = msgs; is_sig_tx = sig_tx; signers = signers }) ≢ panic
  unfolding check_svm_tx has_svm_msg first_transaction
  check_svm_tx-ne-panic [] sig_tx signers svm h = cc
  check_svm_tx-ne-panic (x ∷ y ∷ msgs) sig_tx signers svm h = ground arith
  check_svm_tx-ne-panic (other n ∷ []) sig_tx signers svm h = ground arith
  check_svm_tx-ne-panic (transaction m ∷ []) sig_tx none svm h = ground arith
  check_svm_tx-ne-panic (transaction m ∷ []) sig_tx (some signers) svm h =
      let parse = ((validate_basic_parts k.acc_address_from_bech32 m).0 h.0.0).0 in
      let links =
        check_signer_links-ne-panic m.signers
          ((check_signers_iff k.acc_address_from_bech32 m.signers).0 parse) in
      let rest = check_instructions-ne-panic signers m.accounts m.instructions h.0.1 in ground arith

-- When every svm message of the transaction has passed ValidateBasic and has an account at each
-- caller index, the decorator panics only if the rest of the chain does.
pub ante_handle-ne-panic {ℓ} :
    {A : Type ℓ} (k : SvmKeeper) (is_enabled : Bool) (tx : SdkTx) (next : Result Error A)
    → All (IsIndexed k) tx.msgs
    → next ≢ panic
    → ante_handle k is_enabled tx next ≢ panic
unfolding ante_handle
ante_handle-ne-panic k is_enabled tx next h calm = elim (Bool-cases (has_svm_msg tx.msgs)) [
  | inl svm ↦
      let safe = check_svm_tx-ne-panic k tx.msgs tx.is_sig_tx tx.signers svm h in ground arith
  | inr plain ↦ ground arith
]
