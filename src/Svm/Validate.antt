-- ===== src/Svm/Validate.antt =====
-- chain/modules/svm/types: the messages of tx.pb.go and svm.pb.go, and the ValidateBasic methods of
-- msgs.go. A Go map is the association list of what was inserted; a read of a missing key is 0.
pub mod Laws
mod Tests
use flux_sdk_go.Common.{
  ℕ, zero, suc, ◌+◌, ◌%◌, ◌^◌, String, str_eq, Bool, true, false, not, Option, none, some, List, [],
  ◌∷◌, length, Result, ok, err, Check, ◌>>=◌, ◌>>◌, reject_if, or_err, ltb, ◌==◌, ◌||◌,
  if◌then◌else◌,
}

-- A `uint32(n)` conversion.
abbrev pub uint32 : ℕ → ℕ
uint32 n = n % 2 ^ 32

pub record InstructionAccount : Type 0 where
  pub id_index : ℕ
  pub caller_index : ℕ
  pub callee_index : ℕ
  pub is_signer : Bool
  pub is_writable : Bool

pub record Instruction : Type 0 where
  pub program_index : List ℕ
  pub accounts : List InstructionAccount
  pub ix_data : List ℕ

pub record MsgTransaction : Type 0 where
  pub signers : List String
  pub accounts : List String
  pub instructions : List Instruction
  pub compute_budget : ℕ

pub record MsgLinkSvmAccount : Type 0 where
  pub sender : String
  pub svm_pubkey : List ℕ
  pub svm_signature : List ℕ

pub data Error : Type 0 where
  bad_signer zero_budget empty_accounts empty_instructions : Error
  duplicate_account : String → Error
  id_out_of_range caller_out_of_range callee_out_of_range callee_not_first : Error
  bad_pubkey_length bad_signature_length : Error

-- `for _, signer := range m.Signers`; `parse` is `sdk.AccAddressFromBech32`.
pub check_signers : (String → Option (List ℕ)) → List String → Check Error
check_signers parse [] = ok tt
check_signers parse (signer ∷ rest) = do
  _ ← or_err (parse signer) bad_signer
  check_signers parse rest

pub contains : String → List String → Bool
contains account [] = false
contains account (a ∷ seen) = str_eq a account || contains account seen

-- `seen` holds the keys of `txAccountsMap`.
pub check_distinct : List String → List String → Check Error
check_distinct seen [] = ok tt
check_distinct seen (account ∷ rest) =
    reject_if (contains account seen) (duplicate_account account)
    >> check_distinct (account ∷ seen) rest

pub callee_lookup : ℕ → List (ℕ × ℕ) → Option ℕ
callee_lookup k [] = none
callee_lookup k ((j, v) ∷ m) = if j == k then some v else callee_lookup k m

-- `calleeIndexMap` after its insertion, at an account of index `id` in position `idx`.
pub callee_insert : ℕ → ℕ → List (ℕ × ℕ) → List (ℕ × ℕ)
callee_insert id idx m = elim (callee_lookup id m) [ none ↦ (id, uint32 idx) ∷ m | some _ ↦ m ]

abbrev pub or_zero : Option ℕ → ℕ
or_zero none = 0
or_zero (some v) = v

-- The checks of one account in `for idx, ixAccount := range ix.Accounts`.
pub check_ix_account : (tx_len ix_len : ℕ) → List (ℕ × ℕ) → InstructionAccount → Check Error
unfolding callee_lookup
check_ix_account tx_len ix_len m a = do
  reject_if (ltb (uint32 tx_len) a.id_index) id_out_of_range
  reject_if (ltb (uint32 tx_len) a.caller_index) caller_out_of_range
  reject_if (ltb (uint32 ix_len) a.callee_index) callee_out_of_range
  reject_if (not (a.callee_index == or_zero (callee_lookup a.id_index m))) callee_not_first

-- The range checks come before the insertion in the source and read nothing of the map.
pub check_ix_accounts :
    (tx_len ix_len : ℕ) → List (ℕ × ℕ) → ℕ → List InstructionAccount → Check Error
check_ix_accounts tx_len ix_len m idx [] = ok tt
check_ix_accounts tx_len ix_len m idx (a ∷ rest) =
    let m' = callee_insert a.id_index idx m in
    check_ix_account tx_len ix_len m' a >> check_ix_accounts tx_len ix_len m' (idx + 1) rest

pub check_instructions : ℕ → List Instruction → Check Error
check_instructions tx_len [] = ok tt
check_instructions tx_len (ix ∷ rest) =
    check_ix_accounts tx_len (length ix.accounts) [] 0 ix.accounts >> check_instructions tx_len rest

abbrev is_empty {ℓ} : {A : Type ℓ} → List A → Bool
is_empty [] = true
is_empty (_ ∷ _) = false

module _ (acc_address_from_bech32 : String → Option (List ℕ)) where
  -- `MsgTransaction.ValidateBasic`
  pub validate_basic : MsgTransaction → Check Error
  validate_basic m = do
    check_signers acc_address_from_bech32 m.signers
    reject_if (m.compute_budget == 0) zero_budget
    reject_if (is_empty m.accounts) empty_accounts
    reject_if (is_empty m.instructions) empty_instructions
    check_distinct [] m.accounts
    check_instructions (length m.accounts) m.instructions

  -- `MsgLinkSVMAccount.ValidateBasic`
  pub validate_link : MsgLinkSvmAccount → Check Error
  validate_link m = do
    _ ← or_err (acc_address_from_bech32 m.sender) bad_signer
    reject_if (not (length m.svm_pubkey == 32)) bad_pubkey_length
    reject_if (not (length m.svm_signature == 64)) bad_signature_length
