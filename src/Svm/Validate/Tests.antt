-- ===== src/Svm/Validate/Tests.antt =====
-- Runs of ValidateBasic, and its theorem at a concrete message.
use flux_sdk_go.Common.{
  ℕ, ◌≡◌, refl, ◌↔◌, String, true, Option, some, List, [], ◌∷◌, ok, err, arith,
}
use flux_sdk_go.Svm.Validate.{
  InstructionAccount, MsgTransaction, duplicate_account, bad_pubkey_length, callee_not_first,
  check_signers, contains, check_distinct, callee_lookup, callee_insert, check_ix_account,
  check_ix_accounts, check_instructions, validate_basic, validate_link,
}
use flux_sdk_go.Svm.Validate.Laws.{IsWellFormed, validate_basic_iff}

abbrev parse_all : String → Option (List ℕ)
parse_all s = some (7 ∷ [])

abbrev at_index : ℕ → ℕ → InstructionAccount
at_index id callee = record {
  id_index = id;
  caller_index = id;
  callee_index = callee;
  is_signer = true;
  is_writable = true;
}

abbrev with_accounts : List String → List InstructionAccount → MsgTransaction
with_accounts accounts accs = record {
  signers = "lux1a" ∷ [];
  accounts = accounts;
  instructions = record { program_index = 0 ∷ []; accounts = accs; ix_data = [] } ∷ [];
  compute_budget = 5;
}

abbrev two_accounts : MsgTransaction
two_accounts = with_accounts ("a" ∷ "b" ∷ []) (at_index 1 0 ∷ at_index 0 1 ∷ at_index 1 0 ∷ [])

run : Unit {0}
unfolding validate_basic check_signers check_distinct contains check_instructions check_ix_accounts
    check_ix_account callee_insert callee_lookup validate_link
run = tt

validate_basic_runs :
    (validate_basic parse_all two_accounts ≡ ok tt)
    × (validate_basic parse_all (with_accounts ("a" ∷ "a" ∷ []) []) ≡ err (duplicate_account "a"))
    × (validate_basic parse_all (with_accounts ("a" ∷ []) (at_index 0 0 ∷ at_index 0 1 ∷ []))
        ≡ err callee_not_first)
    × (validate_link parse_all (record { sender = "lux1a"; svm_pubkey = []; svm_signature = [] })
        ≡ err bad_pubkey_length)
unfolding run
validate_basic_runs = (refl, refl, refl, refl)

validate_basic_iff_example :
    (validate_basic parse_all two_accounts ≡ ok tt) ↔ IsWellFormed parse_all two_accounts
validate_basic_iff_example = validate_basic_iff parse_all two_accounts (omega arith) (omega arith)
