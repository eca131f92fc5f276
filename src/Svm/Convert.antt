-- ===== src/Svm/Convert.antt =====
-- chain/modules/svm/types/convert.go: a Solana transaction as a MsgTransaction, and the rent of
-- types.go. The keys, their text and the resolution of an instruction's accounts are the Solana
-- library's: a record of operations and laws. An index that is not found is `none`, for Go's -1.
pub mod Laws
mod Tests
use flux_sdk_go.Common.{
  ℕ, ◌+◌, ◌-◌, ◌*◌, ◌%◌, ◌^◌, ◌≡◌, ◌↔◌, String, Bool, true, Option, none, some, List, [], ◌∷◌, map,
  find_index, Result, ok, err, panic, ◌>>=◌, or_panic,
}
use flux_sdk_go.Svm.Validate.{uint32, InstructionAccount, Instruction, MsgTransaction}

pub record Solana : Type 1 where
  pub PublicKey : Type 0
  pub equals : PublicKey → PublicKey → Bool
  pub equals_iff : (a b : PublicKey) → (equals a b ≡ true) ↔ (a ≡ b)
  pub to_string : PublicKey → String
  pub to_string_injective : (a b : PublicKey) → to_string a ≡ to_string b → a ≡ b

-- `uint32(i)` of an int that is an index or -1.
abbrev pub uint32_of : Option ℕ → ℕ
uint32_of none = 2 ^ 32 - 1
uint32_of (some i) = uint32 i

-- `GetRentExemptLamportAmount`, in uint64.
pub get_rent_exempt_lamport_amount : ℕ → ℕ
get_rent_exempt_lamport_amount size = 3480 * ((128 + size) % 2 ^ 64) * 2 % 2 ^ 64

module _ (sol : Solana) where
  open sol use {PublicKey, equals, to_string}

  pub record AccountMeta : Type 0 where
    pub public_key : PublicKey
    pub is_signer : Bool
    pub is_writable : Bool

  -- `resolved` is what `ResolveInstructionAccounts` answers, `none` being its error.
  pub record CompiledInstruction : Type 0 where
    pub program_id_index : ℕ
    pub ix_data : List ℕ
    pub resolved : Option (List AccountMeta)

  pub record Transaction : Type 0 where
    pub account_keys : List PublicKey
    pub instructions : List CompiledInstruction

  pub position_of : PublicKey → List PublicKey → Option ℕ
  position_of a s = find_index (λ pk. equals pk a) s

  pub position_of_pubkey_in_account_metas : PublicKey → List AccountMeta → Option ℕ
  position_of_pubkey_in_account_metas a metas = find_index (λ meta. equals meta.public_key a) metas

  pub to_instruction_account : List PublicKey → List AccountMeta → AccountMeta → InstructionAccount
  to_instruction_account keys metas a = record {
    id_index = uint32_of (position_of a.public_key keys);
    caller_index = uint32_of (position_of a.public_key keys);
    callee_index = uint32_of (position_of_pubkey_in_account_metas a.public_key metas);
    is_signer = a.is_signer;
    is_writable = a.is_writable;
  }

  pub to_instruction : List PublicKey → CompiledInstruction → List AccountMeta → Instruction
  to_instruction keys ix metas = record {
    program_index = uint32 ix.program_id_index ∷ [];
    accounts = map (to_instruction_account keys metas) metas;
    ix_data = ix.ix_data;
  }

  -- The loop over the instructions; an instruction that does not resolve is a panic.
  unfoldable pub to_instructions :
      List PublicKey → List CompiledInstruction → Result (Unit {0}) (List Instruction)
  to_instructions keys [] = ok []
  to_instructions keys (ix ∷ rest) = do
    metas ← or_panic ix.resolved
    ixs ← to_instructions keys rest
    ok (to_instruction keys ix metas ∷ ixs)

  unfoldable pub to_cosmos_msg : List String → ℕ → Transaction → Result (Unit {0}) MsgTransaction
  to_cosmos_msg signers compute_budget tx = do
    ixs ← to_instructions tx.account_keys tx.instructions
    ok (record {
      signers = signers;
      accounts = map to_string tx.account_keys;
      instructions = ixs;
      compute_budget = compute_budget;
    })
