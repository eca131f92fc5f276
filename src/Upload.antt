-- ===== src/Upload.antt =====
-- client/svm/helper.go: CreateProgramUploadMsgs, which cuts a program into instructions that write its
-- chunks to a buffer account, and these into transactions. Addresses that the Solana library finds, and its
-- transaction builder, are parameters.
pub mod Chunks
pub mod Groups
mod Tests
use flux_sdk_go.Common.{
  ℕ, zero, suc, ◌+◌, ◌*◌, ◌-◌, ◌/◌, ◌%◌, ◌^◌, Bool, true, false, Option, none, some, List, [], ◌∷◌,
  ◌++◌, String, Result, ok, err, panic, ◌>>=◌, or_err, Bytes, length, take, drop, ltb, ◌==◌,
  if◌then◌else◌,
}
use flux_sdk_go.Svm.Validate.{MsgTransaction}
use flux_sdk_go.Svm.Convert.{Solana, AccountMeta, Transaction, to_cosmos_msg}

pub data Error : Type 0 where
  build_failed no_program_address stuck : Error
  not_resolved : Unit {0} → Error

abbrev pub instruction_size : ℕ
instruction_size = 1200

abbrev pub instructions_per_tx : ℕ
instructions_per_tx = 750

abbrev pub max_compute_budget : ℕ
max_compute_budget = 10000000

-- The `count` little-endian bytes of a number, modulo 256 ^ count.
pub le_bytes : ℕ → ℕ → Bytes
le_bytes zero n = []
le_bytes (suc count) n = n % 256 ∷ le_bytes count (n / 256)

pub record WriteBuffer : Type 0 where
  pub offset : ℕ
  pub chunk : Bytes

-- `WriteBuffer.MarshalWithEncoder`
pub marshal_write : WriteBuffer → Bytes
marshal_write w = le_bytes 4 1 ++ (le_bytes 4 w.offset ++ (le_bytes 8 (length w.chunk) ++ w.chunk))

-- `DeployWithMaxDataLen.MarshalWithEncoder`
pub marshal_deploy : ℕ → Bytes
marshal_deploy data_len = le_bytes 4 2 ++ le_bytes 8 data_len

-- The end of the chunk that begins at `idx`.
pub chunk_end : ℕ → ℕ → ℕ
chunk_end program_size idx =
    if ltb program_size (idx + instruction_size) then program_size else idx + instruction_size

-- The write of the chunk that begins at `idx`.
pub chunk_write : Bytes → ℕ → WriteBuffer
chunk_write program idx = record {
  offset = idx % 2 ^ 32;
  chunk = take (chunk_end (length program) idx - idx) (drop idx program);
}

module _ (sol : Solana) where
  open sol use {PublicKey}

  pub record SolanaInstruction : Type 0 where
    pub program_id : PublicKey
    pub metas : List (AccountMeta sol)
    pub ix_data : Bytes

  -- The keys of an upload and what the Solana library makes of them; `build` answers none for its error.
  pub record Uploader : Type 0 where
    pub owner : PublicKey
    pub program : PublicKey
    pub buffer : PublicKey
    pub loader : PublicKey
    pub rent : PublicKey
    pub clock : PublicKey
    pub system : PublicKey
    pub find_program_address : PublicKey → Option PublicKey
    pub build : List SolanaInstruction → Option (Transaction sol)
    pub signers : List String

  module _ (up : Uploader) where
    abbrev pub account : PublicKey → Bool → Bool → AccountMeta sol
    account key writable signer = record {
      public_key = key;
      is_signer = signer;
      is_writable = writable;
    }

    pub write_instruction : WriteBuffer → SolanaInstruction
    write_instruction w = record {
      program_id = up.loader;
      metas = account up.buffer true false ∷ account up.owner true true ∷ [];
      ix_data = marshal_write w;
    }

    -- `programExecutablePubkey` is `executable`.
    pub deploy_instruction : ℕ → PublicKey → SolanaInstruction
    deploy_instruction program_size executable = record {
      program_id = up.loader;
      metas =
          account up.owner true true
          ∷ account executable true false
          ∷ account up.program true false
          ∷ account up.buffer true false
          ∷ account up.rent false false
          ∷ account up.clock false false
          ∷ account up.system false false
          ∷ account up.owner true true
          ∷ [];
      ix_data = marshal_deploy ((program_size + 48) % 2 ^ 64);
    }

    -- `types.ToCosmosMsg(signers, MaxComputeBudget, tx)`, after the build.
    pub build_msg : List SolanaInstruction → Result Error MsgTransaction
    build_msg ixs = do
      tx ← or_err (up.build ixs) build_failed
      resolved (to_cosmos_msg sol up.signers max_compute_budget tx)
      where
        resolved : Result (Unit {0}) MsgTransaction → Result Error MsgTransaction
        resolved (ok m) = ok m
        resolved (err e) = err (not_resolved e)
        resolved panic = panic

    -- The loop over the program, and what stands in the builder after it with the messages so far.
    pub upload_loop :
        ℕ
        → Bytes
        → ℕ
        → List SolanaInstruction
        → ℕ
        → List MsgTransaction
        → Result Error (List SolanaInstruction × List MsgTransaction)
    upload_loop zero program idx builder count res = err stuck
    upload_loop (suc fuel) program idx builder count res =
        let next = chunk_end (length program) idx in
        let added = builder ++ (write_instruction (chunk_write program idx) ∷ []) in
        let full =
          (build_msg added >>= λ msg. upload_loop fuel program next [] 0 (res ++ (msg ∷ []))) in
        let room = upload_loop fuel program next added (count + 1) res in
        if ltb idx (length program)
        then (if count + 1 == instructions_per_tx then full else room)
        else ok (builder, res)

    -- `CreateProgramUploadMsgs`; a turn of the loop passes over a byte at least.
    pub create_program_upload_msgs : Bytes → Result Error (List MsgTransaction)
    create_program_upload_msgs program = do
      (builder, res) ← upload_loop (suc (length program)) program 0 [] 0 []
      executable ← or_err (up.find_program_address up.program) no_program_address
      msg ← build_msg (builder ++ (deploy_instruction (length program) executable ∷ []))
      ok (res ++ (msg ∷ []))
