-- ===== src/Upload/Tests.antt =====
-- The upload of a program of three bytes.
use flux_sdk_go.Common.{
  ◌≡◌, ◌≢◌, refl, String, str_eq, eq_iff, some, [], ◌∷◌, ok, err, arith, Bytes,
}
use flux_sdk_go.Svm.Validate.{MsgTransaction}
use flux_sdk_go.Svm.Convert.{Solana, to_cosmos_msg, to_instructions}
use flux_sdk_go.Upload.{
  stuck, Uploader, create_program_upload_msgs, upload_loop, build_msg, marshal_write, le_bytes,
  chunk_end,
}
use flux_sdk_go.Upload.Groups.{
  IsUpload, create_program_upload_msgs-IsUpload, create_program_upload_msgs-ne-stuck,
}

abbrev plain : Solana
plain = record {
  PublicKey = String;
  equals = str_eq;
  equals_iff = eq_iff;
  to_string = λ s. s;
  to_string_injective = λ a b e. e;
}

abbrev up : Uploader plain
up = record {
  owner = "owner";
  program = "program";
  buffer = "buffer";
  loader = "loader";
  rent = "rent";
  clock = "clock";
  system = "system";
  find_program_address = λ key. some "executable";
  build = λ ixs. some (record { account_keys = "owner" ∷ []; instructions = [] });
  signers = "lux1a" ∷ [];
}

abbrev program : Bytes
program = 7 ∷ 8 ∷ 9 ∷ []

abbrev msg : MsgTransaction
msg = record {
  signers = "lux1a" ∷ [];
  accounts = "owner" ∷ [];
  instructions = [];
  compute_budget = 10000000;
}

uploads : create_program_upload_msgs plain up program ≡ ok (msg ∷ [])
unfolding create_program_upload_msgs upload_loop chunk_end build_msg to_cosmos_msg to_instructions
uploads = refl

create_program_upload_msgs-IsUpload_example : IsUpload plain up program (msg ∷ [])
create_program_upload_msgs-IsUpload_example =
    create_program_upload_msgs-IsUpload plain up program (msg ∷ []) (omega arith) uploads

create_program_upload_msgs-ne-stuck_example :
    create_program_upload_msgs plain up program ≢ err stuck
create_program_upload_msgs-ne-stuck_example = create_program_upload_msgs-ne-stuck plain up program

marshals_write :
    marshal_write (record { offset = 1200; chunk = 7 ∷ 8 ∷ [] })
    ≡ 1 ∷ 0 ∷ 0 ∷ 0 ∷ 176 ∷ 4 ∷ 0 ∷ 0 ∷ 2 ∷ 0 ∷ 0 ∷ 0 ∷ 0 ∷ 0 ∷ 0 ∷ 0 ∷ 7 ∷ 8 ∷ []
unfolding marshal_write le_bytes
marshals_write = refl
