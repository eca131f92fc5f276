-- ===== src/Client.antt =====
-- client/chain/chain.go: the client that signs transactions and hands them to a node. The children
-- hold one broadcast with the account's sequence number, the loop that collects queued messages, and the
-- transactions that several keys sign.
pub mod Broadcast
pub mod Batch
pub mod Queue
pub mod Sign
use flux_sdk_go.Common.{ℕ, Bytes, Result, Check, List, Option}

-- `tx.Factory`, as far as the client sets it.
pub record Factory : Type 0 where
  pub account_number : ℕ
  pub sequence : ℕ
  pub gas : ℕ

-- `TxResponse`
pub record Response : Type 0 where
  pub code : ℕ
  pub hash : Bytes
  pub height : ℕ

-- `chainClient`: what its broadcasts read and write.
pub record ChainClient : Type 0 where
  pub acc_num : ℕ
  pub acc_seq : ℕ
  pub gas_wanted : ℕ
  pub factory : Factory
  pub broadcasted : ℕ

-- The node and the SDK's transaction builder: `Net` is the state of the node, `Msg` a message, `Tx` a
-- transaction that is not encoded. A failed call answers the text of its error.
pub record Node (Net Msg Tx : Type 0) : Type 0 where
  pub ensure_exists : Net → Check Bytes
  pub get_account_number_sequence : Net → Result Bytes (ℕ × ℕ)
  pub build_sim_tx : Factory → List Msg → Result Bytes Bytes
  pub simulate : Net → Bytes → Result Bytes ℕ
  pub adjust_gas : ℕ → ℕ
  pub build_unsigned_tx : Factory → List Msg → Result Bytes Tx
  pub sign : Factory → Tx → Result Bytes Tx
  pub encode_tx : Tx → Result Bytes Bytes
  pub broadcast : Net → Bytes → Net × Result Bytes Response
  pub get_tx : Net → Bytes → Net × Result Bytes Response
