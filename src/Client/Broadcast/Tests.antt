-- ===== src/Client/Broadcast/Tests.antt =====
-- A client that is behind its node, and a transaction that the node's checks reject.
use flux_sdk_go.Common.{
  ℕ, suc, ◌+◌, ◌≡◌, refl, true, false, [], ◌∷◌, ok, err, Bytes, cut_prefix, if◌then◌else◌, ◌==◌,
  arith,
}
use flux_sdk_go.Client.{Factory, Response, ChainClient, Node}
use flux_sdk_go.Client.Broadcast.{
  contains, mismatch, broadcast_msg, broadcast_tx, broadcast_prepared, prepare_factory, estimate,
  signed, keep_gas, deliver_signed, deliver, await_tx, with_nonce, set_seq, finish, conclude,
}
use flux_sdk_go.Client.Broadcast.Laws.{Honest, InStep, broadcast_msg-InStep}

abbrev response : ℕ → Response
response code = record { code = code; hash = []; height = 1 }

-- The node's state is the account's next number; a transaction is the number that it is signed with.
abbrev counter : Node ℕ ℕ Factory
counter = record {
  ensure_exists = λ net. ok tt;
  get_account_number_sequence = λ net. ok (7, net);
  build_sim_tx = λ f msgs. ok (f.sequence ∷ []);
  simulate = λ net b. if first b == net then ok 100 else err mismatch;
  adjust_gas = λ gas. gas + gas;
  build_unsigned_tx = λ f msgs. ok f;
  sign = λ f t. ok t;
  encode_tx = λ f. ok (f.sequence ∷ []);
  broadcast =
      λ net b. if first b == net then (suc net, ok (response 0)) else (net, ok (response 32));
  get_tx = λ net hash. (net, ok (response 0));
}
  where
    first : Bytes → ℕ
    first [] = 0
    first (n ∷ _) = n

abbrev behind : ChainClient
behind = record {
  acc_num = 7;
  acc_seq = 3;
  gas_wanted = 0;
  factory = record { account_number = 0; sequence = 0; gas = 0 };
  broadcasted = 0;
}

counter-Honest : Honest counter (1 ∷ []) 7 (λ net. net)
unfolding contains cut_prefix
counter-Honest = record {
  exists = λ net. refl;
  account = λ net. refl;
  sim_bytes = λ f. f.sequence ∷ [];
  builds_sim = λ f. refl;
  wrong_sequence = λ net f n. (mismatch, ground arith, refl);
  right_sequence = λ net f e num. (100, ground arith);
  unsigned = λ f. f;
  builds = λ f. refl;
  signs = λ f. refl;
  tx_bytes = λ f. f.sequence ∷ [];
  encodes = λ f. refl;
  accepts = λ net f e. (suc net, response 0, ground arith, refl, refl);
  includes = λ net hash. (net, response 0, refl, omega arith, refl);
}

broadcast_msg-InStep_example :
    InStep counter
      (1 ∷ [])
      7
      (λ net. net)
      counter-Honest
      (broadcast_msg counter 1 true true (1 ∷ []) 5 behind)
      5
broadcast_msg-InStep_example =
    broadcast_msg-InStep counter (1 ∷ []) 7 (λ net. net) counter-Honest 1 true 5 behind
      (omega arith) refl (λ z. absurd (ground arith)) (omega arith)

-- Without the estimate of the gas no error tells of the mismatch: the node rejects the transaction by
-- its code, and the client counts it all the same.
counts_rejected : (broadcast_msg counter 1 false true (1 ∷ []) 5 behind).net ≡ 5
unfolding broadcast_msg broadcast_tx broadcast_prepared prepare_factory estimate signed keep_gas
    deliver_signed deliver await_tx with_nonce set_seq finish conclude
counts_rejected = refl

counts_rejected_too : (broadcast_msg counter 1 false true (1 ∷ []) 5 behind).client.acc_seq ≡ 4
unfolding broadcast_msg broadcast_tx broadcast_prepared prepare_factory estimate signed keep_gas
    deliver_signed deliver await_tx with_nonce set_seq finish conclude
counts_rejected_too = refl
