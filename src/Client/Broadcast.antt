-- ===== src/Client/Broadcast.antt =====
-- prepareFactory, broadcastTx, syncNonce, SyncBroadcastMsg and AsyncBroadcastMsg of chain.go. The lock is
-- held for the whole of a broadcast, so that one follows the other. Waiting for the block is a poll for each
-- tick of the timer: `ticks` is how many of them come before the deadline.
pub mod Laws
mod Tests
use flux_sdk_go.Common.{
  ℕ, zero, suc, ◌+◌, ◌%◌, ◌^◌, Bool, true, false, not, ◌&&◌, ◌||◌, Option, none, some, String, List,
  [], ◌∷◌, ◌++◌, Result, ok, err, panic, ◌>>=◌, ◌>>◌, Bytes, codes, has_prefix, ltb, ◌==◌,
  if◌then◌else◌,
}
use flux_sdk_go.Client.{Factory, Response, ChainClient, Node}

-- `errors.Wrap`
abbrev pub wrap : String → Bytes → Bytes
wrap s e = codes s ++ (codes ": " ++ e)

abbrev pub wrapped {ℓ} : {A : Type ℓ} → String → Result Bytes A → Result Bytes A
wrapped s (ok a) = ok a
wrapped s (err e) = err (wrap s e)
wrapped s panic = panic

-- `strings.Contains`
unfoldable pub contains : Bytes → Bytes → Bool
contains [] t = has_prefix [] t
contains (c ∷ s) t = let rest = contains s t in has_prefix (c ∷ s) t || rest

abbrev pub mismatch : Bytes
mismatch = codes "account sequence mismatch"

-- `ErrTimedOut`, wrapped by the hash.
abbrev pub timed_out : Response → Bytes
timed_out r = r.hash ++ codes ": tx timed out"

-- What one poll answers, or what the later ones do.
abbrev pub first_found {ℓ} :
    {Net : Type ℓ}
    → Net × Result Bytes Response
    → Net × Result Bytes Response
    → Net × Result Bytes Response
first_found (net, ok found) later = if ltb 0 found.height then (net, ok found) else later
first_found (net, err e) later = later
first_found (net, panic) later = (net, panic)

-- A call that changes the node and the client, and what it answers.
pub record Answer (Net : Type 0) : Type 0 where
  pub net : Net
  pub client : ChainClient
  pub result : Result Bytes Response

-- The gas is kept in the client if it was estimated.
pub keep_gas : Bool → ChainClient → Factory → ChainClient
keep_gas false client f = client
keep_gas true client f = record {
  acc_num = client.acc_num;
  acc_seq = client.acc_seq;
  gas_wanted = f.gas;
  factory = client.factory;
  broadcasted = client.broadcasted;
}

-- The factory takes the client's number and sequence.
pub with_nonce : ChainClient → ChainClient
with_nonce client = record {
  acc_num = client.acc_num;
  acc_seq = client.acc_seq;
  gas_wanted = client.gas_wanted;
  factory = record {
    account_number = client.acc_num;
    sequence = client.acc_seq;
    gas = client.factory.gas;
  };
  broadcasted = client.broadcasted;
}

pub set_seq : ℕ → ChainClient → ChainClient
set_seq seq client = record {
  acc_num = client.acc_num;
  acc_seq = seq;
  gas_wanted = client.gas_wanted;
  factory = client.factory;
  broadcasted = client.broadcasted;
}

-- `c.accSeq++`
pub finish : {Net : Type 0} → Answer Net → Answer Net
finish a = record {
  net = a.net;
  client = set_seq ((a.client.acc_seq + 1) % 2 ^ 64) a.client;
  result = a.result;
}

-- After the second attempt.
pub settle : {Net : Type 0} → Answer Net → Result Bytes Response → Answer Net
settle a (ok r) = finish a
settle a (err e) = a
settle a panic = a

-- `submitBatch` of runBatchBroadcast: what a failed call answers is only logged, and a panic ends the
-- program, none.
pub count_broadcast :
    {Net : Type 0} → Answer Net → Result Bytes Response → Option (Net × ChainClient)
count_broadcast a (ok r) = some (
  a.net,
  record {
    acc_num = a.client.acc_num;
    acc_seq = a.client.acc_seq;
    gas_wanted = a.client.gas_wanted;
    factory = a.client.factory;
    broadcasted = suc a.client.broadcasted;
  },
)
count_broadcast a (err e) = some (a.net, a.client)
count_broadcast a panic = none

module _ {Net Msg Tx : Type 0} (node : Node Net Msg Tx) where
  -- `prepareFactory`
  pub prepare_factory : Net → Factory → Result Bytes Factory
  prepare_factory net f = do
    node.ensure_exists net
    (if (f.account_number == 0) || (f.sequence == 0)
        then (node.get_account_number_sequence net >>= λ p. ok (record {
          account_number = if f.account_number == 0 then p.0 else f.account_number;
          sequence = if f.sequence == 0 then p.1 else f.sequence;
          gas = f.gas;
        }))
        else ok f)

  -- The gas that the node estimates, if the client is to ask for it.
  pub estimate : Bool → Net → Factory → List Msg → Result Bytes Factory
  estimate false net f msgs = ok f
  estimate true net f msgs = do
    sim ← wrapped "failed to build sim tx bytes" (node.build_sim_tx f msgs)
    used ← wrapped "failed to CalculateGas" (node.simulate net sim)
    ok (record {
      account_number = f.account_number;
      sequence = f.sequence;
      gas = node.adjust_gas used;
    })

  -- The bytes of the signed transaction.
  pub signed : Factory → List Msg → Result Bytes Bytes
  signed f msgs = do
    unsigned ← wrapped "failed to BuildUnsignedTx" (node.build_unsigned_tx f msgs)
    txn ← wrapped "failed to Sign Tx" (node.sign f unsigned)
    wrapped "failed TxEncoder to encode Tx" (node.encode_tx txn)

  -- The loop that waits for the transaction to be in a block.
  unfoldable pub await_tx : ℕ → Net → Response → Net × Result Bytes Response
  await_tx zero net r = (net, err (timed_out r))
  await_tx (suc ticks) net r =
      let poll = node.get_tx net r.hash in
      let later = await_tx ticks poll.0 r in first_found poll later

  -- What the node answers to a transaction, and what its block says of it if the client is to wait.
  pub deliver : ℕ → Bool → ChainClient → Net × Result Bytes Response → Answer Net
  deliver ticks await client (net, ok r) =
      let later = await_tx ticks net r in
      if not (r.code == 0) || not await
      then record { net = net; client = client; result = ok r }
      else record { net = later.0; client = client; result = later.1 }
  deliver ticks await client (net, err e) = record { net = net; client = client; result = err e }
  deliver ticks await client (net, panic) = record { net = net; client = client; result = panic }

  pub deliver_signed : ℕ → Bool → Net → ChainClient → Result Bytes Bytes → Answer Net
  deliver_signed ticks await net client (ok tx) = deliver ticks await client (node.broadcast net tx)
  deliver_signed ticks await net client (err e) = record {
    net = net;
    client = client;
    result = err e;
  }
  deliver_signed ticks await net client panic = record {
    net = net;
    client = client;
    result = panic;
  }

  pub broadcast_prepared :
      ℕ → Bool → Bool → List Msg → Net → ChainClient → Result Bytes Factory → Answer Net
  broadcast_prepared ticks simulate await msgs net client (ok f) =
      deliver_signed ticks await net (keep_gas simulate client f) (signed f msgs)
  broadcast_prepared ticks simulate await msgs net client (err e) = record {
    net = net;
    client = client;
    result = err e;
  }
  broadcast_prepared ticks simulate await msgs net client panic = record {
    net = net;
    client = client;
    result = panic;
  }

  -- `broadcastTx`, with the client's own context and factory.
  pub broadcast_tx : ℕ → Bool → Bool → List Msg → Net → ChainClient → Answer Net
  broadcast_tx ticks simulate await msgs net client =
      broadcast_prepared ticks simulate await msgs net client (do
        f ← wrapped "failed to prepareFactory" (prepare_factory net client.factory)
        estimate simulate net f msgs)

  -- `syncNonce`, which panics if the account's number has changed.
  pub sync_nonce : Net → ChainClient → Result Bytes ChainClient
  sync_nonce net client = synced client (node.get_account_number_sequence net)
    where
      synced : ChainClient → Result Bytes (ℕ × ℕ) → Result Bytes ChainClient
      synced client (ok (num, seq)) =
          if num == client.acc_num then ok (set_seq seq client) else panic
      synced client (err e) = ok client
      synced client panic = panic

  pub retry : ℕ → Bool → Bool → List Msg → Net → ChainClient → Result Bytes ChainClient → Answer Net
  retry ticks simulate await msgs net old (ok client) =
      let again = broadcast_tx ticks simulate await msgs net (with_nonce client) in
      settle again again.result
  retry ticks simulate await msgs net old (err e) = record {
    net = net;
    client = old;
    result = err e;
  }
  retry ticks simulate await msgs net old panic = record { net = net; client = old; result = panic }

  -- After the first attempt: a mismatch of the sequence is tried again with the node's.
  pub conclude : ℕ → Bool → Bool → List Msg → Answer Net → Result Bytes Response → Answer Net
  conclude ticks simulate await msgs a (ok r) = finish a
  conclude ticks simulate await msgs a (err e) =
      if contains e mismatch
      then retry ticks simulate await msgs a.net a.client (sync_nonce a.net a.client)
      else a
  conclude ticks simulate await msgs a panic = a

  pub broadcast_msg : ℕ → Bool → Bool → List Msg → Net → ChainClient → Answer Net
  broadcast_msg ticks simulate await msgs net client =
      let first = broadcast_tx ticks simulate await msgs net (with_nonce client) in
      conclude ticks simulate await msgs first first.result

  pub sync_broadcast_msg : ℕ → Bool → List Msg → Net → ChainClient → Answer Net
  sync_broadcast_msg ticks simulate msgs net client =
      broadcast_msg ticks simulate true msgs net client

  pub async_broadcast_msg : ℕ → Bool → List Msg → Net → ChainClient → Answer Net
  async_broadcast_msg ticks simulate msgs net client =
      broadcast_msg ticks simulate false msgs net client

  pub submit_batch : ℕ → Bool → Option (Net × ChainClient) → List Msg → Option (Net × ChainClient)
  submit_batch ticks simulate none msgs = none
  submit_batch ticks simulate (some (net, client)) msgs =
      let a = broadcast_msg ticks simulate true msgs net client in count_broadcast a a.result
