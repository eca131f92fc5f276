-- ===== src/Client/Broadcast/Laws.antt =====
-- The client's sequence number and the node's.
use flux_sdk_go.Common.{
  ℕ, zero, suc, ◌^◌, ◌<◌, ◌≡◌, refl, sym, ◌∙◌, ◌≢◌, ◌⊎◌, inl, inr, Bool, true, ◌||◌, List, [], ◌∷◌,
  ◌++◌, ok, err, Bytes, codes, Bool-cases, arith, ◌==◌, if◌then◌else◌,
}
use mathlib.Core.Path.{subst}
use flux_sdk_go.Client.{Factory, Response, ChainClient, Node}
use flux_sdk_go.Client.Broadcast.{
  wrap, contains, mismatch, Answer, prepare_factory, estimate, signed, await_tx, deliver,
  deliver_signed, broadcast_prepared, keep_gas, broadcast_tx, with_nonce, set_seq, sync_nonce,
  finish, settle, retry, conclude, broadcast_msg,
}

contains-append : (s t x : Bytes) → contains t x ≡ true → contains (s ++ t) x ≡ true
unfolding contains
contains-append [] t x h = h
contains-append (c ∷ s) t x h = ground (arith, contains-append s t x h)

-- A node that knows the account, takes exactly its next sequence number, and puts what it takes into a
-- block by the next poll; and a builder that builds the messages.
pub record Honest {Net Msg Tx : Type 0} (node : Node Net Msg Tx) (msgs : List Msg) (number : ℕ)
    (sequence : Net → ℕ) : Type 0 where
  pub exists : (net : Net) → node.ensure_exists net ≡ ok tt
  pub account : (net : Net) → node.get_account_number_sequence net ≡ ok (number, sequence net)
  pub sim_bytes : Factory → Bytes
  pub builds_sim : (f : Factory) → node.build_sim_tx f msgs ≡ ok (sim_bytes f)
  pub wrong_sequence :
      (net : Net) (f : Factory)
      → f.sequence ≢ sequence net
      → (e : Bytes) × (node.simulate net (sim_bytes f) ≡ err e) × (contains e mismatch ≡ true)
  pub right_sequence :
      (net : Net) (f : Factory)
      → f.sequence ≡ sequence net
      → f.account_number ≡ number
      → (gas : ℕ) × (node.simulate net (sim_bytes f) ≡ ok gas)
  pub unsigned : Factory → Tx
  pub builds : (f : Factory) → node.build_unsigned_tx f msgs ≡ ok (unsigned f)
  pub signs : (f : Factory) → node.sign f (unsigned f) ≡ ok (unsigned f)
  pub tx_bytes : Factory → Bytes
  pub encodes : (f : Factory) → node.encode_tx (unsigned f) ≡ ok (tx_bytes f)
  pub accepts :
      (net : Net) (f : Factory)
      → f.sequence ≡ sequence net
      → (net' : Net) × (r : Response) × (node.broadcast net (tx_bytes f) ≡ (net', ok r))
        × (r.code ≡ 0)
        × (sequence net' ≡ suc (sequence net))
  pub includes :
      (net : Net) (hash : Bytes)
      → (net' : Net) × (r : Response) × (node.get_tx net hash ≡ (net', ok r))
        × (0 < r.height)
        × (sequence net' ≡ sequence net)

module _ {Net Msg Tx : Type 0} (node : Node Net Msg Tx) (msgs : List Msg) (number : ℕ)
    (sequence : Net → ℕ) (honest : Honest node msgs number sequence) where
  -- The transaction was taken, and the client's own number is as it was.
  abbrev IsTaken : Net → ChainClient → Answer Net → Type 0
  IsTaken net client a =
      ((r : Response) × (a.result ≡ ok r))
      × (sequence a.net ≡ suc (sequence net))
      × (a.client.acc_seq ≡ client.acc_seq)

  prepare_factory-fills :
      (net : Net) (f : Factory)
      → (g : Factory) × (prepare_factory node net f ≡ ok g)
        × (g.sequence ≡ (if f.sequence == 0 then sequence net else f.sequence))
        × (g.account_number ≡ (if f.account_number == 0 then number else f.account_number))
  unfolding prepare_factory
  prepare_factory-fills net f =
      let e₁ = honest.exists net in
      let e₂ = honest.account net in
      elim (Bool-cases ((f.account_number == 0) || (f.sequence == 0))) [
        | inl some_zero ↦ rw (e₁, some_zero, e₂) (_, refl, refl, refl)
        | inr none_zero ↦ rw (e₁, none_zero) (f, refl, ground arith, ground arith)
      ]

  -- A first poll that finds the transaction ends the wait.
  await_tx-found :
      (ticks : ℕ) (net : Net) (r : Response)
      → 0 < ticks
      → (net' : Net) × (found : Response) × (await_tx node ticks net r ≡ (net', ok found))
        × (sequence net' ≡ sequence net)
  unfolding await_tx
  await_tx-found zero net r lt = absurd (omega arith)
  await_tx-found (suc ticks) net r lt =
      let (net', found, e, high, same) = honest.includes net r.hash in
      (net', found, rw e (ground arith), same)

  signed-ok : (f : Factory) → signed node f msgs ≡ ok (honest.tx_bytes f)
  unfolding signed
  signed-ok f = rw (honest.builds f, honest.signs f, honest.encodes f) refl

  deliver-IsTaken :
      (ticks : ℕ) (await : Bool) (net : Net) (f : Factory) (client : ChainClient)
      → 0 < ticks
      → f.sequence ≡ sequence net
      → IsTaken net client
          (deliver node ticks await client (node.broadcast net (honest.tx_bytes f)))
  unfolding deliver
  deliver-IsTaken ticks await net f client lt right =
      let (net', r, e, code, next) = honest.accepts net f right in
      let (net'', found, e', same) = await_tx-found ticks net' r lt in
      let passed : (r.code == 0) ≡ true = ground arith in
      elim (Bool-cases await) [
        | inl yes_await ↦ rw (e, yes_await, passed, e') ((found, refl), same ∙ next, refl)
        | inr no_await ↦ rw (e, no_await, passed) ((r, refl), next, refl)
      ]

  -- An attempt with the number that the node expects, or with none, is taken.
  attempt-IsTaken :
      (ticks : ℕ) (await : Bool) (net : Net) (client : ChainClient)
      → 0 < ticks
      → client.factory.account_number ≡ number
      → (client.factory.sequence ≡ sequence net) ⊎ (client.factory.sequence ≡ 0)
      → IsTaken net client (broadcast_tx node ticks true await msgs net client)
  unfolding broadcast_tx broadcast_prepared estimate keep_gas deliver_signed
  attempt-IsTaken ticks await net client lt num seq =
      let (f, e, s, n) = prepare_factory-fills net client.factory in
      let right : f.sequence ≡ sequence net = ground arith in
      let right_num : f.account_number ≡ number = ground arith in
      let (gas, e') = honest.right_sequence net f right right_num in
      let g : Factory = record {
        account_number = f.account_number;
        sequence = f.sequence;
        gas = node.adjust_gas gas;
      } in
      rw (e, honest.builds_sim f, e', signed-ok g)
        (deliver-IsTaken ticks await net g (keep_gas true client g) lt right)

  -- An attempt with another number changes nothing, and the error says that the sequence mismatches.
  attempt-mismatch :
      (ticks : ℕ) (await : Bool) (net : Net) (client : ChainClient)
      → client.factory.sequence ≢ sequence net
      → client.factory.sequence ≢ 0
      → (x : Bytes) × (broadcast_tx node ticks true await msgs net client
          ≡ record { net = net; client = client; result = err x })
        × (contains x mismatch ≡ true)
  unfolding broadcast_tx broadcast_prepared estimate
  attempt-mismatch ticks await net client wrong given =
      let (f, e, s, n) = prepare_factory-fills net client.factory in
      let other : f.sequence ≢ sequence net = ground arith in
      let (x, e', c) = honest.wrong_sequence net f other in
      (
        wrap "failed to CalculateGas" x,
        rw (e, honest.builds_sim f, e') refl,
        contains-append (codes "failed to CalculateGas") (codes ": " ++ x) mismatch
            (contains-append (codes ": ") x mismatch c),
      )

  -- Client and node agree on the next number.
  abbrev pub InStep : Answer Net → Net → Type 0
  InStep a net =
      ((r : Response) × (a.result ≡ ok r))
      × (a.client.acc_seq ≡ sequence a.net)
      × (sequence a.net ≡ suc (sequence net))

  finish-InStep :
      (net : Net) (client : ChainClient) (a : Answer Net)
      → IsTaken net client a
      → client.acc_seq ≡ sequence net
      → suc (sequence net) < 2 ^ 64
      → InStep (finish a) net
  unfolding finish set_seq
  finish-InStep net client a ((r, e), next, kept) same lt = ((r, e), ground arith, next)

  sync_nonce-eq :
      (net : Net) (client : ChainClient)
      → client.acc_num ≡ number
      → sync_nonce node net client ≡ ok (set_seq (sequence net) client)
  unfolding sync_nonce
  sync_nonce-eq net client num =
      let e = honest.account net in
      let known : (number == client.acc_num) ≡ true = ground arith in rw (e, known) refl

  -- The retry, after the client has taken the node's number.
  retry-InStep :
      (ticks : ℕ) (await : Bool) (net : Net) (client : ChainClient)
      → 0 < ticks
      → client.acc_num ≡ number
      → suc (sequence net) < 2 ^ 64
      → InStep (retry node ticks true await msgs net client (sync_nonce node net client)) net
  unfolding retry settle with_nonce set_seq
  retry-InStep ticks await net client lt num small =
      let synced = set_seq (sequence net) client in
      let taken = attempt-IsTaken ticks await net (with_nonce synced) lt num (inl refl) in
      let ((r, e), next, kept) = taken in
      let synced_eq = sync_nonce-eq net client num in
      let again = broadcast_tx node ticks true await msgs net (with_nonce synced) in
      rw synced_eq (
        subst (λ o. InStep (settle again o) net) (sym e)
          (finish-InStep net (with_nonce synced) again taken refl small))

  -- On a client that estimates its gas, that is whose context has Simulate set, which knows the number of its account
  -- and polls at least once before its deadline, and on an honest node whose next sequence number is below
  -- 2^64 - 1: whatever sequence number the client has, one call of SyncBroadcastMsg or AsyncBroadcastMsg answers
  -- a response, the node has taken one transaction, and client and node agree on the next number. A number
  -- that was off is taken from the node and the transaction is sent again. A client at number 0 is asked to be
  -- right, since 0 stands there for no number.
  pub broadcast_msg-InStep :
      (ticks : ℕ) (await : Bool) (net : Net) (client : ChainClient)
      → 0 < ticks
      → client.acc_num ≡ number
      → (client.acc_seq ≡ 0 → sequence net ≡ 0)
      → suc (sequence net) < 2 ^ 64
      → InStep (broadcast_msg node ticks true await msgs net client) net
  unfolding broadcast_msg conclude with_nonce
  broadcast_msg-InStep ticks await net client lt num zero_right small =
      elim (Bool-cases (client.acc_seq == sequence net)) [
        | inl same ↦
            let right : client.acc_seq ≡ sequence net = ground arith in
            let taken = attempt-IsTaken ticks await net (with_nonce client) lt num (inl right) in
            let ((r, e), next, kept) = taken in
            let first = broadcast_tx node ticks true await msgs net (with_nonce client) in
            subst (λ o. InStep (conclude node ticks true await msgs first o) net) (sym e)
              (finish-InStep net (with_nonce client) first taken right small)
        | inr apart ↦
            let wrong : client.acc_seq ≢ sequence net = ground arith in
            let given : client.acc_seq ≢ 0 = λ z. wrong (z ∙ sym (zero_right z)) in
            let (x, e, says) = attempt-mismatch ticks await net (with_nonce client) wrong given in
            rw (e, says) (retry-InStep ticks await net (with_nonce client) lt num small)
      ]
