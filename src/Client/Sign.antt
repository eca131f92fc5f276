-- ===== src/Client/Sign.antt =====
-- BuildSignedTx and GetOrLinkSvmAccount of client/svm/helper.go, with SyncBroadcastSignedTx and GetSVMAccountLink of
-- client/chain/chain.go. The keys, the sign bytes of SIGN_MODE_DIRECT and the encoder of transactions are a record.
pub mod Laws
pub mod Link
mod Tests
use flux_sdk_go.Common.{
  ℕ, ◌+◌, ◌*◌, ◌%◌, ◌^◌, ◌≡◌, Bool, true, Option, none, some, List, [], ◌∷◌, Result, ok, err, panic,
  ◌>>=◌, ◌>>◌, Bytes, codes, map, if◌then◌else◌, ◌==◌, not,
}
use flux_sdk_go.Client.{Response, Node}
use flux_sdk_go.Client.Broadcast.{wrapped, contains, await_tx}

-- `SignatureV2` with a single signature of SIGN_MODE_DIRECT; the signature is empty before it is made.
pub record SignatureV2 : Type 0 where
  pub pub_key : Bytes
  pub signature : Bytes
  pub sequence : ℕ

-- What the transaction builder holds; the fee is an amount of lux.
pub record SignedTx (Msg : Type 0) : Type 0 where
  pub msgs : List Msg
  pub timeout_height : ℕ
  pub signatures : List SignatureV2
  pub gas_limit : ℕ
  pub fee : ℕ

-- What a signer signs: the transaction with the keys and sequences of its signers, and the signer's own account.
pub record SignDoc (Msg : Type 0) : Type 0 where
  pub msgs : List Msg
  pub timeout_height : ℕ
  pub signer_infos : List (Bytes × ℕ)
  pub gas_limit : ℕ
  pub fee : ℕ
  pub address : Bytes
  pub account_number : ℕ
  pub sequence : ℕ

-- `MsgLinkSVMAccount`, with an amount of lux that is not negative: NewInt64Coin panics on any other.
pub record LinkMsg : Type 0 where
  pub sender : Bytes
  pub svm_pubkey : Bytes
  pub svm_signature : Bytes
  pub amount : ℕ

pub record Wallet (Net Priv SvmPriv Msg : Type 0) : Type 0 where
  pub pub_key : Priv → Bytes
  pub address : Bytes → Bytes
  pub address_text : Bytes → Bytes
  pub get_account_number_sequence : Net → Bytes → Result Bytes (ℕ × ℕ)
  pub encode : SignedTx Msg → Result Bytes Bytes
  pub sign_bytes : SignDoc Msg → Result Bytes Bytes
  pub sign : Priv → Bytes → Result Bytes Bytes
  pub verify : Bytes → Bytes → Bytes → Bool
  pub sign-verify : (k : Priv) (m s : Bytes) → sign k m ≡ ok s → verify (pub_key k) m s ≡ true
  pub svm_pub_key : SvmPriv → Bytes
  pub svm_sign : SvmPriv → Bytes → Result Bytes Bytes
  pub svm_verify : Bytes → Bytes → Bytes → Bool
  pub svm_sign-svm_verify :
      (k : SvmPriv) (m s : Bytes) → svm_sign k m ≡ ok s → svm_verify (svm_pub_key k) m s ≡ true
  pub account_link : Net → Bytes → Result Bytes Bytes
  pub link_msg : LinkMsg → Msg

-- `if err != nil { panic(err) }`
abbrev pub must {ℓ} : {A : Type ℓ} → Result Bytes A → Result Bytes A
must (ok a) = ok a
must (err e) = panic
must panic = panic

abbrev pub signer_info : SignatureV2 → Bytes × ℕ
signer_info s = (s.pub_key, s.sequence)

module _ {Net Priv SvmPriv Msg Tx : Type 0} (node : Node Net Msg Tx)
    (wallet : Wallet Net Priv SvmPriv Msg) where
  -- `GetAccountNumberSequence` for each of the signers.
  pub find_accounts : Net → List Priv → Result Bytes (List (ℕ × ℕ))
  find_accounts net [] = ok []
  find_accounts net (k ∷ keys) = do
    account ←
        wrapped "get acc number err"
          (wallet.get_account_number_sequence net (wallet.address (wallet.pub_key k)))
    rest ← find_accounts net keys
    ok (account ∷ rest)

  -- The signatures that stand in the transaction while its gas is estimated.
  pub placeholders : List Priv → List (ℕ × ℕ) → List SignatureV2
  placeholders (k ∷ keys) ((number, seq) ∷ accounts) =
      record { pub_key = wallet.pub_key k; signature = []; sequence = seq }
      ∷ placeholders keys accounts
  placeholders _ _ = []

  abbrev pub draft : List Msg → List SignatureV2 → ℕ → ℕ → SignedTx Msg
  draft msgs signatures gas fee = record {
    msgs = msgs;
    timeout_height = 19000000;
    signatures = signatures;
    gas_limit = gas;
    fee = fee;
  }

  -- What the signer with the key `k` signs of a transaction.
  abbrev pub sign_doc : SignedTx Msg → Priv → ℕ → ℕ → SignDoc Msg
  sign_doc tx k number seq = record {
    msgs = tx.msgs;
    timeout_height = tx.timeout_height;
    signer_infos = map signer_info tx.signatures;
    gas_limit = tx.gas_limit;
    fee = tx.fee;
    address = wallet.address_text (wallet.address (wallet.pub_key k));
    account_number = number;
    sequence = seq;
  }

  -- `tx.SignWithPrivKey` for each of the signers.
  pub sign_all : SignedTx Msg → List Priv → List (ℕ × ℕ) → Result Bytes (List SignatureV2)
  sign_all tx (k ∷ keys) ((number, seq) ∷ accounts) = do
    bytes ← must (wallet.sign_bytes (sign_doc tx k number seq))
    made ← must (wallet.sign k bytes)
    rest ← sign_all tx keys accounts
    ok (record { pub_key = wallet.pub_key k; signature = made; sequence = seq } ∷ rest)
  sign_all tx _ _ = ok []

  -- `BuildSignedTx`; the gas is twice what the simulation used, a uint64, at 500000000 lux a unit.
  pub build_signed_tx : Net → List Msg → List Priv → Result Bytes (SignedTx Msg)
  build_signed_tx net msgs keys = do
    accounts ← find_accounts net keys
    bz ← wrapped "encode tx err" (wallet.encode (draft msgs (placeholders keys accounts) 0 0))
    used ← wrapped "encode tx err" (node.simulate net bz)
    signatures ←
        sign_all
          (draft msgs (placeholders keys accounts) (used * 2 % 2 ^ 64)
            (used * 2 % 2 ^ 64 * 500000000))
          keys accounts
    ok (draft msgs signatures (used * 2 % 2 ^ 64) (used * 2 % 2 ^ 64 * 500000000))

  -- `GetSVMAccountLink`, none for an account that is not linked.
  pub get_svm_account_link : Net → Bytes → Result Bytes (Option Bytes)
  get_svm_account_link net address = found (wallet.account_link net (wallet.address_text address))
    where
      found : Result Bytes Bytes → Result Bytes (Option Bytes)
      found (ok key) = ok (some key)
      found (err e) = if contains e (codes "account link not found") then ok none else err e
      found panic = panic

  -- `SyncBroadcastSignedTx`, with as many polls as its timer ticks before the deadline.
  pub sync_broadcast_signed_tx : ℕ → Net → Bytes → Net × Result Bytes Response
  sync_broadcast_signed_tx ticks net bytes = answered (node.broadcast net bytes)
    where
      answered : Net × Result Bytes Response → Net × Result Bytes Response
      answered (net, ok r) =
          let later = await_tx node ticks net r in if not (r.code == 0) then (net, ok r) else later
      answered (net, err e) = (net, err e)
      answered (net, panic) = (net, panic)

  -- The bytes of the transaction that links the account.
  pub link_tx : Net → Priv → SvmPriv → ℕ → Result Bytes Bytes
  link_tx net k svm amount =
      let sender = wallet.address_text (wallet.address (wallet.pub_key k)) in
      (do
        made ← wrapped "svm private key sign err" (wallet.svm_sign svm sender)
        tx ←
            build_signed_tx net
              (wallet.link_msg (record {
                sender = sender;
                svm_pubkey = wallet.svm_pub_key svm;
                svm_signature = made;
                amount = amount;
              })
                ∷ [])
              (k ∷ [])
        wallet.encode tx)

  -- `GetOrLinkSvmAccount`: the key, and the answer to the transaction if one was sent.
  pub get_or_link_svm_account :
      ℕ → Net → Priv → SvmPriv → ℕ → Net × Result Bytes (Bytes × Option Response)
  get_or_link_svm_account ticks net k svm amount =
      linked (get_svm_account_link net (wallet.address (wallet.pub_key k)))
    where
      sent : Net × Result Bytes Response → Net × Result Bytes (Bytes × Option Response)
      sent (net, ok r) = (net, ok (wallet.svm_pub_key svm, some r))
      sent (net, err e) = (net, err e)
      sent (net, panic) = (net, panic)

      built : Result Bytes Bytes → Net × Result Bytes (Bytes × Option Response)
      built (ok bytes) = sent (sync_broadcast_signed_tx ticks net bytes)
      built (err e) = (net, err e)
      built panic = (net, panic)

      linked : Result Bytes (Option Bytes) → Net × Result Bytes (Bytes × Option Response)
      linked (ok (some key)) = (net, ok (key, none))
      linked (ok none) = built (link_tx net k svm amount)
      linked (err e) = (net, err e)
      linked panic = (net, panic)
