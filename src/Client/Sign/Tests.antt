-- ===== src/Client/Sign/Tests.antt =====
-- An account that is linked by its first call.
use flux_sdk_go.Common.{
  ℕ, suc, ◌≡◌, refl, ◌⊎◌, true, none, some, [], ◌∷◌, ◌++◌, Result, ok, err, Bytes, codes, bytes_eq,
  bytes_eq_iff, cut_prefix, arith,
}
use flux_sdk_go.Client.{Response, Node}
use flux_sdk_go.Client.Broadcast.{contains, await_tx}
use flux_sdk_go.Client.Sign.{
  LinkMsg, Wallet, find_accounts, placeholders, sign_all, build_signed_tx, get_svm_account_link,
  sync_broadcast_signed_tx, link_tx, get_or_link_svm_account,
}
use flux_sdk_go.Client.Sign.Link.{IsLinkTx, get_or_link_svm_account-Links}

abbrev response : ℕ → Response
response code = record { code = code; hash = []; height = 1 }

-- A node that takes every transaction, and answers with the code.
abbrev taker : ℕ → Node ℕ LinkMsg ℕ
taker code = record {
  ensure_exists = λ net. ok tt;
  get_account_number_sequence = λ net. ok (7, net);
  build_sim_tx = λ f msgs. ok [];
  simulate = λ net b. ok 100;
  adjust_gas = λ gas. gas;
  build_unsigned_tx = λ f msgs. ok 0;
  sign = λ f t. ok t;
  encode_tx = λ f. ok [];
  broadcast = λ net b. (suc net, ok (response code));
  get_tx = λ net hash. (net, ok (response 0));
}

abbrev made_by : ℕ → Bytes → Result Bytes Bytes
made_by k m = ok (k ∷ m)

made_by-verified : (k : ℕ) (m s : Bytes) → made_by k m ≡ ok s → bytes_eq s ((k ∷ []) ++ m) ≡ true
made_by-verified k m s e = (bytes_eq_iff s (k ∷ m)).1 (ground arith)

-- A signature is the key and the text; `link` is what the node says of each account.
abbrev keys : Result Bytes Bytes → Wallet ℕ ℕ ℕ LinkMsg
keys link = record {
  pub_key = λ k. k ∷ [];
  address = λ a. a;
  address_text = λ a. a;
  get_account_number_sequence = λ net a. ok (7, net);
  encode = λ tx. ok (tx.gas_limit ∷ []);
  sign_bytes = λ doc. ok (doc.fee ∷ (doc.sequence ∷ []));
  sign = made_by;
  verify = λ key m s. bytes_eq s (key ++ m);
  sign-verify = made_by-verified;
  svm_pub_key = λ k. k ∷ [];
  svm_sign = made_by;
  svm_verify = λ key m s. bytes_eq s (key ++ m);
  svm_sign-svm_verify = made_by-verified;
  account_link = λ net a. link;
  link_msg = λ m. m;
}

abbrev unlinked : Result Bytes Bytes
unlinked = err (codes "account link not found")

run : Unit {0}
unfolding find_accounts placeholders sign_all build_signed_tx get_svm_account_link
    sync_broadcast_signed_tx link_tx get_or_link_svm_account contains cut_prefix await_tx
run = tt

links_new :
    get_or_link_svm_account (taker 0) (keys unlinked) 1 5 2 9 0
    ≡ (6, ok (9 ∷ [], some (response 0)))
unfolding run
links_new = refl

keeps_linked :
    get_or_link_svm_account (taker 0) (keys (ok (4 ∷ []))) 1 5 2 9 0 ≡ (5, ok (4 ∷ [], none))
unfolding run
keeps_linked = refl

-- A transaction that the node rejects is no error: the key is answered, though it is not linked.
answers_rejected :
    get_or_link_svm_account (taker 32) (keys unlinked) 1 5 2 9 0
    ≡ (6, ok (9 ∷ [], some (response 32)))
unfolding run
answers_rejected = refl

get_or_link_svm_account-Links_example :
    ((get_svm_account_link (taker 0) (keys unlinked) 5 (2 ∷ []) ≡ ok (some (9 ∷ [])))
      × (some (response 0) ≡ none)
      × ◌≡◌ {A = ℕ} 5 6)
    ⊎ ((bytes : Bytes) × (r : Response) × IsLinkTx (taker 0) (keys unlinked) 5 2 9 0 bytes
        × (get_svm_account_link (taker 0) (keys unlinked) 5 (2 ∷ []) ≡ ok none)
        × ◌≡◌ {A = Bytes} (9 ∷ []) (9 ∷ [])
        × (some (response 0) ≡ some r)
        × (sync_broadcast_signed_tx (taker 0) (keys unlinked) 1 5 bytes ≡ (6, ok r)))
get_or_link_svm_account-Links_example =
    get_or_link_svm_account-Links (taker 0) (keys unlinked) 1 5 6 2 9 0 (9 ∷ []) (some (response 0))
      links_new
