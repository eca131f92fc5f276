-- ===== src/Client/Sign/Link.antt =====
-- When an account is linked, and by which transaction.
use flux_sdk_go.Common.{
  ℕ, ◌≡◌, refl, sym, ap, ◌∙◌, ◌⊎◌, inl, inr, true, Option, none, some, [], ◌∷◌, Result, ok, err,
  panic, >>=-eq-ok, Bytes, arith,
}
use flux_sdk_go.Client.{Response, Node}
use flux_sdk_go.Client.Broadcast.{wrapped}
use flux_sdk_go.Client.Sign.{
  SignedTx, Wallet, build_signed_tx, get_svm_account_link, sync_broadcast_signed_tx, link_tx,
  get_or_link_svm_account,
}
use flux_sdk_go.Client.Sign.Laws.{wrapped-eq-ok, IsBuilt, build_signed_tx-IsBuilt}

answers :
    {A : Type 0} (r : Result Bytes A)
    → ((a : A) × (r ≡ ok a)) ⊎ (((x : Bytes) × (r ≡ err x)) ⊎ (r ≡ panic))
answers (ok a) = inl (a, refl)
answers (err x) = inr (inl (x, refl))
answers panic = inr (inr refl)

-- An answer with a key is one answer alone.
abbrev IsAnswer :
    {Net : Type 0}
    → Net
    → Bytes
    → Option Response
    → Net × Result Bytes (Bytes × Option Response)
    → Type 0
IsAnswer net key response answer = answer ≡ (net, ok (key, response))

parts :
    {Net : Type 0} (n m : Net) (a b : Bytes) (r t : Option Response)
    → IsAnswer m b t (n, ok (a, r))
    → (n ≡ m) × (a ≡ b) × (r ≡ t)
parts n m a b r t e = let second = ap (λ p. p.1) e in (ap (λ p. p.0) e, ground arith, ground arith)

refused :
    {Net : Type 0} (n m : Net) (x : Bytes) {b : Bytes} (t : Option Response)
    → IsAnswer m b t (n, err x)
    → ⊥
refused n m x t e = let second = ap (λ p. p.1) e in cc

crashed :
    {Net : Type 0} (n m : Net) {b : Bytes} (t : Option Response) → IsAnswer m b t (n, panic) → ⊥
crashed n m t e = let second = ap (λ p. p.1) e in cc

module _ {Net Priv SvmPriv Msg Tx : Type 0} (node : Node Net Msg Tx)
    (wallet : Wallet Net Priv SvmPriv Msg) where
  -- The message that links the account of `k`, with the signature of its address by the other key.
  abbrev pub linking : Priv → SvmPriv → ℕ → Bytes → Msg
  linking k svm amount made = wallet.link_msg (record {
    sender = wallet.address_text (wallet.address (wallet.pub_key k));
    svm_pubkey = wallet.svm_pub_key svm;
    svm_signature = made;
    amount = amount;
  })

  -- The bytes are those of a transaction that carries the one message, which the svm key has signed, and that the
  -- account has signed.
  pub record IsLinkTx (net : Net) (k : Priv) (svm : SvmPriv) (amount : ℕ) (bytes : Bytes)
      : Type 0 where
    pub made : Bytes
    pub svm_signed :
        wallet.svm_verify
          (wallet.svm_pub_key svm)
          (wallet.address_text (wallet.address (wallet.pub_key k)))
          made
        ≡ true
    pub tx : SignedTx Msg
    pub built : IsBuilt node wallet net (linking k svm amount made ∷ []) (k ∷ []) tx
    pub encoded : wallet.encode tx ≡ ok bytes

  link_tx-IsLinkTx :
      (net : Net) (k : Priv) (svm : SvmPriv) (amount : ℕ) (bytes : Bytes)
      → link_tx node wallet net k svm amount ≡ ok bytes
      → IsLinkTx net k svm amount bytes
  unfolding link_tx
  link_tx-IsLinkTx net k svm amount bytes e =
      let text = wallet.address_text (wallet.address (wallet.pub_key k)) in
      let (made, signed, e₁) =
        >>=-eq-ok (wrapped "svm private key sign err" (wallet.svm_sign svm text)) _ e in
      let (tx, built, encoded) =
        >>=-eq-ok (build_signed_tx node wallet net (linking k svm amount made ∷ []) (k ∷ [])) _
          e₁ in
      record {
        made = made;
        svm_signed =
            wallet.svm_sign-svm_verify svm text made
              (wrapped-eq-ok "svm private key sign err" _ _ signed);
        tx = tx;
        built =
            build_signed_tx-IsBuilt node wallet net (linking k svm amount made ∷ []) (k ∷ []) tx
              built;
        encoded = encoded;
      }

  -- Where GetOrLinkSvmAccount answers a key without an error: the account was linked to it, and nothing is sent; or the
  -- account was not linked, the key is the caller's own, and one transaction is sent, which carries the message that
  -- links the account, signed by the svm key and, over the transaction's own sign bytes with the number
  -- and the sequence on the chain, by the account's key; the response is the one that SyncBroadcastSignedTx answers.
  pub get_or_link_svm_account-Links :
      (ticks : ℕ) (net after : Net) (k : Priv) (svm : SvmPriv) (amount : ℕ) (key : Bytes)
      (response : Option Response)
      → get_or_link_svm_account node wallet ticks net k svm amount ≡ (after, ok (key, response))
      → ((get_svm_account_link node wallet net (wallet.address (wallet.pub_key k)) ≡ ok (some key))
          × (response ≡ none)
          × (net ≡ after))
        ⊎ ((bytes : Bytes) × (r : Response) × IsLinkTx net k svm amount bytes
            × (get_svm_account_link node wallet net (wallet.address (wallet.pub_key k)) ≡ ok none)
            × (wallet.svm_pub_key svm ≡ key)
            × (response ≡ some r)
            × (sync_broadcast_signed_tx node wallet ticks net bytes ≡ (after, ok r)))
  unfolding get_or_link_svm_account
  get_or_link_svm_account-Links ticks net after k svm amount key response e =
      elim (answers (get_svm_account_link node wallet net (wallet.address (wallet.pub_key k)))) [
        | inl (none, l) ↦
            let e₁ = rw l at e in
            elim (answers (link_tx node wallet net k svm amount)) [
              | inl (bytes, b) ↦
                  let e₂ = rw b at e₁ in
                  let sent = sync_broadcast_signed_tx node wallet ticks net bytes in
                  elim (answers sent.1) [
                    | inl (r, s) ↦
                        let e₃ = rw s at e₂ in
                        let (same, own, given) = parts sent.0 after _ key _ response e₃ in
                        inr (
                          bytes,
                          r,
                          link_tx-IsLinkTx net k svm amount bytes b,
                          l,
                          own,
                          sym given,
                          ap (λ x. (sent.0, x)) s ∙ ap (λ x. (x, ok r)) same,
                        )
                    | inr (inl (x, s)) ↦ let e₃ = rw s at e₂ in absurd (refused sent.0 after x _ e₃)
                    | inr (inr s) ↦ let e₃ = rw s at e₂ in absurd (crashed sent.0 after _ e₃)
                  ]
              | inr (inl (x, b)) ↦ let e₂ = rw b at e₁ in absurd (refused net after x _ e₂)
              | inr (inr b) ↦ let e₂ = rw b at e₁ in absurd (crashed net after _ e₂)
            ]
        | inl (some found, l) ↦
            let e₁ = rw l at e in
            let (same, own, given) = parts net after found key none response e₁ in
            inl (l ∙ ap (λ x. ok (some x)) own, sym given, same)
        | inr (inl (x, l)) ↦ let e₁ = rw l at e in absurd (refused net after x _ e₁)
        | inr (inr l) ↦ let e₁ = rw l at e in absurd (crashed net after _ e₁)
      ]
