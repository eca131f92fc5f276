-- ===== src/Client/Sign/Laws.antt =====
-- What a transaction that is built has been signed with.
use flux_sdk_go.Common.{
  ℕ, ◌*◌, ◌%◌, ◌^◌, ◌≡◌, refl, sym, ap, ◌∙◌, true, List, [], ◌∷◌, Result, ok, err, panic, >>=-eq-ok,
  Bytes, String, map, arith,
}
use mathlib.Core.Path.{subst}
use flux_sdk_go.Client.{Node}
use flux_sdk_go.Client.Broadcast.{wrapped}
use flux_sdk_go.Client.Sign.{
  SignatureV2, SignedTx, Wallet, must, signer_info, find_accounts, placeholders, draft, sign_doc,
  sign_all, build_signed_tx,
}

must-eq-ok : {A : Type 0} (r : Result Bytes A) (a : A) → must r ≡ ok a → r ≡ ok a
must-eq-ok (ok b) a e = e
must-eq-ok (err x) a e = cc
must-eq-ok panic a e = cc

pub wrapped-eq-ok :
    {A : Type 0} (text : String) (r : Result Bytes A) (a : A) → wrapped text r ≡ ok a → r ≡ ok a
wrapped-eq-ok text (ok b) a e = e
wrapped-eq-ok text (err x) a e = cc
wrapped-eq-ok text panic a e = cc

module _ {Net Priv SvmPriv Msg Tx : Type 0} (node : Node Net Msg Tx)
    (wallet : Wallet Net Priv SvmPriv Msg) where
  -- A signature is the signature, by the key, of the transaction's own sign bytes, for the number and the sequence that
  -- the key's account has on the chain.
  pub record IsSignedBy (net : Net) (tx : SignedTx Msg) (k : Priv) (s : SignatureV2) : Type 0 where
    pub number : ℕ
    pub bytes : Bytes
    pub found :
        wallet.get_account_number_sequence net (wallet.address (wallet.pub_key k))
        ≡ ok (number, s.sequence)
    pub keyed : s.pub_key ≡ wallet.pub_key k
    pub serialized : wallet.sign_bytes (sign_doc node wallet tx k number s.sequence) ≡ ok bytes
    pub verified : wallet.verify (wallet.pub_key k) bytes s.signature ≡ true

  -- Each of the signers, in order, has signed.
  abbrev pub AllSigned : Net → SignedTx Msg → List Priv → List SignatureV2 → Type 0
  AllSigned net tx [] [] = Unit {0}
  AllSigned net tx (k ∷ keys) (s ∷ sigs) = IsSignedBy net tx k s × AllSigned net tx keys sigs
  AllSigned net tx _ _ = ⊥

  sign_all-AllSigned :
      (net : Net) (tx : SignedTx Msg) (keys : List Priv) (accounts : List (ℕ × ℕ))
      (sigs : List SignatureV2)
      → find_accounts node wallet net keys ≡ ok accounts
      → sign_all node wallet tx keys accounts ≡ ok sigs
      → AllSigned net tx keys sigs
        × (map signer_info sigs ≡ map signer_info (placeholders node wallet keys accounts))
  unfolding find_accounts sign_all placeholders
  sign_all-AllSigned net tx [] accounts sigs f e =
      let none_signed : [] ≡ sigs = ground arith in
      subst
        (λ x.
          AllSigned net tx [] x
          × (map signer_info x ≡ map signer_info (placeholders node wallet [] accounts)))
        none_signed (tt, refl)
  sign_all-AllSigned net tx (k ∷ keys) accounts sigs f e =
      let (account, found, f₁) =
        >>=-eq-ok
          (wrapped "get acc number err"
            (wallet.get_account_number_sequence net (wallet.address (wallet.pub_key k))))
          _ f in
      let (rest, others, f₂) = >>=-eq-ok (find_accounts node wallet net keys) _ f₁ in
      let listed : account ∷ rest ≡ accounts = ground arith in
      let e₀ = subst (λ x. sign_all node wallet tx (k ∷ keys) x ≡ ok sigs) (sym listed) e in
      let (bytes, serialized, e₁) =
        >>=-eq-ok (must (wallet.sign_bytes (sign_doc node wallet tx k account.0 account.1))) _ e₀ in
      let (made, signed, e₂) = >>=-eq-ok (must (wallet.sign k bytes)) _ e₁ in
      let (more, all, e₃) = >>=-eq-ok (sign_all node wallet tx keys rest) _ e₂ in
      let (later, infos) = sign_all-AllSigned net tx keys rest more others all in
      let this : SignatureV2 = record {
        pub_key = wallet.pub_key k;
        signature = made;
        sequence = account.1;
      } in
      let made_sigs : this ∷ more ≡ sigs = ground arith in
      subst
        (λ x.
          AllSigned net tx (k ∷ keys) x
          × (map signer_info x ≡ map signer_info (placeholders node wallet (k ∷ keys) accounts)))
        made_sigs
        (
          (
            record {
              number = account.0;
              bytes = bytes;
              found = wrapped-eq-ok "get acc number err" _ _ found;
              keyed = refl;
              serialized = must-eq-ok _ _ serialized;
              verified = wallet.sign-verify k bytes made (must-eq-ok _ _ signed);
            },
            later,
          ),
          ap (λ x. (wallet.pub_key k, account.1) ∷ x) infos
              ∙ ap (λ a. map signer_info (placeholders node wallet (k ∷ keys) a)) listed,
        )

  -- The node has run the transaction with the same signers before they signed. The gas is twice what it used, as a
  -- uint64, the fee is 500000000 lux a unit of gas, and each of the keys has signed in its turn.
  pub record IsBuilt (net : Net) (msgs : List Msg) (keys : List Priv) (tx : SignedTx Msg)
      : Type 0 where
    pub before : List SignatureV2
    pub same_signers : map signer_info tx.signatures ≡ map signer_info before
    pub draft_bytes : Bytes
    pub encoded : wallet.encode (draft node wallet msgs before 0 0) ≡ ok draft_bytes
    pub used : ℕ
    pub simulated : node.simulate net draft_bytes ≡ ok used
    pub carries : tx.msgs ≡ msgs
    pub gas : tx.gas_limit ≡ used * 2 % 2 ^ 64
    pub priced : tx.fee ≡ tx.gas_limit * 500000000
    pub signed : AllSigned net tx keys tx.signatures

  -- What a signer signs depends on the other signatures by their keys and sequences alone.
  AllSigned-infos :
      (net : Net) (msgs : List Msg) (gas fee : ℕ) (before after : List SignatureV2)
      (keys : List Priv) (sigs : List SignatureV2)
      → map signer_info after ≡ map signer_info before
      → AllSigned net (draft node wallet msgs before gas fee) keys sigs
      → AllSigned net (draft node wallet msgs after gas fee) keys sigs
  AllSigned-infos net msgs gas fee before after [] [] e h = tt
  AllSigned-infos net msgs gas fee before after [] (s ∷ sigs) e h = absurd h
  AllSigned-infos net msgs gas fee before after (k ∷ keys) [] e h = absurd h
  AllSigned-infos net msgs gas fee before after (k ∷ keys) (s ∷ sigs) e h = (
    record {
      number = h.0.number;
      bytes = h.0.bytes;
      found = h.0.found;
      keyed = h.0.keyed;
      serialized =
          subst
            (λ infos.
              wallet.sign_bytes (record {
                msgs = msgs;
                timeout_height = 19000000;
                signer_infos = infos;
                gas_limit = gas;
                fee = fee;
                address = wallet.address_text (wallet.address (wallet.pub_key k));
                account_number = h.0.number;
                sequence = s.sequence;
              })
              ≡ ok h.0.bytes)
            (sym e) h.0.serialized;
      verified = h.0.verified;
    },
    AllSigned-infos net msgs gas fee before after keys sigs e h.1,
  )

  pub build_signed_tx-IsBuilt :
      (net : Net) (msgs : List Msg) (keys : List Priv) (tx : SignedTx Msg)
      → build_signed_tx node wallet net msgs keys ≡ ok tx
      → IsBuilt net msgs keys tx
  unfolding build_signed_tx
  build_signed_tx-IsBuilt net msgs keys tx e =
      let (accounts, found, e₁) = >>=-eq-ok (find_accounts node wallet net keys) _ e in
      let before = placeholders node wallet keys accounts in
      let (bz, encoded, e₂) =
        >>=-eq-ok (wrapped "encode tx err" (wallet.encode (draft node wallet msgs before 0 0))) _
          e₁ in
      let (used, ran, e₃) = >>=-eq-ok (wrapped "encode tx err" (node.simulate net bz)) _ e₂ in
      let gas = used * 2 % 2 ^ 64 in
      let (sigs, signed, e₄) =
        >>=-eq-ok
          (sign_all node wallet (draft node wallet msgs before gas (gas * 500000000)) keys accounts)
          _ e₃ in
      let (all, infos) =
        sign_all-AllSigned net (draft node wallet msgs before gas (gas * 500000000)) keys accounts
          sigs found signed in
      let all' = AllSigned-infos net msgs gas (gas * 500000000) before sigs keys sigs infos all in
      let made : draft node wallet msgs sigs gas (gas * 500000000) ≡ tx = ground arith in
      subst (IsBuilt net msgs keys) made (record {
        before = before;
        same_signers = infos;
        draft_bytes = bz;
        encoded = wrapped-eq-ok "encode tx err" _ _ encoded;
        used = used;
        simulated = wrapped-eq-ok "encode tx err" _ _ ran;
        carries = refl;
        gas = refl;
        priced = refl;
        signed = all';
      })
