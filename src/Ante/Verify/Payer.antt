-- ===== src/Ante/Verify/Payer.antt =====
-- The account that DeductFeeDecorator charges for a web3 transaction, and the signature that
-- Eip712SigVerificationDecorator has seen of it. In ante.go both decorators stand in one chain, the fee first.
use flux_sdk_go.Common.{
  ◌≡◌, refl, sym, ap, ◌∙◌, ◌≢◌, true, false, some, List, [], ◌∷◌, Result, ok, >>-eq-ok,
  or_err-eq-ok, some-injective, reject_if, Bytes, map, arith,
}
use mathlib.Core.Path.{subst}
use mathlib.Core.Option
use flux_sdk_go.Ante.Fee
use flux_sdk_go.Ante.Fee.{FeeTx, Bank, deduct_fee_handle}
use flux_sdk_go.Ante.Fee.Laws.{
  Pays, delegated, own_plain, own_empty, own_unnamed, own_other, IsCharged, deduct_fee_handle-Pays,
}
use flux_sdk_go.Ante.Verify.{
  Error, invalid_fee_payer, no_fee_payer_sig, is_empty, Web3, Extension, broken, other, web3,
  Signature, Tx, Chain, Options, read_web3, read_extension, eip712_handle,
}
use flux_sdk_go.Ante.Verify.Laws.{IsPaid, IsAuthorized, AllAuthorized}
use flux_sdk_go.Ante.Verify.Signers.{eip712_handle-AreSigned}

-- What the fee's decorator reads of an extension option.
abbrev pub fee_extension : Extension → Fee.Extension
fee_extension broken = Fee.Extension.broken
fee_extension other = Fee.Extension.other
fee_extension (web3 w) = Fee.Extension.web3 w.fee_payer

abbrev pub fee_tx : {Body Coins : Type 0} → Tx Body → Bytes → Coins → FeeTx Coins
fee_tx tx own fee = record {
  is_fee_tx = true;
  extension_options = Option.map (map fee_extension) tx.extension_options;
  fee_payer = own;
  fee = fee;
}

module _ {Ctx Body : Type 0} (chain : Chain Ctx Body) where
  read_web3-payer :
      (w : Web3) (options : Options)
      → w.fee_payer ≢ []
      → read_web3 chain w ≡ ok options
      → (payer : Bytes) × (chain.acc_address_from_bech32 w.fee_payer ≡ some payer)
        × (options.payer ≡ some (payer, w.fee_payer_sig))
  unfolding read_web3
  read_web3-payer w options named e =
      let given : is_empty w.fee_payer ≡ false = not_empty w.fee_payer named in
      let e₀ = rw given at e in
      let (payer, parsed, e₁) =
        or_err-eq-ok (chain.acc_address_from_bech32 w.fee_payer) invalid_fee_payer _ e₀ in
      let (_, e₂) = >>-eq-ok (reject_if (is_empty w.fee_payer_sig) no_fee_payer_sig) _ e₁ in
      (payer, parsed, ground arith)
    where
      not_empty : (s : Bytes) → s ≢ [] → is_empty s ≡ false
      not_empty [] h = absurd (h refl)
      not_empty (c ∷ s) h = refl

  -- The payer that an option names has signed what the signer of each signature has.
  IsSigned-paid :
      (tx : Tx Body) (w : Web3) (rest : List Extension) (options : Options) (hash : Bytes)
      → tx.extension_options ≡ some (web3 w ∷ rest)
      → w.fee_payer ≢ []
      → read_extension chain tx.extension_options ≡ ok options
      → IsPaid chain options.payer hash
      → (payer : Bytes) × (chain.acc_address_from_bech32 w.fee_payer ≡ some payer)
        × (chain.recover_address hash w.fee_payer_sig ≡ some payer)
  unfolding read_extension
  IsSigned-paid tx w rest options hash o named read paid =
      let read' = rw o at read in
      let (payer, parsed, e) = read_web3-payer w options named read' in
      (payer, parsed, subst (λ p. IsPaid chain p hash) e paid)

first_of : (x y : Signature) (xs ys : List Signature) → some (x ∷ xs) ≡ some (y ∷ ys) → x ≡ y
first_of x y xs ys e = ground arith

-- Whom an option names, there is no other payer.
Pays-web3 :
    {Ctx Coins : Type 0} (bank : Bank Ctx Coins) (tx : FeeTx Coins) (u : Bytes)
    (r : List Fee.Extension) {payer : Bytes}
    → tx.extension_options ≡ some (Fee.Extension.web3 u ∷ r)
    → u ≢ []
    → Pays bank tx payer
    → bank.acc_address_from_bech32 u ≡ some payer
Pays-web3 bank tx u r e n (delegated {c} {s} l parsed) =
    let options = sym e ∙ l in
    let same : u ≡ c ∷ s = ground arith in ap bank.acc_address_from_bech32 same ∙ parsed
Pays-web3 bank tx u r e n (own_plain l) = cc
Pays-web3 bank tx u r e n (own_empty l) = cc
Pays-web3 bank tx u r e n (own_unnamed l) = absurd (ground arith)
Pays-web3 bank tx u r e n (own_other l) = cc

module _ {Ctx Body Coins : Type 0} (chain : Chain Ctx Body) (bank : Bank Ctx Coins) where
  -- Where the first option of a transaction names a payer of its fee, both decorators let the transaction
  -- through, and they parse addresses alike, the account that is charged has signed: the fee is taken from the
  -- account of the payer that the option names, and the option's signature of the hash that the first signer
  -- has signed recovers to that payer.
  pub payer-IsSigned :
      (tx : Tx Body) (w : Web3) (rest : List Extension) (s : Signature) (sigs : List Signature)
      (own : Bytes) (fee : Coins) (fee_next : Ctx → Result Fee.Error Ctx)
      (sig_next : Ctx → Result Error Ctx) (ctx out ctx' out' : Ctx)
      → ((a : Bytes) → bank.acc_address_from_bech32 a ≡ chain.acc_address_from_bech32 a)
      → tx.extension_options ≡ some (web3 w ∷ rest)
      → w.fee_payer ≢ []
      → tx.signatures ≡ some (s ∷ sigs)
      → deduct_fee_handle bank (fee_tx tx own fee) fee_next ctx ≡ ok out
      → chain.is_recheck ctx' ≡ false
      → eip712_handle chain tx false sig_next ctx' ≡ ok out'
      → (payer : Bytes) × (account : Bytes) × (after : Ctx) × (signer : Bytes) × (h : IsAuthorized
          chain ctx' tx s signer)
        × (bank.acc_address_from_bech32 w.fee_payer ≡ some payer)
        × (bank.get_account ctx payer ≡ some account)
        × IsCharged bank ctx account fee after
        × (chain.recover_address h.signed.hash w.fee_payer_sig ≡ some payer)
  payer-IsSigned tx w rest s sigs own fee fee_next sig_next ctx out ctx' out' alike o named given
        charged fresh checked =
      let (payer, account, after, pays, found, taken, _) =
        deduct_fee_handle-Pays bank (fee_tx tx own fee) fee_next ctx out charged in
      let e = ap (Option.map (map fee_extension)) o in
      let parsed =
        Pays-web3 bank (fee_tx tx own fee) w.fee_payer (map fee_extension rest) e named pays in
      let (all_sigs, signers, _, given', _, _, all) =
        ((eip712_handle-AreSigned chain tx sig_next ctx' out' fresh).0 checked).0 in
      let (signer, h) = first_signer all_sigs signers (sym given' ∙ given) all in
      let (payer', parsed', recovered) =
        IsSigned-paid chain tx w rest h.signed.options h.signed.hash o named h.signed.read
          h.signed.paid in
      let one = sym parsed' ∙ (sym (alike w.fee_payer) ∙ parsed) in
      let same = some-injective one in
      (payer, account, after, signer, h, parsed, found, taken, recovered ∙ ap some same)
    where
      first_signer :
          (all_sigs : List Signature) (signers : List Bytes)
          → some all_sigs ≡ some (s ∷ sigs)
          → AllAuthorized chain ctx' tx all_sigs signers
          → (signer : Bytes) × IsAuthorized chain ctx' tx s signer
      first_signer [] signers e all = cc
      first_signer (s' ∷ more) [] e all = absurd all
      first_signer (s' ∷ more) (a ∷ signers) e all =
          let same = first_of s' s more sigs e in
          (a, subst (λ (x : Signature). IsAuthorized chain ctx' tx x a) same all.0)
