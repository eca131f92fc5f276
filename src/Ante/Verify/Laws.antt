-- ===== src/Ante/Verify/Laws.antt =====
-- Whose signatures a web3 transaction carries.
use flux_sdk_go.Common.{
  ◌≡◌, refl, ◌↔◌, ◌∙◌, ap, Bool, true, not, Option, none, some, List, [], ◌∷◌, Result, ok, err,
  panic, ◌>>=◌, >>-eq-ok, >>=-eq-ok, or_err-eq-ok, or_panic-eq-ok, reject_if, Bytes, bytes_eq_iff,
  length, take, get_elem?, ◌==◌, ℕ, arith,
}
use flux_sdk_go.TypedData.{TypedMessage}
use flux_sdk_go.TypedData.Encode.{compute_typed_data_hash}
use flux_sdk_go.Ante.Wrap.{Value}
use flux_sdk_go.Ante.Wrap.Pack.{wrap_tx_to_eip712}
use flux_sdk_go.Ante.Verify.{
  Error, cannot_wrap, cannot_hash, cannot_recover, no_sign_bytes, wrong_sign_mode,
  wrong_signature_length, single, Signature, Tx, Account, SignerData, Chain, Options, wrap_err,
  read_extension, payer_text, check_fee_payer, signed_hash, typed_chain, verify_signature_eip712,
  signer_data,
}

wrap_err-eq-ok {ℓ κ μ} :
    {E : Type ℓ} {A : Type κ} {B : Type μ} (e : Error) (call : Result E A) (f : A → Result Error B)
    {b : B}
    → (wrap_err e call >>= f) ≡ ok b
    → (a : A) × (call ≡ ok a) × (f a ≡ ok b)
wrap_err-eq-ok e (ok a) f h = (a, refl, h)
wrap_err-eq-ok e (err x) f h = cc
wrap_err-eq-ok e panic f h = cc

module _ {Ctx Body : Type 0} (chain : Chain Ctx Body) where
  -- The account that pays a delegated fee has signed the hash.
  abbrev pub IsPaid : Option (Bytes × Bytes) → Bytes → Type 0
  IsPaid none hash = Unit {0}
  IsPaid (some (payer, sig)) hash = chain.recover_address hash sig ≡ some payer

  -- What a signature of a transaction is: 65 bytes, of which the first 64 are a signature by the key of the hash of
  -- the transaction's typed data; and the payer that an option names has signed the same hash.
  pub record IsSigned (key : Bytes) (signer : SignerData) (tx : Tx Body) (sig : Bytes)
      : Type 0 where
    pub bytes : Bytes
    pub options : Options
    pub chain_id : ℕ
    pub message : Value
    pub typed_data : TypedMessage
    pub hash : Bytes
    pub serialized : chain.get_sign_bytes signer tx.body ≡ some bytes
    pub read : read_extension chain tx.extension_options ≡ ok options
    pub typed : typed_chain chain signer options.chain ≡ ok chain_id
    pub first : get_elem? tx.msgs 0 ≡ some message
    pub wrapped :
        wrap_tx_to_eip712 chain.unmarshal chain_id message bytes (payer_text chain options.payer)
        ≡ ok typed_data
    pub hashed : compute_typed_data_hash chain.eth chain.upper_rune typed_data ≡ ok hash
    pub paid : IsPaid options.payer hash
    pub sized : length sig ≡ 65
    pub verified : chain.verify_signature key hash (take 64 sig) ≡ true

  pub check_fee_payer_iff :
      (payer : Option (Bytes × Bytes)) (hash : Bytes)
      → (check_fee_payer chain payer hash ≡ ok tt) ↔ IsPaid payer hash
  unfolding check_fee_payer
  check_fee_payer_iff none hash = (λ e. tt, λ h. refl)
  check_fee_payer_iff (some (payer, sig)) hash = (
    λ e.
        let (found, recovered, same) =
          or_err-eq-ok (chain.recover_address hash sig) cannot_recover _ e in
        recovered ∙ ap some ((bytes_eq_iff found payer).0 (ground arith)),
    λ h. rw (h, (bytes_eq_iff payer payer).1 refl) refl,
  )

  pub verify_signature_eip712-IsSigned :
      (key : Bytes) (signer : SignerData) (amino : Bool) (sig : Bytes) (tx : Tx Body)
      → verify_signature_eip712 chain key signer (single amino sig) tx ≡ ok tt
      → (amino ≡ true) × IsSigned key signer tx sig
  unfolding verify_signature_eip712 signed_hash
  verify_signature_eip712-IsSigned key signer amino sig tx e =
      let (e₀, e₁) = >>-eq-ok (reject_if (not amino) wrong_sign_mode) _ e in
      let (bytes, serialized, e₂) =
        or_err-eq-ok (chain.get_sign_bytes signer tx.body) no_sign_bytes _ e₁ in
      let (options, read, e₃) = >>=-eq-ok (read_extension chain tx.extension_options) _ e₂ in
      let (chain_id, typed, e₄) = >>=-eq-ok (typed_chain chain signer options.chain) _ e₃ in
      let (hash, computed, e₅) =
        >>=-eq-ok (signed_hash chain chain_id tx bytes options.payer) _ e₄ in
      let (e₆, e₇) = >>-eq-ok (check_fee_payer chain options.payer hash) _ e₅ in
      let (e₈, e₉) = >>-eq-ok (reject_if (not (length sig == 65)) wrong_signature_length) _ e₇ in
      let (message, first, c₁) = or_panic-eq-ok (get_elem? tx.msgs 0) _ computed in
      let (typed_data, wrapped, c₂) =
        wrap_err-eq-ok cannot_wrap
          (wrap_tx_to_eip712 chain.unmarshal chain_id message bytes
            (payer_text chain options.payer))
          _ c₁ in
      (
        ground arith,
        record {
          bytes = bytes;
          options = options;
          chain_id = chain_id;
          message = message;
          typed_data = typed_data;
          hash = hash;
          serialized = serialized;
          read = read;
          typed = typed;
          first = first;
          wrapped = wrapped;
          hashed = hash_of typed_data hash c₂;
          paid = (check_fee_payer_iff options.payer hash).0 e₆;
          sized = ground arith;
          verified = ground arith;
        },
      )
    where
      hash_of :
          (td : TypedMessage) (hash : Bytes)
          → wrap_err cannot_hash (compute_typed_data_hash chain.eth chain.upper_rune td) ≡ ok hash
          → compute_typed_data_hash chain.eth chain.upper_rune td ≡ ok hash
      hash_of td hash h = ground arith

  -- A signature that counts for a signer: the account is there, the sequence is the account's, and the key of the
  -- account has signed.
  pub record IsAuthorized (ctx : Ctx) (tx : Tx Body) (s : Signature) (signer : Bytes) : Type 0 where
    pub account : Account
    pub key : Bytes
    pub sig : Bytes
    pub found : chain.get_signer_acc ctx signer ≡ some account
    pub keyed : account.pub_key ≡ some key
    pub sequenced : s.sequence ≡ account.sequence
    pub amino : s.sig ≡ single true sig
    pub signed : IsSigned key (signer_data chain ctx account) tx sig

  -- Each signer has one signature, in their order.
  abbrev pub AllAuthorized : Ctx → Tx Body → List Signature → List Bytes → Type 0
  AllAuthorized ctx tx [] [] = Unit {0}
  AllAuthorized ctx tx (s ∷ sigs) (a ∷ signers) =
      IsAuthorized ctx tx s a × AllAuthorized ctx tx sigs signers
  AllAuthorized ctx tx _ _ = ⊥
