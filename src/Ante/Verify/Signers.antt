-- ===== src/Ante/Verify/Signers.antt =====
-- The transactions that Eip712SigVerificationDecorator lets through.
use flux_sdk_go.Common.{
  ◌≡◌, refl, sym, ap, ◌↔◌, true, false, not, ◌&&◌, Option, none, some, List, [], ◌∷◌, Result, ok,
  err, panic, >>-eq-ok, or_err-eq-ok, reject_if, Bytes, length, is_some, ==_iff, ◌==◌, arith,
}
use mathlib.Core.Path.{subst}
use flux_sdk_go.Ante.Verify.{
  Error, unknown_account, no_pub_key, wrong_sequence, unauthorized, invalid_transaction,
  no_signatures, no_signers, wrong_number, SignatureData, single, multi, Signature, Tx, SignerData,
  Chain, wrap_err, verify_signature_eip712, signed_hash, signer_data, key_or_empty, check_signature,
  check_signatures, eip712_handle,
}
use flux_sdk_go.Ante.Verify.Laws.{
  IsSigned, IsAuthorized, AllAuthorized, verify_signature_eip712-IsSigned, check_fee_payer_iff,
}

wrap_err-unauthorized : (r : Result Error (Unit {0})) → wrap_err unauthorized r ≡ ok tt → r ≡ ok tt
wrap_err-unauthorized (ok tt) h = refl
wrap_err-unauthorized (err e) h = cc
wrap_err-unauthorized panic h = cc

is_some-key : (k : Option Bytes) → is_some k ≡ true → (key : Bytes) × (k ≡ some key)
is_some-key none e = cc
is_some-key (some key) e = (key, refl)

module _ {Ctx Body : Type 0} (chain : Chain Ctx Body) where
  IsSigned-verify_signature_eip712 :
      (key : Bytes) (signer : SignerData) (sig : Bytes) (tx : Tx Body)
      → IsSigned chain key signer tx sig
      → verify_signature_eip712 chain key signer (single true sig) tx ≡ ok tt
  unfolding verify_signature_eip712 signed_hash
  IsSigned-verify_signature_eip712 key signer sig tx h =
      rw
        (
          h.serialized,
          h.read,
          h.typed,
          h.first,
          h.wrapped,
          h.hashed,
          (check_fee_payer_iff chain h.options.payer h.hash).1 h.paid,
          (==_iff (length sig) 65).1 h.sized,
          h.verified,
        )
        refl

  -- Only a single signature of the legacy amino mode passes.
  verified-IsSigned :
      (key : Bytes) (signer : SignerData) (d : SignatureData) (tx : Tx Body)
      → verify_signature_eip712 chain key signer d tx ≡ ok tt
      → (sig : Bytes) × (d ≡ single true sig) × IsSigned chain key signer tx sig
  unfolding verify_signature_eip712
  verified-IsSigned key signer multi tx e = cc
  verified-IsSigned key signer (single amino sig) tx e =
      let (mode, signed) = verify_signature_eip712-IsSigned chain key signer amino sig tx e in
      (sig, ap (λ b. single b sig) mode, signed)

  check_signature-IsAuthorized :
      (ctx : Ctx) (tx : Tx Body) (s : Signature) (signer : Bytes)
      → check_signature chain ctx false tx s signer ≡ ok tt
      → IsAuthorized chain ctx tx s signer
  unfolding check_signature
  check_signature-IsAuthorized ctx tx s signer e =
      let (account, found, e₁) =
        or_err-eq-ok (chain.get_signer_acc ctx signer) unknown_account _ e in
      let (e₂, e₃) =
        >>-eq-ok (reject_if (not false && not (is_some account.pub_key)) no_pub_key) _ e₁ in
      let (e₄, e₅) =
        >>-eq-ok (reject_if (not (s.sequence == account.sequence)) wrong_sequence) _ e₃ in
      let (key, keyed) = is_some-key account.pub_key (ground arith) in
      let passed = wrap_err-unauthorized _ e₅ in
      let (sig, amino, signed) = verified-IsSigned key (signer_data chain ctx account) s.sig tx (
        subst
          (λ (k : Option Bytes).
            verify_signature_eip712 chain (key_or_empty k) (signer_data chain ctx account) s.sig tx
            ≡ ok tt)
          keyed passed) in
      record {
        account = account;
        key = key;
        sig = sig;
        found = found;
        keyed = keyed;
        sequenced = ground arith;
        amino = amino;
        signed = signed;
      }

  IsAuthorized-check_signature :
      (ctx : Ctx) (tx : Tx Body) (s : Signature) (signer : Bytes)
      → IsAuthorized chain ctx tx s signer
      → check_signature chain ctx false tx s signer ≡ ok tt
  unfolding check_signature
  IsAuthorized-check_signature ctx tx s signer h =
      let passed = IsSigned-verify_signature_eip712 h.key _ h.sig tx h.signed in
      let at_key =
        subst
          (λ (k : Option Bytes).
            verify_signature_eip712 chain (key_or_empty k) (signer_data chain ctx h.account)
              (single true h.sig) tx
            ≡ ok tt)
          (sym h.keyed) passed in
      let same = (==_iff s.sequence h.account.sequence).1 h.sequenced in
      simp (h.found, same, h.amino, at_key) (rw h.keyed refl)

  check_signatures_iff :
      (ctx : Ctx) (tx : Tx Body) (sigs : List Signature) (signers : List Bytes)
      → length sigs ≡ length signers
      → (check_signatures chain ctx false tx sigs signers ≡ ok tt)
        ↔ AllAuthorized chain ctx tx sigs signers
  unfolding check_signatures
  check_signatures_iff ctx tx [] [] l = (λ e. tt, λ h. refl)
  check_signatures_iff ctx tx [] (a ∷ signers) l = cc
  check_signatures_iff ctx tx (s ∷ sigs) [] l = cc
  check_signatures_iff ctx tx (s ∷ sigs) (a ∷ signers) l =
      let rest = check_signatures_iff ctx tx sigs signers (omega (arith, l)) in
      (
        λ e.
            let (e₁, e₂) = >>-eq-ok (check_signature chain ctx false tx s a) _ e in
            (check_signature-IsAuthorized ctx tx s a e₁, rest.0 e₂),
        λ h. rw (IsAuthorized-check_signature ctx tx s a h.0) (rest.1 h.1),
      )

  -- What the decorator wants of a transaction that it sees for the first time.
  abbrev pub AreSigned : Ctx → Tx Body → Type 0
  AreSigned ctx tx =
      (sigs : List Signature) × (signers : List Bytes) × (tx.is_sig_verifiable ≡ true)
      × (tx.signatures ≡ some sigs)
      × (tx.signers ≡ some signers)
      × (length sigs ≡ length signers)
      × AllAuthorized chain ctx tx sigs signers

  -- Where Eip712SigVerificationDecorator checks a transaction, which is neither simulated nor checked again, the
  -- rest of the ante handler is reached exactly when each of the signers, in order, has one single signature of the
  -- amino mode: its sequence is that of the signer's account, and it is 65 bytes of which the first 64
  -- are a signature, by the account's key, of the EIP-712 hash of the transaction's sign bytes. Where the first
  -- extension option names a payer of the fee, that payer has signed the same hash.
  pub eip712_handle-AreSigned :
      (tx : Tx Body) (next : Ctx → Result Error Ctx) (ctx out : Ctx)
      → chain.is_recheck ctx ≡ false
      → (eip712_handle chain tx false next ctx ≡ ok out) ↔ (AreSigned ctx tx × (next ctx ≡ ok out))
  unfolding eip712_handle
  eip712_handle-AreSigned tx next ctx out fresh = rw fresh (
    λ e.
        let (e₀, e₁) = >>-eq-ok (reject_if (not tx.is_sig_verifiable) invalid_transaction) _ e in
        let (sigs, signed, e₂) = or_err-eq-ok tx.signatures no_signatures _ e₁ in
        let (signers, named, e₃) = or_err-eq-ok tx.signers no_signers _ e₂ in
        let (e₄, e₅) =
          >>-eq-ok (reject_if (not (length sigs == length signers)) wrong_number) _ e₃ in
        let (e₆, e₇) = >>-eq-ok (check_signatures chain ctx false tx sigs signers) _ e₅ in
        let same : length sigs ≡ length signers = ground arith in
        (
          (
            sigs,
            signers,
            ground arith,
            signed,
            named,
            same,
            (check_signatures_iff ctx tx sigs signers same).0 e₆,
          ),
          e₇,
        ),
    λ ((sigs, signers, sig_tx, signed, named, same, all), rest).
        let counted = (==_iff (length sigs) (length signers)).1 same in
        let passed = (check_signatures_iff ctx tx sigs signers same).1 all in
        simp (sig_tx, signed, named, counted, passed) rest,
  )
