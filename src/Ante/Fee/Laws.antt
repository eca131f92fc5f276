-- ===== src/Ante/Fee/Laws.antt =====
-- Who pays the fee.
use flux_sdk_go.Common.{
  ℕ, ◌≡◌, refl, ◌⊎◌, inl, inr, true, false, not, Option, none, some, List, [], ◌∷◌, Result, ok,
  panic, >>-eq-ok, >>=-eq-ok, or_err-eq-ok, reject_if, Bytes, or_else, if◌then◌else◌, Bool-cases,
  Option-cases, ap, ◌∙◌, arith,
}
use mathlib.Core.Path.{subst}
use flux_sdk_go.Ante.Fee.{
  Error, not_a_fee_tx, invalid_fee_payer, unknown_payer, Extension, broken, web3, other, FeeTx,
  Bank, extension_payer, delegated_payer, deduct_fees, deduct_fee_handle,
}

module _ {Ctx Coins : Type 0} (bank : Bank Ctx Coins) where
  -- The payer of a transaction: the address that a web3 extension names in its first option, or else the
  -- transaction's own fee payer.
  pub data Pays (tx : FeeTx Coins) : Bytes → Type 0 where
    delegated :
        {c : ℕ} {s payer : Bytes} {rest : List Extension}
        → tx.extension_options ≡ some (web3 (c ∷ s) ∷ rest)
        → bank.acc_address_from_bech32 (c ∷ s) ≡ some payer
        → Pays tx payer
    own_plain : tx.extension_options ≡ none → Pays tx tx.fee_payer
    own_empty : tx.extension_options ≡ some [] → Pays tx tx.fee_payer
    own_unnamed :
        {rest : List Extension}
        → tx.extension_options ≡ some (web3 [] ∷ rest)
        → Pays tx tx.fee_payer
    own_other :
        {rest : List Extension} → tx.extension_options ≡ some (other ∷ rest) → Pays tx tx.fee_payer

  extension_payer-Pays :
      (tx : FeeTx Coins) (o : Extension) (rest : List Extension) (d : Option Bytes)
      → tx.extension_options ≡ some (o ∷ rest)
      → extension_payer bank o ≡ ok d
      → Pays tx (or_else d tx.fee_payer)
  unfolding extension_payer
  extension_payer-Pays tx broken rest d l e = cc
  extension_payer-Pays tx other rest d l e =
      let same : none ≡ d = ground arith in
      subst (λ d. Pays tx (or_else d tx.fee_payer)) same (own_other l)
  extension_payer-Pays tx (web3 []) rest d l e =
      let same : none ≡ d = ground arith in
      subst (λ d. Pays tx (or_else d tx.fee_payer)) same (own_unnamed l)
  extension_payer-Pays tx (web3 (c ∷ s)) rest d l e =
      let (payer, parsed, r) =
        or_err-eq-ok (bank.acc_address_from_bech32 (c ∷ s)) invalid_fee_payer _ e in
      let same : some payer ≡ d = ground arith in
      subst (λ d. Pays tx (or_else d tx.fee_payer)) same (delegated l parsed)

  delegated_payer-Pays :
      (tx : FeeTx Coins) (o : Option (List Extension)) (d : Option Bytes)
      → tx.extension_options ≡ o
      → delegated_payer bank o ≡ ok d
      → Pays tx (or_else d tx.fee_payer)
  unfolding delegated_payer
  delegated_payer-Pays tx none d l e =
      let same : none ≡ d = ground arith in
      subst (λ d. Pays tx (or_else d tx.fee_payer)) same (own_plain l)
  delegated_payer-Pays tx (some []) d l e =
      let same : none ≡ d = ground arith in
      subst (λ d. Pays tx (or_else d tx.fee_payer)) same (own_empty l)
  delegated_payer-Pays tx (some (o ∷ rest)) d l e = extension_payer-Pays tx o rest d l e

  -- The context after the fee: unchanged for no fee, and otherwise what the bank made of it.
  abbrev pub IsCharged : Ctx → Bytes → Coins → Ctx → Type 0
  IsCharged ctx account fee after =
      ((bank.is_zero fee ≡ true) × (ctx ≡ after))
      ⊎ ((bank.is_zero fee ≡ false)
          × (bank.is_valid fee ≡ true)
          × (bank.send_to_fee_collector ctx account fee ≡ some after))

  charge-IsCharged :
      (ctx after : Ctx) (account : Bytes) (fee : Coins)
      → (if bank.is_zero fee then ok ctx else deduct_fees bank ctx account fee) ≡ ok after
      → IsCharged ctx account fee after
  unfolding deduct_fees
  charge-IsCharged ctx after account fee e = elim (Bool-cases (bank.is_zero fee)) [
    | inl z ↦ inl (z, ground arith)
    | inr z ↦ elim (Option-cases (bank.send_to_fee_collector ctx account fee)) [
      | inl n ↦ absurd (ground arith)
      | inr (sent, n) ↦ inr (z, ground arith, n ∙ ap some (ground arith))
    ]
  ]

  -- A transaction that DeductFeeDecorator lets through is paid for once, by the account of its payer, with exactly
  -- its fee, and the rest of the ante handler runs on the state after the payment. The payer is the one
  -- that the first extension option names, or the transaction's own.
  pub deduct_fee_handle-Pays :
      (tx : FeeTx Coins) (next : Ctx → Result Error Ctx) (ctx out : Ctx)
      → deduct_fee_handle bank tx next ctx ≡ ok out
      → (payer : Bytes) × (account : Bytes) × (after : Ctx) × Pays tx payer
        × (bank.get_account ctx payer ≡ some account)
        × IsCharged ctx account tx.fee after
        × (next after ≡ ok out)
  unfolding deduct_fee_handle
  deduct_fee_handle-Pays tx next ctx out e =
      let (_, e₁) = >>-eq-ok (reject_if (not tx.is_fee_tx) not_a_fee_tx) _ e in
      let (_, e₂) = >>-eq-ok (if bank.fee_collector_set ctx then ok tt else panic) _ e₁ in
      let (d, named, e₃) = >>=-eq-ok (delegated_payer bank tx.extension_options) _ e₂ in
      let (account, found, e₄) =
        or_err-eq-ok (bank.get_account ctx (or_else d tx.fee_payer)) unknown_payer _ e₃ in
      let (after, charged, e₅) =
        >>=-eq-ok (if bank.is_zero tx.fee then ok ctx else deduct_fees bank ctx account tx.fee) _
          e₄ in
      (
        or_else d tx.fee_payer,
        account,
        after,
        delegated_payer-Pays tx tx.extension_options d refl named,
        found,
        charge-IsCharged ctx after account tx.fee charged,
        e₅,
      )
