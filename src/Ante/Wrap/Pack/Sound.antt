-- ===== src/Ante/Wrap/Pack/Sound.antt =====
-- WrapTxToEIP712 succeeds on clean messages, and what it answers passes the checks of typed data.
use flux_sdk_go.Common.{
  ℕ, ◌≡◌, refl, inl, inr, Bool, Option, none, some, List, [], ◌∷◌, ok, Bytes, codes, cut_suffix,
  bytes_eq, bytes_eq_iff, All, Bool-cases, arith,
}
use flux_sdk_go.TypedData
use flux_sdk_go.TypedData.{
  TypeEntry, Types, TypedMessage, Entries, no_entries, entry, object, text, lookup_type,
  lookup_value,
}
use flux_sdk_go.TypedData.Validate.{
  validate, is_reference_type, type_name, matches_reference, is_primitive_type_valid,
}
use flux_sdk_go.TypedData.Validate.Laws.{IsSoundDomain, validate_iff}
use flux_sdk_go.Ante.Wrap
use flux_sdk_go.Ante.Wrap.Walk.Clean.{IsCleanMessage}
use flux_sdk_go.Ante.Wrap.Walk.Table.{Has, IsTypeOf, IsTypeOf-imp}
use flux_sdk_go.Ante.Wrap.Pack.{
  delegated_fee, set_type, set_value, delegate, eip712_domain, wrap_tx_to_eip712,
}
use flux_sdk_go.Ante.Wrap.Pack.Laws.{extract_msg_types-IsSound}

set_type-Has :
    (types : Types) (key : Bytes) (fields : List TypeEntry) (x : Bytes)
    → Has types x
    → Has (set_type types key fields) x
unfolding set_type lookup_type
set_type-Has [] key fields x h = absurd (h refl)
set_type-Has ((k, own) ∷ types) key fields x h = elim (Bool-cases (bytes_eq k key)) [
  | inl e ↦ rw e (λ p. h (ground arith))
  | inr e ↦ elim (Bool-cases (bytes_eq k x)) [
    | inl f ↦ rw (e, f) (λ p. cc)
    | inr f ↦ rw (e, f) (set_type-Has types key fields x (rw f at h))
  ]
]

module _ (upper_rune : Bytes → Bool) where
  set_type-IsTypeOf :
      (Known : Bytes → Type 0) (types : Types) (key : Bytes) (fields : List TypeEntry)
      → IsTypeOf upper_rune Known (key, fields)
      → All (IsTypeOf upper_rune Known) types
      → All (IsTypeOf upper_rune Known) (set_type types key fields)
  unfolding set_type
  set_type-IsTypeOf Known [] key fields own h = (own, tt)
  set_type-IsTypeOf Known ((k, old) ∷ types) key fields own h = elim (Bool-cases (bytes_eq k key)) [
    | inl e ↦ let same = (bytes_eq_iff k key).0 e in rw (e, same) (own, h.1)
    | inr e ↦ rw e (h.0, set_type-IsTypeOf Known types key fields own h.1)
  ]

  delegated_fee-IsTypeOf :
      (Known : Bytes → Type 0)
      → Known (codes "Coin")
      → IsTypeOf upper_rune Known (codes "Fee", delegated_fee)
  unfolding is_reference_type type_name matches_reference is_primitive_type_valid cut_suffix
  delegated_fee-IsTypeOf Known coin = (
    λ p. cc,
    (
      (λ p. cc, λ p. cc, λ p. absurd (omega (arith, first_of p)), inr (refl, refl)),
      (
        (λ p. cc, λ p. cc, λ p. absurd (omega (arith, first_of p)), inl (refl, coin, refl)),
        ((λ p. cc, λ p. cc, λ p. absurd (omega (arith, first_of p)), inr (refl, refl)), tt),
      ),
    ),
  )
    where
      first_of : {c d : ℕ} {s t : Bytes} → c ∷ s ≡ d ∷ t → c ≡ d
      first_of e = ground arith

lookup_value-set_value :
    (m : Entries) (key : Bytes) (v : TypedData.Value) → lookup_value (set_value m key v) key ≡ v
unfolding lookup_value set_value
lookup_value-set_value no_entries key v = rw ((bytes_eq_iff key key).1 refl) refl
lookup_value-set_value (entry k w rest) key v = elim (Bool-cases (bytes_eq k key)) [
  | inl e ↦ rw (e, e) refl
  | inr e ↦ rw (e, e) (lookup_value-set_value rest key v)
]

eip712_domain-IsSoundDomain : (chain_id : ℕ) → IsSoundDomain (eip712_domain chain_id)
unfolding IsSoundDomain eip712_domain
eip712_domain-IsSoundDomain chain_id = inl (λ p. cc)

-- A transaction whose fee can be given a payer.
abbrev pub HasFee : Option Bytes → Entries → Type 0
HasFee none tx = Unit {0}
HasFee (some payer) tx = (fee : Entries) × (lookup_value tx (codes "fee") ≡ object fee)

-- The message names the payer of its fee, or is the transaction itself.
abbrev pub NamesPayer : Option Bytes → Entries → Entries → Type 0
NamesPayer none tx message = message ≡ tx
NamesPayer (some payer) tx message =
    (fee : Entries) × (lookup_value message (codes "fee") ≡ object fee)
    × (lookup_value fee (codes "feePayer") ≡ text payer)

module _ (upper_rune : Bytes → Bool) where
  delegate-NamesPayer :
      (payer : Option Bytes) (types : Types) (tx : Entries)
      → HasFee payer tx
      → All (IsTypeOf upper_rune (Has types)) types
      → Has types (codes "Coin")
      → (types' : Types) × (tx' : Entries) × (delegate payer types tx ≡ ok (types', tx'))
        × All (IsTypeOf upper_rune (Has types')) types'
        × NamesPayer payer tx tx'
  delegate-NamesPayer none types tx has h coin = (types, tx, refl, h, refl)
  delegate-NamesPayer (some payer) types tx (fee, e) h coin =
      let types' = set_type types (codes "Fee") delegated_fee in
      let stays =
        λ (x : Bytes) (m : Has types x). set_type-Has types (codes "Fee") delegated_fee x m in
      let fee' = set_value fee (codes "feePayer") (text payer) in
      (
        types',
        set_value tx (codes "fee") (object fee'),
        rw e refl,
        set_type-IsTypeOf upper_rune (Has types') types (codes "Fee") delegated_fee
            (delegated_fee-IsTypeOf upper_rune (Has types') (stays (codes "Coin") coin))
            (IsTypeOf-imp upper_rune {P = Has types} {Q = Has types'} stays types h),
        (
          fee',
          lookup_value-set_value tx (codes "fee") (object fee'),
          lookup_value-set_value fee (codes "feePayer") (text payer),
        ),
      )

  -- For a clean message, sign bytes that decode, and, where another account pays, a fee that is an object,
  -- WrapTxToEIP712 answers typed data of the primary type Tx that pass TypedData.validate, and their message is
  -- the transaction itself, or names the payer in its fee.
  pub wrap_tx_to_eip712-validate :
      (unmarshal : Bytes → Option Entries) (chain_id : ℕ) (message : Wrap.Value) (bytes : Bytes)
      (payer : Option Bytes) (tx : Entries)
      → unmarshal bytes ≡ some tx
      → IsCleanMessage message
      → HasFee payer tx
      → (td : TypedMessage) × (wrap_tx_to_eip712 unmarshal chain_id message bytes payer ≡ ok td)
        × (validate upper_rune td ≡ ok tt)
        × (td.primary_type ≡ codes "Tx")
        × NamesPayer payer tx td.message
  unfolding wrap_tx_to_eip712
  wrap_tx_to_eip712-validate unmarshal chain_id message bytes payer tx decoded clean has =
      let (types, walked, sound, coin) = extract_msg_types-IsSound upper_rune message clean in
      let (types', tx', packed, sound', named) =
        delegate-NamesPayer payer types tx has sound coin in
      let td : TypedMessage = record {
        types = types';
        primary_type = codes "Tx";
        domain = eip712_domain chain_id;
        message = tx';
      } in
      (
        td,
        rw (decoded, walked, packed) refl,
        (validate_iff upper_rune td).1 (sound', eip712_domain-IsSoundDomain chain_id),
        refl,
        named,
      )
