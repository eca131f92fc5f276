-- ===== src/Ante/Gas/Laws.antt =====
-- The gas of a signature is that of the simple keys that have signed.
use flux_sdk_go.Common.{
  ℕ, ◌+◌, ◌≡◌, ◌∙◌, Bool, true, false, List, [], ◌∷◌, ◌++◌, ok, >>=-eq-ok, arith,
}
use flux_sdk_go.Ante.Gas.{
  PubKey, ed25519, ethsecp256k1, unrecognized, multisig, PubKeys, no_keys, key, SigData, single,
  multi, Signatures, no_signatures, signature, Params, Meter, consume_gas, sig_gas, multisig_gas,
}

-- The simple keys that have signed, in the order in which they stand.
mutual
  pub signed_keys : PubKey → SigData → List PubKey
  signed_keys (multisig keys) (multi bits sigs) = all_signed_keys keys bits sigs
  signed_keys (multisig keys) single = []
  signed_keys k s = k ∷ []

  pub all_signed_keys : PubKeys → List Bool → Signatures → List PubKey
  all_signed_keys (key k keys) (false ∷ bits) sigs = all_signed_keys keys bits sigs
  all_signed_keys (key k keys) (true ∷ bits) (signature s sigs) =
      signed_keys k s ++ all_signed_keys keys bits sigs
  all_signed_keys _ _ _ = []

module _ (params : Params) where
  abbrev pub key_cost : PubKey → ℕ
  key_cost ed25519 = params.sig_verify_cost_ed25519
  key_cost ethsecp256k1 = params.sig_verify_cost_secp256k1
  key_cost _ = 0

  abbrev pub total_cost : List PubKey → ℕ
  total_cost [] = 0
  total_cost (k ∷ ks) = key_cost k + total_cost ks

  total_cost-append : (ks ls : List PubKey) → total_cost (ks ++ ls) ≡ total_cost ks + total_cost ls
  total_cost-append [] ls = omega arith
  total_cost-append (k ∷ ks) ls = omega (arith, total_cost-append ks ls)

  consume_gas-ok :
      (amount : ℕ) (m out : Meter)
      → consume_gas amount m ≡ ok out
      → (out.consumed ≡ m.consumed + amount) × (out.limit ≡ m.limit)
  unfolding consume_gas
  consume_gas-ok amount m out e = ground arith

  mutual
    unfolding sig_gas multisig_gas signed_keys all_signed_keys

    sig_gas-ok :
        (k : PubKey) (s : SigData) (m out : Meter)
        → sig_gas params k s m ≡ ok out
        → (out.consumed ≡ m.consumed + total_cost (signed_keys k s)) × (out.limit ≡ m.limit)
    sig_gas-ok ed25519 s m out e =
        let (c, l) = consume_gas-ok params.sig_verify_cost_ed25519 m out e in (omega (arith, c), l)
    sig_gas-ok ethsecp256k1 s m out e =
        let (c, l) = consume_gas-ok params.sig_verify_cost_secp256k1 m out e in
        (omega (arith, c), l)
    sig_gas-ok unrecognized s m out e = (cc, cc)
    sig_gas-ok (multisig keys) single m out e = (cc, cc)
    sig_gas-ok (multisig keys) (multi bits sigs) m out e = multisig_gas-ok keys bits sigs m out e

    multisig_gas-ok :
        (keys : PubKeys) (bits : List Bool) (sigs : Signatures) (m out : Meter)
        → multisig_gas params keys bits sigs m ≡ ok out
        → (out.consumed ≡ m.consumed + total_cost (all_signed_keys keys bits sigs))
          × (out.limit ≡ m.limit)
    multisig_gas-ok no_keys [] sigs m out e = (ground arith, ground arith)
    multisig_gas-ok (key k keys) [] sigs m out e = (ground arith, ground arith)
    multisig_gas-ok no_keys (true ∷ bits) sigs m out e = (cc, cc)
    multisig_gas-ok no_keys (false ∷ bits) sigs m out e = multisig_gas-ok no_keys bits sigs m out e
    multisig_gas-ok (key k keys) (false ∷ bits) sigs m out e =
        multisig_gas-ok keys bits sigs m out e
    multisig_gas-ok (key k keys) (true ∷ bits) no_signatures m out e = (cc, cc)
    multisig_gas-ok (key k keys) (true ∷ bits) (signature s sigs) m out e =
        let (mid, first, later) = >>=-eq-ok (sig_gas params k s m) _ e in
        let (c, l) = sig_gas-ok k s m mid first in
        let (c', l') = multisig_gas-ok keys bits sigs mid out later in
        (
          omega
              (arith, c, c', total_cost-append (signed_keys k s) (all_signed_keys keys bits sigs)),
          l' ∙ l,
        )

  -- A signature that DefaultSigVerificationGasConsumer passes has consumed the cost of every simple key that has
  -- signed, each once, however multisignatures nest; and the meter's limit is as it was.
  pub sig_gas-eq-ok :
      (k : PubKey) (s : SigData) (m out : Meter)
      → sig_gas params k s m ≡ ok out
      → (out.consumed ≡ m.consumed + total_cost (signed_keys k s)) × (out.limit ≡ m.limit)
  sig_gas-eq-ok k s m out e = sig_gas-ok k s m out e
