-- ===== src/Ante/Verify/Tests.antt =====
-- Runs on a transfer whose fee another account pays. The hash of a text is its length, and a signature repeats the hash.
use flux_sdk_go.Common.{ℕ, ◌≡◌, ◌↔◌, refl, false, some, [], ◌∷◌, ok, err, Bytes, codes}
use flux_sdk_go.Ante.Fee.Laws.{IsCharged}
use flux_sdk_go.Ante.Verify.{wrong_sequence, check_signature, check_signatures, eip712_handle}
use flux_sdk_go.Ante.Verify.Laws.{IsAuthorized}
use flux_sdk_go.Ante.Verify.Signers.{AreSigned, eip712_handle-AreSigned}
use flux_sdk_go.Ante.Verify.Payer.{payer-IsSigned}
use flux_sdk_go.Ante.Verify.Sample.{
  balance, charges_transfer, fee_keep, home, hash, option, signature, transfer, keep,
  passes_transfer,
}

eip712_handle-AreSigned_example :
    (eip712_handle home transfer false keep 3 ≡ ok 3)
    ↔ (AreSigned home 3 transfer × (keep 3 ≡ ok 3))
eip712_handle-AreSigned_example = eip712_handle-AreSigned home transfer keep 3 3 refl

payer-IsSigned_example :
    (payer : Bytes) × (account : Bytes) × (after : ℕ) × (signer : Bytes) × (h : IsAuthorized home 3
      transfer signature signer)
    × (some (codes "lux1b") ≡ some payer)
    × (some payer ≡ some account)
    × IsCharged balance 5 account 2 after
    × (home.recover_address h.signed.hash hash ≡ some payer)
payer-IsSigned_example =
    payer-IsSigned home balance transfer option [] signature [] (codes "lux1a") 2 fee_keep keep 5 3
      3 3 (λ a. refl) refl (λ e. cc) refl charges_transfer refl passes_transfer

-- A signature that was used before.
refuses_again :
    eip712_handle home
      (record transfer { signatures = some (record signature { sequence = 1 } ∷ []) })
      false
      keep
      3
    ≡ err wrong_sequence
unfolding eip712_handle check_signatures check_signature
refuses_again = refl
