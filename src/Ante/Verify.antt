-- ===== src/Ante/Verify.antt =====
-- chain/app/ante/eip712.go: Eip712SigVerificationDecorator and VerifySignatureEIP712. The account keeper, the amino
-- JSON of a transaction without its extension options, the signatures of secp256k1, addresses and the decoder
-- of encoding/json are a record. A transaction is the SDK's own, which has the interfaces that the code asserts
-- without a test (authsigning.Tx and V2AdaptableTx): on another one the assertion would panic.
pub mod Laws
pub mod Signers
pub mod Payer
pub mod Sample
mod Tests
use flux_sdk_go.Common.{
  ℕ, ◌^◌, Bool, true, false, not, ◌&&◌, ◌||◌, Option, none, some, List, [], ◌∷◌, Result, Check, ok,
  err, panic, ◌>>=◌, ◌>>◌, reject_if, or_err, or_panic, Bytes, bytes_eq, length, take, get_elem?,
  is_some, digits_value, ltb, if◌then◌else◌, ◌==◌,
}
use flux_sdk_go.TypedData.{Entries, TypedMessage}
use flux_sdk_go.TypedData.Primitive.{Ethereum}
use flux_sdk_go.TypedData.Encode.{compute_typed_data_hash}
use flux_sdk_go.Ante.Wrap.{Value}
use flux_sdk_go.Ante.Wrap.Pack.{wrap_tx_to_eip712}

pub data Error : Type 0 where
  invalid_transaction no_signatures no_signers wrong_number unknown_account no_pub_key : Error
  wrong_sequence unauthorized wrong_sign_mode wrong_signature_data no_sign_bytes : Error
  cannot_unpack invalid_fee_payer no_fee_payer_sig invalid_chain_id cannot_wrap cannot_hash : Error
  cannot_recover wrong_fee_payer wrong_signature_length wrong_signature : Error

-- `ExtensionOptionsWeb3Tx`
pub record Web3 : Type 0 where
  pub typed_data_chain_id : ℕ
  pub fee_payer : Bytes
  pub fee_payer_sig : Bytes

-- What UnpackAny makes of an extension option.
pub data Extension : Type 0 where
  broken other : Extension
  web3 : Web3 → Extension

-- A single signature with whether its mode is the legacy amino JSON, or any other signature data.
pub data SignatureData : Type 0 where
  single : Bool → Bytes → SignatureData
  multi : SignatureData

pub record Signature : Type 0 where
  pub sequence : ℕ
  pub sig : SignatureData

-- A transaction; its signatures and signers are none if they cannot be read.
pub record Tx (Body : Type 0) : Type 0 where
  pub is_sig_verifiable : Bool
  pub signatures : Option (List Signature)
  pub signers : Option (List Bytes)
  pub msgs : List Value
  pub extension_options : Option (List Extension)
  pub body : Body

pub record Account : Type 0 where
  pub address : Bytes
  pub pub_key : Option Bytes
  pub account_number : ℕ
  pub sequence : ℕ

pub record SignerData : Type 0 where
  pub chain_id : Bytes
  pub address : Bytes
  pub account_number : ℕ
  pub sequence : ℕ

-- `recover_address` is the address of the public key that RecoverPubkey finds, where it and UnmarshalPubkey succeed.
pub record Chain (Ctx Body : Type 0) : Type 0 where
  pub is_recheck : Ctx → Bool
  pub block_height : Ctx → ℕ
  pub chain_id : Ctx → Bytes
  pub get_signer_acc : Ctx → Bytes → Option Account
  pub get_sign_bytes : SignerData → Body → Option Bytes
  pub unmarshal : Bytes → Option Entries
  pub acc_address_from_bech32 : Bytes → Option Bytes
  pub address_text : Bytes → Bytes
  pub recover_address : Bytes → Bytes → Option Bytes
  pub verify_signature : Bytes → Bytes → Bytes → Bool
  pub upper_rune : Bytes → Bool
  pub eth : Ethereum

-- What the first extension option says: the chain of the typed data, 0 for none, and the payer of a delegated
-- fee with its signature.
pub record Options : Type 0 where
  pub chain : ℕ
  pub payer : Option (Bytes × Bytes)

abbrev pub no_options : Options
no_options = record { chain = 0; payer = none }

-- `strconv.ParseUint(s, 10, 64)`
pub parse_uint : Bytes → Option ℕ
parse_uint [] = none
parse_uint (c ∷ s) = elim (digits_value 0 (c ∷ s)) [
  | none ↦ none
  | some n ↦ if ltb n (2 ^ 64) then some n else none
]

-- The chains of the typed data that an option may name: 1 and 5.
abbrev pub allowed_chain : ℕ → ℕ
allowed_chain n = if (n == 1) || (n == 5) then n else 0

abbrev is_empty : Bytes → Bool
is_empty [] = true
is_empty (_ ∷ _) = false

-- The error of a call that the caller wraps.
abbrev pub wrap_err {ℓ κ} : {E : Type ℓ} {A : Type κ} → Error → Result E A → Result Error A
wrap_err e (ok a) = ok a
wrap_err e (err _) = err e
wrap_err e panic = panic

-- `pubKey.Bytes()`; the caller has a key wherever it verifies.
abbrev pub key_or_empty : Option Bytes → Bytes
key_or_empty none = []
key_or_empty (some k) = k

module _ {Ctx Body : Type 0} (chain : Chain Ctx Body) where
  pub read_web3 : Web3 → Result Error Options
  read_web3 w =
      let named = (do
        payer ← or_err (chain.acc_address_from_bech32 w.fee_payer) invalid_fee_payer
        reject_if (is_empty w.fee_payer_sig) no_fee_payer_sig
        ok (record {
          chain = allowed_chain w.typed_data_chain_id;
          payer = some (payer, w.fee_payer_sig);
        })) in
      if is_empty w.fee_payer
      then ok (record { chain = allowed_chain w.typed_data_chain_id; payer = none })
      else named

  pub read_extension : Option (List Extension) → Result Error Options
  read_extension none = ok no_options
  read_extension (some []) = ok no_options
  read_extension (some (broken ∷ _)) = err cannot_unpack
  read_extension (some (other ∷ _)) = ok no_options
  read_extension (some (web3 w ∷ _)) = read_web3 w

  -- The text of the payer's address.
  abbrev pub payer_text : Option (Bytes × Bytes) → Option Bytes
  payer_text none = none
  payer_text (some (payer, _)) = some (chain.address_text payer)

  -- The signature of the account that pays a delegated fee.
  pub check_fee_payer : Option (Bytes × Bytes) → Bytes → Check Error
  check_fee_payer none hash = ok tt
  check_fee_payer (some (payer, sig)) hash = do
    recovered ← or_err (chain.recover_address hash sig) cannot_recover
    reject_if (not (bytes_eq recovered payer)) wrong_fee_payer

  -- The hash of the typed data that the signers of a transaction sign.
  pub signed_hash : ℕ → Tx Body → Bytes → Option (Bytes × Bytes) → Result Error Bytes
  signed_hash chain_id tx bytes payer = do
    message ← or_panic (get_elem? tx.msgs 0)
    typed_data ←
        wrap_err cannot_wrap
          (wrap_tx_to_eip712 chain.unmarshal chain_id message bytes (payer_text payer))
    wrap_err cannot_hash (compute_typed_data_hash chain.eth chain.upper_rune typed_data)

  -- `chainID` where no option named one.
  abbrev pub typed_chain : SignerData → ℕ → Result Error ℕ
  typed_chain signer n =
      if n == 0 then or_err (parse_uint signer.chain_id) invalid_chain_id else ok n

  -- `VerifySignatureEIP712`
  pub verify_signature_eip712 : Bytes → SignerData → SignatureData → Tx Body → Check Error
  verify_signature_eip712 pub_key signer multi tx = err wrong_signature_data
  verify_signature_eip712 pub_key signer (single amino sig) tx = do
    reject_if (not amino) wrong_sign_mode
    bytes ← or_err (chain.get_sign_bytes signer tx.body) no_sign_bytes
    options ← read_extension tx.extension_options
    chain_id ← typed_chain signer options.chain
    hash ← signed_hash chain_id tx bytes options.payer
    check_fee_payer options.payer hash
    reject_if (not (length sig == 65)) wrong_signature_length
    reject_if (not (chain.verify_signature pub_key hash (take 64 sig))) wrong_signature

  -- `signerData`; the account number counts as 0 in the first block.
  pub signer_data : Ctx → Account → SignerData
  signer_data ctx acc = record {
    chain_id = chain.chain_id ctx;
    address = chain.address_text acc.address;
    account_number = if chain.block_height ctx == 0 then 0 else acc.account_number;
    sequence = acc.sequence;
  }

  -- One turn of the loop over the signatures.
  pub check_signature : Ctx → Bool → Tx Body → Signature → Bytes → Check Error
  check_signature ctx simulate tx s signer = do
    acc ← or_err (chain.get_signer_acc ctx signer) unknown_account
    reject_if (not simulate && not (is_some acc.pub_key)) no_pub_key
    reject_if (not (s.sequence == acc.sequence)) wrong_sequence
    (if simulate
        then ok tt
        else wrap_err unauthorized
            (verify_signature_eip712 (key_or_empty acc.pub_key) (signer_data ctx acc) s.sig tx))

  pub check_signatures : Ctx → Bool → Tx Body → List Signature → List Bytes → Check Error
  check_signatures ctx simulate tx [] signers = ok tt
  check_signatures ctx simulate tx (s ∷ sigs) [] = panic
  check_signatures ctx simulate tx (s ∷ sigs) (a ∷ signers) =
      check_signature ctx simulate tx s a >> check_signatures ctx simulate tx sigs signers

  -- `Eip712SigVerificationDecorator.AnteHandle`
  pub eip712_handle : Tx Body → Bool → (Ctx → Result Error Ctx) → Ctx → Result Error Ctx
  eip712_handle tx simulate next ctx =
      let checked = (do
        reject_if (not tx.is_sig_verifiable) invalid_transaction
        sigs ← or_err tx.signatures no_signatures
        signers ← or_err tx.signers no_signers
        reject_if (not (length sigs == length signers)) wrong_number
        check_signatures ctx simulate tx sigs signers
        next ctx) in
      if chain.is_recheck ctx then next ctx else checked
