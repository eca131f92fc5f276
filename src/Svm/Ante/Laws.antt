-- ===== src/Svm/Ante/Laws.antt =====
-- Which transactions the decorator lets through.
use flux_sdk_go.Common.{
  ℕ, ◌≡◌, refl, ◌↔◌, ◌⊎◌, String, Bool, true, false, not, some, List, [], ◌∷◌, length, get_elem?,
  All, IsIn, bytes_mem_iff, Result, ok, >>-eq-ok, >>=-eq-ok, or_err-eq-ok, or_panic-eq-ok,
  reject_if, ltb, arith, Bool-cases, inl, inr,
}
use flux_sdk_go.Svm.Validate.{InstructionAccount, Instruction, MsgTransaction}
use flux_sdk_go.Svm.Ante.{
  AccountLink, SvmKeeper, SdkMsg, transaction, other, SdkTx, Error, has_svm_msg, first_transaction,
  check_signer_links, check_signing_account, check_ix_accounts, check_instructions, check_svm_tx,
  ante_handle,
}

module _ (k : SvmKeeper) where
  -- A signer of the Solana message has an address that is linked.
  pub record IsLinked (signer : String) : Type 0 where
    pub address : List ℕ
    pub parses : k.acc_address_from_bech32 signer ≡ some address
    pub link : AccountLink
    pub linked : k.get_account_link address ≡ some link

  -- The account at `index` is linked to a Cosmos address that signed the transaction.
  pub record IsSigned (signers : List (List ℕ)) (accounts : List String) (index : ℕ) : Type 0 where
    pub account : String
    pub listed : get_elem? accounts index ≡ some account
    pub link : AccountLink
    pub linked : k.get_account_link_by_svm_addr (k.base58_decode account) ≡ some link
    pub signed : IsIn link.cosmos_addr signers

  abbrev pub IsAuthorized : List (List ℕ) → List String → InstructionAccount → Type 0
  IsAuthorized signers accounts a = a.is_signer ≡ true → IsSigned signers accounts a.caller_index

  -- A transaction whose one message is a svm message that its signers may send.
  pub record IsAllowed (tx : SdkTx) : Type 0 where
    pub msg : MsgTransaction
    pub alone : tx.msgs ≡ transaction msg ∷ []
    pub sig_tx : tx.is_sig_tx ≡ true
    pub signers : List (List ℕ)
    pub got_signers : tx.signers ≡ some signers
    pub links : All IsLinked msg.signers
    pub authorized :
        All (λ ix. All (IsAuthorized signers msg.accounts) ix.accounts) msg.instructions

  check_signer_links_iff :
      (signers : List String) → (check_signer_links k signers ≡ ok tt) ↔ All IsLinked signers
  unfolding check_signer_links
  check_signer_links_iff [] = (λ _. tt, λ _. refl)
  check_signer_links_iff (s ∷ rest) =
      let there = check_signer_links_iff rest in
      (
        λ e.
            let (addr, parses, e') = or_panic-eq-ok (k.acc_address_from_bech32 s) _ e in
            let (link, linked, e'') =
              or_err-eq-ok (k.get_account_link addr) (Error.signer_not_linked s) _ e' in
            (record { address = addr; parses = parses; link = link; linked = linked }, there.0 e''),
        λ p. rw (p.0.parses, p.0.linked) (there.1 p.1),
      )

  check_signing_account_iff :
      (signers : List (List ℕ)) (accounts : List String) (index : ℕ)
      → (check_signing_account k signers accounts index ≡ ok tt) ↔ IsSigned signers accounts index
  unfolding check_signing_account
  check_signing_account_iff signers accounts index = (
    λ e.
        let (account, listed, e') = or_panic-eq-ok (get_elem? accounts index) _ e in
        let (link, linked, e'') =
          or_err-eq-ok (k.get_account_link_by_svm_addr (k.base58_decode account))
            (Error.ix_account_not_linked account) _ e' in
        record {
          account = account;
          listed = listed;
          link = link;
          linked = linked;
          signed = (bytes_mem_iff link.cosmos_addr signers).0 (ground arith);
        },
    λ p. rw (p.listed, p.linked, (bytes_mem_iff p.link.cosmos_addr signers).1 p.signed) refl,
  )

  check_ix_accounts_iff :
      (signers : List (List ℕ)) (accounts : List String) (accs : List InstructionAccount)
      → (check_ix_accounts k signers accounts accs ≡ ok tt)
        ↔ All (IsAuthorized signers accounts) accs
  unfolding check_ix_accounts
  check_ix_accounts_iff signers accounts [] = (λ _. tt, λ _. refl)
  check_ix_accounts_iff signers accounts (a ∷ rest) =
      let there = check_ix_accounts_iff signers accounts rest in
      let here = check_signing_account_iff signers accounts a.caller_index in
      elim (Bool-cases a.is_signer) [
        | inl s ↦ rw s (
          λ e.
              let (one, others) =
                >>-eq-ok (check_signing_account k signers accounts a.caller_index) _ e in
              (λ _. here.0 one, there.0 others),
          λ p. rw (here.1 (p.0 refl)) (there.1 p.1),
        )
        | inr n ↦ rw n (λ e. (λ h. cc, there.0 e), λ p. there.1 p.1)
      ]

  check_instructions_iff :
      (signers : List (List ℕ)) (accounts : List String) (ixs : List Instruction)
      → (check_instructions k signers accounts ixs ≡ ok tt)
        ↔ All (λ ix. All (IsAuthorized signers accounts) ix.accounts) ixs
  unfolding check_instructions
  check_instructions_iff signers accounts [] = (λ _. tt, λ _. refl)
  check_instructions_iff signers accounts (ix ∷ rest) =
      let there = check_instructions_iff signers accounts rest in
      let here = check_ix_accounts_iff signers accounts ix.accounts in
      (
        λ e.
            let (one, others) = >>-eq-ok (check_ix_accounts k signers accounts ix.accounts) _ e in
            (here.0 one, there.0 others),
        λ p. rw (here.1 p.0) (there.1 p.1),
      )

  -- The message that stands alone in the transaction.
  lone_transaction :
      (msgs : List SdkMsg) (m : MsgTransaction)
      → ltb 1 (length msgs) ≡ false
      → first_transaction msgs ≡ ok m
      → msgs ≡ transaction m ∷ []
  unfolding first_transaction
  lone_transaction [] m short e = cc
  lone_transaction (transaction x ∷ []) m short e = ground arith
  lone_transaction (other n ∷ []) m short e = cc
  lone_transaction (x ∷ y ∷ msgs) m short e = ground arith

  check_svm_tx_iff : (tx : SdkTx) → (check_svm_tx k tx ≡ ok tt) ↔ IsAllowed tx
  unfolding check_svm_tx first_transaction
  check_svm_tx_iff tx = (
    λ e.
        let (short, e₁) = >>-eq-ok (reject_if (ltb 1 (length tx.msgs)) Error.not_alone) _ e in
        let (sig, e₂) = >>-eq-ok (reject_if (not tx.is_sig_tx) Error.bad_tx_type) _ e₁ in
        let (signers, got, e₃) = or_err-eq-ok tx.signers Error.bad_signers _ e₂ in
        let (m, first, e₄) = >>=-eq-ok (first_transaction tx.msgs) _ e₃ in
        let (links, authorized) = >>-eq-ok (check_signer_links k m.signers) _ e₄ in
        record {
          msg = m;
          alone = lone_transaction tx.msgs m (ground arith) first;
          sig_tx = ground arith;
          signers = signers;
          got_signers = got;
          links = (check_signer_links_iff m.signers).0 links;
          authorized = (check_instructions_iff signers m.accounts m.instructions).0 authorized;
        },
    λ w.
        rw
          (
            w.alone,
            w.sig_tx,
            w.got_signers,
            (check_signer_links_iff w.msg.signers).1 w.links,
            (check_instructions_iff w.signers w.msg.accounts w.msg.instructions).1 w.authorized,
          )
          refl,
  )

  has_svm_msg-transaction : (m : MsgTransaction) → has_svm_msg (transaction m ∷ []) ≡ true
  unfolding has_svm_msg
  has_svm_msg-transaction m = refl

-- With the decorator enabled, a transaction that has a svm message reaches the rest of the chain
-- only if that message stands alone, its signers are linked, and each signing account of each
-- instruction is linked to a Cosmos address that signed the transaction.
pub ante_handle-IsAllowed {ℓ} :
    {A : Type ℓ} (k : SvmKeeper) (tx : SdkTx) (next : Result Error A) (a : A)
    → has_svm_msg tx.msgs ≡ true
    → ante_handle k true tx next ≡ ok a
    → IsAllowed k tx
unfolding ante_handle
ante_handle-IsAllowed k tx next a svm e =
    let (checked, _) = >>-eq-ok (check_svm_tx k tx) next (rw svm at e) in
    (check_svm_tx_iff k tx).0 checked

-- The decorator answers what the rest of the chain answers whenever it is disabled, the transaction
-- has no svm message, or the transaction is allowed.
pub ante_handle-passes {ℓ} :
    {A : Type ℓ} (k : SvmKeeper) (is_enabled : Bool) (tx : SdkTx) (next : Result Error A)
    → (is_enabled ≡ false) ⊎ (has_svm_msg tx.msgs ≡ false) ⊎ IsAllowed k tx
    → ante_handle k is_enabled tx next ≡ next
unfolding ante_handle
ante_handle-passes k is_enabled tx next (inl off) = rw off refl
ante_handle-passes k false tx next (inr (inl plain)) = refl
ante_handle-passes k true tx next (inr (inl plain)) = rw plain refl
ante_handle-passes k false tx next (inr (inr w)) = refl
ante_handle-passes k true tx next (inr (inr w)) =
    rw ((check_svm_tx_iff k tx).1 w, w.alone, has_svm_msg-transaction k w.msg) refl
