-- ===== src/Nft/Laws.antt =====
-- The messages and genesis states that the fnft module accepts.
use flux_sdk_go.Common.{
  ℕ, ◌≤◌, ◌≡◌, refl, ◌≢◌, ◌↔◌, Bool, true, false, not, Option, none, some, List, [], ◌∷◌, ok,
  >>-eq-ok, reject_if, Bytes, All, arith, ltb, ◌==◌,
}
use flux_sdk_go.Common.Int.{ℤ, pos, negsuc}
use flux_sdk_go.Nft.{
  Error, is_empty, is_positive, is_below, require_positive, require_at_least, MsgCreate, MsgShares,
  MsgTransferShares, Entry, GenesisState, check_nft_id, check_classes, validate_create,
  validate_shares, validate_transfer, check_genesis_entries, validate_genesis,
}

-- A number that is set, and is `n` at least.
abbrev pub AtLeast : ℕ → Option ℤ → Type 0
AtLeast n i = (k : ℕ) × (i ≡ some (pos k)) × (n ≤ k)

require_positive_iff : (i : Option ℤ) (e : Error) → (require_positive i e ≡ ok tt) ↔ AtLeast 1 i
unfolding require_positive is_positive
require_positive_iff none e = (λ p. cc, λ (k, q, le). cc)
require_positive_iff (some (pos n)) e = (λ p. (n, refl, ground arith), λ (k, q, le). ground arith)
require_positive_iff (some (negsuc n)) e = (λ p. cc, λ (k, q, le). cc)

require_at_least_iff :
    (n : ℕ) (i : Option ℤ) (e : Error) → (require_at_least n i e ≡ ok tt) ↔ AtLeast n i
unfolding require_at_least is_below
require_at_least_iff n none e = (λ p. cc, λ (k, q, le). cc)
require_at_least_iff n (some (pos m)) e = (λ p. (m, refl, ground arith), λ (k, q, le). ground arith)
require_at_least_iff n (some (negsuc m)) e = (λ p. cc, λ (k, q, le). cc)

reject_if_empty : (s : Bytes) (e : Error) → (reject_if (is_empty s) e ≡ ok tt) ↔ (s ≢ [])
reject_if_empty [] e = ground arith
reject_if_empty (c ∷ s) e = ground arith

check_nft_id_iff : (c i : Bytes) → (check_nft_id c i ≡ ok tt) ↔ ((c ≢ []) × (i ≢ []))
unfolding check_nft_id
check_nft_id_iff c i =
    let class = reject_if_empty c Error.empty_class_id in
    let id = reject_if_empty i Error.empty_nft_id in
    (
      λ e.
          let (e₁, e₂) = >>-eq-ok (reject_if (is_empty c) Error.empty_class_id) _ e in
          (class.0 e₁, id.0 e₂),
      λ h. rw (class.1 h.0) (id.1 h.1),
    )

check_classes_iff : (cs : List Bytes) → (check_classes cs ≡ ok tt) ↔ All (λ c. c ≢ []) cs
unfolding check_classes
check_classes_iff [] = (λ e. tt, λ h. refl)
check_classes_iff (c ∷ cs) =
    let named = reject_if_empty c Error.empty_class_id in
    let rest = check_classes_iff cs in
    (
      λ e.
          let (e₁, e₂) = >>-eq-ok (reject_if (is_empty c) Error.empty_class_id) _ e in
          (named.0 e₁, rest.0 e₂),
      λ h. rw (named.1 h.0) (rest.1 h.1),
    )

module _ (is_address : Bytes → Bool) (is_denom : Bytes → Bool) where
  -- What a new NFT has: its class, a sender, a supply, a price, an equity of the owner of 33 at least,
  -- a success threshold of 66 at least, a dividend interval of 10 at least, and a denomination.
  pub record IsCreate (m : MsgCreate) : Type 0 where
    pub class_named : m.class_id ≢ []
    pub sent : is_address m.sender ≡ true
    pub supplied : AtLeast 1 m.supply
    pub owned : AtLeast 33 m.owner_equity_percent
    pub priced : AtLeast 1 m.initial_price.amount
    pub timed : m.iso_timestamp ≢ 0
    pub succeeds : 66 ≤ m.iso_success_percent
    pub payable : is_denom m.accepted_payment_denom ≡ true
    pub spaced : 10 ≤ m.dividend_interval

  -- ValidateBasic of MsgCreate accepts exactly the messages that are as described, and no percentage has
  -- an upper bound. For a number that was never set it does not.
  pub validate_create_iff :
      (m : MsgCreate) → (validate_create is_address is_denom m ≡ ok tt) ↔ IsCreate m
  unfolding validate_create
  validate_create_iff m =
      let class = reject_if_empty m.class_id Error.empty_class_id in
      let supply = require_positive_iff m.supply Error.invalid_amount in
      let equity = require_at_least_iff 33 m.owner_equity_percent Error.invalid_owner_equity in
      let price = require_positive_iff m.initial_price.amount Error.invalid_price in
      (
        λ e.
            let (e₁, r₁) = >>-eq-ok (reject_if (is_empty m.class_id) Error.empty_class_id) _ e in
            let (e₂, r₂) =
              >>-eq-ok (reject_if (not (is_address m.sender)) Error.invalid_sender) _ r₁ in
            let (e₃, r₃) = >>-eq-ok (require_positive m.supply Error.invalid_amount) _ r₂ in
            let (e₄, r₄) =
              >>-eq-ok (require_at_least 33 m.owner_equity_percent Error.invalid_owner_equity) _
                r₃ in
            let (e₅, r₅) =
              >>-eq-ok (require_positive m.initial_price.amount Error.invalid_price) _ r₄ in
            let (e₆, r₆) =
              >>-eq-ok (reject_if (m.iso_timestamp == 0) Error.invalid_timestamp) _ r₅ in
            let (e₇, r₇) =
              >>-eq-ok (reject_if (ltb m.iso_success_percent 66) Error.invalid_iso) _ r₆ in
            let (e₈, e₉) =
              >>-eq-ok (reject_if (not (is_denom m.accepted_payment_denom)) Error.invalid_denom) _
                r₇ in
            record {
              class_named = class.0 e₁;
              sent = ground arith;
              supplied = supply.0 e₃;
              owned = equity.0 e₄;
              priced = price.0 e₅;
              timed = ground arith;
              succeeds = ground arith;
              payable = ground arith;
              spaced = ground arith;
            },
        λ h.
            let timed : (m.iso_timestamp == 0) ≡ false = ground (arith, h.timed) in
            let succeeds : ltb m.iso_success_percent 66 ≡ false = ground (arith, h.succeeds) in
            let spaced : ltb m.dividend_interval 10 ≡ false = ground (arith, h.spaced) in
            rw
              (
                class.1 h.class_named,
                h.sent,
                supply.1 h.supplied,
                equity.1 h.owned,
                price.1 h.priced,
                timed,
                succeeds,
                h.payable,
                spaced,
              )
              refl,
      )

module _ (is_address : Bytes → Bool) where
  -- An entry of the genesis is of an NFT and of an address.
  abbrev pub IsEntry : Entry → Type 0
  IsEntry e = (e.class_id ≢ []) × (e.id ≢ []) × (is_address e.address ≡ true)

  check_entries_iff :
      (es : List Entry) → (check_genesis_entries is_address es ≡ ok tt) ↔ All IsEntry es
  unfolding check_genesis_entries
  check_entries_iff [] = (λ e. tt, λ h. refl)
  check_entries_iff (x ∷ es) =
      let ids = check_nft_id_iff x.class_id x.id in
      let rest = check_entries_iff es in
      (
        λ e.
            let (e₁, r₁) = >>-eq-ok (check_nft_id x.class_id x.id) _ e in
            let (e₂, e₃) =
              >>-eq-ok (reject_if (not (is_address x.address)) Error.invalid_sender) _ r₁ in
            let named = ids.0 e₁ in ((named.0, named.1, ground arith), rest.0 e₃),
        λ h. let (c, i, a) = h.0 in rw (ids.1 (c, i), a) (rest.1 h.1),
      )

  -- ValidateGenesis accepts exactly the states whose classes have names and whose NFTs and holders have a
  -- class, an id and an address.
  pub validate_genesis_iff :
      (g : GenesisState)
      → (validate_genesis is_address g ≡ ok tt)
        ↔ (All (λ c. c ≢ []) g.classes × (All IsEntry g.nfts × All IsEntry g.holders))
  unfolding validate_genesis
  validate_genesis_iff g =
      let classes = check_classes_iff g.classes in
      let nfts = check_entries_iff g.nfts in
      let holders = check_entries_iff g.holders in
      (
        λ e.
            let (e₁, r₁) = >>-eq-ok (check_classes g.classes) _ e in
            let (e₂, e₃) = >>-eq-ok (check_genesis_entries is_address g.nfts) _ r₁ in
            (classes.0 e₁, (nfts.0 e₂, holders.0 e₃)),
        λ (c, (n, o)). rw (classes.1 c, nfts.1 n) (holders.1 o),
      )

  -- ValidateBasic of the messages on the shares of an NFT: purchases, deposits and withdrawals need the
  -- NFT, a sender and a positive number of shares; a transfer also needs a receiver.
  validate_shares_iff :
      (m : MsgShares) (t : MsgTransferShares)
      → ((validate_shares is_address m ≡ ok tt)
          ↔ ((m.class_id ≢ []) × (m.id ≢ []) × (is_address m.sender ≡ true) × AtLeast 1 m.shares))
        × ((validate_transfer is_address t ≡ ok tt) ↔ (
            (t.class_id ≢ [])
            × (t.id ≢ [])
            × (is_address t.sender ≡ true)
            × (is_address t.receiver ≡ true)
            × AtLeast 1 t.shares))
  unfolding validate_shares validate_transfer
  validate_shares_iff m t =
      let ids = check_nft_id_iff m.class_id m.id in
      let amount = require_positive_iff m.shares Error.invalid_amount in
      let ids' = check_nft_id_iff t.class_id t.id in
      let amount' = require_positive_iff t.shares Error.invalid_amount in
      (
        (
          λ e.
              let (e₁, r₁) = >>-eq-ok (check_nft_id m.class_id m.id) _ e in
              let (e₂, e₃) =
                >>-eq-ok (reject_if (not (is_address m.sender)) Error.invalid_sender) _ r₁ in
              let named = ids.0 e₁ in (named.0, named.1, ground arith, amount.0 e₃),
          λ (c, i, a, n). rw (ids.1 (c, i), a) (amount.1 n),
        ),
        (
          λ e.
              let (e₁, r₁) = >>-eq-ok (check_nft_id t.class_id t.id) _ e in
              let (e₂, r₂) =
                >>-eq-ok (reject_if (not (is_address t.sender)) Error.invalid_sender) _ r₁ in
              let (e₃, e₄) =
                >>-eq-ok (reject_if (not (is_address t.receiver)) Error.invalid_receiver) _ r₂ in
              let named = ids'.0 e₁ in (named.0, named.1, ground arith, ground arith, amount'.0 e₄),
          λ (c, i, a, r, n). rw (ids'.1 (c, i), a, r) (amount'.1 n),
        ),
      )
