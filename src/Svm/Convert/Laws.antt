-- ===== src/Svm/Convert/Laws.antt =====
-- What the builder makes, the basic checks and the decorator accept.
use flux_sdk_go.Common.{
  ℕ, suc, ◌^◌, ◌<◌, ◌≡◌, refl, sym, ap, ◌∙◌, ◌≢◌, String, Option, none, some, List, [], ◌∷◌, map,
  length, All, IsIn, find_index-lt, find_index-passes, find_index-map, length-map, All-map,
  All-of_members, All-member, All-imp, ne-nil-of_length, map-ne-nil, ok, ◌==◌, ==-eq, arith,
}
use flux_sdk_go.Svm.Validate.{Instruction, MsgTransaction, validate_basic}
use flux_sdk_go.Svm.Validate.Laws.{AreDistinct, IsPlaced, validate_basic_iff}
use flux_sdk_go.Svm.Ante.Panics.{HasCallers}
use flux_sdk_go.Svm.Convert.{
  Solana, uint32_of, AccountMeta, CompiledInstruction, Transaction, position_of,
  position_of_pubkey_in_account_metas, to_instruction_account, to_instruction, to_instructions,
  to_cosmos_msg,
}

module _ (sol : Solana) where
  open sol use {PublicKey, equals, equals_iff, to_string, to_string_injective}

  abbrev pub AreDistinctKeys : List PublicKey → Type 0
  AreDistinctKeys [] = Unit {0}
  AreDistinctKeys (a ∷ rest) = All (λ b. b ≢ a) rest × AreDistinctKeys rest

  -- An instruction whose accounts resolve to keys of the transaction.
  pub record Resolves (keys : List PublicKey) (ix : CompiledInstruction sol) : Type 0 where
    pub metas : List (AccountMeta sol)
    pub found : ix.resolved ≡ some metas
    pub listed : All (λ a. IsIn a.public_key keys) metas
    pub short : length metas < 2 ^ 32

  -- Keys found at one position are one key.
  position_of-injective :
      (a b : PublicKey) (keys : List PublicKey) (i : ℕ)
      → position_of sol a keys ≡ some i
      → position_of sol b keys ≡ some i
      → a ≡ b
  unfolding position_of
  position_of-injective a b keys i p q =
      let (x, at_x, is_a) = find_index-passes (λ pk. equals pk a) keys i p in
      let (y, at_y, is_b) = find_index-passes (λ pk. equals pk b) keys i q in
      sym ((equals_iff x a).0 is_a) ∙ same x y (sym at_x ∙ at_y) ∙ (equals_iff y b).0 is_b
    where
      same : (x y : PublicKey) → some x ≡ some y → x ≡ y
      same x y e = cc

  position_of-found :
      (a : PublicKey) (keys : List PublicKey)
      → IsIn a keys
      → (i : ℕ) × (position_of sol a keys ≡ some i) × (i < length keys)
  unfolding position_of
  position_of-found a keys m = find_index-lt (λ pk. equals pk a) keys a m ((equals_iff a a).1 refl)

  -- Accounts of an instruction have one index exactly when they have one key.
  index-key :
      (keys : List PublicKey) (metas : List (AccountMeta sol)) (a b : AccountMeta sol)
      → length keys < 2 ^ 32
      → IsIn a.public_key keys
      → IsIn b.public_key keys
      → ((to_instruction_account sol keys metas b).id_index
          == (to_instruction_account sol keys metas a).id_index)
        ≡ equals b.public_key a.public_key
  unfolding to_instruction_account
  index-key keys metas a b short in_a in_b =
      let (i, at_a, lt_a) = position_of-found a.public_key keys in_a in
      let (j, at_b, lt_b) = position_of-found b.public_key keys in_b in
      ==-eq (uint32_of (position_of sol b.public_key keys))
        (uint32_of (position_of sol a.public_key keys)) (equals b.public_key a.public_key)
        (λ t. ap (λ k. uint32_of (position_of sol k keys)) ((equals_iff _ _).0 t))
        (λ e. (equals_iff b.public_key a.public_key).1 (
          position_of-injective b.public_key a.public_key keys i
            (at_b ∙ ap some (indices at_a at_b lt_a lt_b e)) at_a))
    where
      indices :
          {i j : ℕ}
          → position_of sol a.public_key keys ≡ some i
          → position_of sol b.public_key keys ≡ some j
          → i < length keys
          → j < length keys
          → uint32_of (position_of sol b.public_key keys)
            ≡ uint32_of (position_of sol a.public_key keys)
          → j ≡ i
      indices p q hi hj e = ground arith

  index-key-All :
      (keys : List PublicKey) (metas rest : List (AccountMeta sol)) (a : AccountMeta sol)
      → length keys < 2 ^ 32
      → IsIn a.public_key keys
      → All (λ b. IsIn b.public_key keys) rest
      → All
          (λ b.
            ((to_instruction_account sol keys metas b).id_index
              == (to_instruction_account sol keys metas a).id_index)
            ≡ equals b.public_key a.public_key)
          rest
  index-key-All keys metas [] a short in_a h = tt
  index-key-All keys metas (b ∷ rest) a short in_a h =
      (index-key keys metas a b short in_a h.0, index-key-All keys metas rest a short in_a h.1)

  -- The builder's indices are placed as the basic checks want them.
  to_instruction_account-IsPlaced :
      (keys : List PublicKey) (metas : List (AccountMeta sol)) (a : AccountMeta sol)
      → length keys < 2 ^ 32
      → length metas < 2 ^ 32
      → All (λ b. IsIn b.public_key keys) metas
      → IsIn a metas
      → IsIn a.public_key keys
      → IsPlaced
          (length keys)
          (map (to_instruction_account sol keys metas) metas)
          (to_instruction_account sol keys metas a)
        × ((to_instruction_account sol keys metas a).caller_index < length keys)
  unfolding to_instruction_account position_of_pubkey_in_account_metas
  to_instruction_account-IsPlaced keys metas a short short' all in_metas in_keys =
      let (i, at, lt) = position_of-found a.public_key keys in_keys in
      let (c, first, lt') =
        find_index-lt (λ meta. equals meta.public_key a.public_key) metas a in_metas
          ((equals_iff a.public_key a.public_key).1 refl) in
      let moved =
        find_index-map (λ b. equals b.public_key a.public_key)
          (λ x. x.id_index == (to_instruction_account sol keys metas a).id_index)
          (to_instruction_account sol keys metas) metas
          (index-key-All keys metas metas a short in_keys all) in
      let same_length = length-map (to_instruction_account sol keys metas) metas in
      (
        record {
          id_bound = rw at (omega arith);
          caller_bound = rw at (omega arith);
          callee_bound = rw (first, same_length) (omega arith);
          first = moved ∙ first ∙ rw first (ap some (omega arith));
        },
        rw at (omega arith),
      )

  to_instruction-IsPlaced :
      (keys : List PublicKey) (ix : CompiledInstruction sol) (metas : List (AccountMeta sol))
      → length keys < 2 ^ 32
      → length metas < 2 ^ 32
      → All (λ b. IsIn b.public_key keys) metas
      → All
          (λ x.
            IsPlaced (length keys) (to_instruction sol keys ix metas).accounts x
            × (x.caller_index < length keys))
          (to_instruction sol keys ix metas).accounts
  unfolding to_instruction
  to_instruction-IsPlaced keys ix metas short short' all =
      All-map _ (to_instruction_account sol keys metas) metas (
        All-of_members _ metas λ a m.
          to_instruction_account-IsPlaced keys metas a short short' all m
            (All-member (λ b. IsIn b.public_key keys) metas a all m))

  AreDistinct-map :
      (keys : List PublicKey) → AreDistinctKeys keys → AreDistinct (map to_string keys)
  AreDistinct-map [] h = tt
  AreDistinct-map (a ∷ rest) h =
      (All-map _ to_string rest (apart rest h.0), AreDistinct-map rest h.1)
    where
      apart : (bs : List PublicKey) → All (λ b. b ≢ a) bs → All (λ b. to_string b ≢ to_string a) bs
      apart [] k = tt
      apart (b ∷ bs) k = (λ e. k.0 (to_string_injective b a e), apart bs k.1)

  abbrev HasPlaces : List PublicKey → Instruction → Type 0
  HasPlaces keys ix =
      All (λ x. IsPlaced (length keys) ix.accounts x × (x.caller_index < length keys)) ix.accounts
      × (length ix.accounts < 2 ^ 32)

  to_instructions-IsPlaced :
      (keys : List PublicKey) (ixs : List (CompiledInstruction sol))
      → length keys < 2 ^ 32
      → All (Resolves keys) ixs
      → (out : List Instruction) × (to_instructions sol keys ixs ≡ ok out)
        × All (HasPlaces keys) out
        × (length out ≡ length ixs)
  unfolding to_instructions
  to_instructions-IsPlaced keys [] short h = ([], refl, tt, refl)
  to_instructions-IsPlaced keys (ix ∷ rest) short h =
      let r = h.0 in
      let (out, made, placed, same) = to_instructions-IsPlaced keys rest short h.1 in
      (
        to_instruction sol keys ix r.metas ∷ out,
        rw (r.found, made) refl,
        (
          (to_instruction-IsPlaced keys ix r.metas short r.short r.listed, short_instruction),
          placed,
        ),
        ap suc same,
      )
    where
      short_instruction : length (to_instruction sol keys ix h.0.metas).accounts < 2 ^ 32
      short_instruction =
          unfold to_instruction in
          omega (
            arith,
            length-map {0, 0} (to_instruction_account sol keys h.0.metas) h.0.metas,
            h.0.short,
          )

  -- A Solana transaction that the library could have built: its keys are distinct and its
  -- instructions resolve to them.
  pub record IsCompiled (tx : Transaction sol) : Type 0 where
    pub distinct : AreDistinctKeys tx.account_keys
    pub short : length tx.account_keys < 2 ^ 32
    pub has_keys : tx.account_keys ≢ []
    pub has_instructions : tx.instructions ≢ []
    pub resolves : All (Resolves tx.account_keys) tx.instructions

-- On a compiled transaction, with signers that parse and a budget that is not zero, the builder
-- answers a message that passes ValidateBasic and has an account at each caller index.
pub to_cosmos_msg-validate_basic :
    (sol : Solana) (parse : String → Option (List ℕ)) (signers : List String) (budget : ℕ)
    (tx : Transaction sol)
    → IsCompiled sol tx
    → All (λ s. parse s ≢ none) signers
    → budget ≢ 0
    → (m : MsgTransaction) × (to_cosmos_msg sol signers budget tx ≡ ok m)
      × (validate_basic parse m ≡ ok tt)
      × HasCallers m
unfolding to_cosmos_msg
to_cosmos_msg-validate_basic sol parse signers budget tx c ps pos =
    let (out, made, placed, same) =
      to_instructions-IsPlaced sol tx.account_keys tx.instructions c.short c.resolves in
    let strings = map (sol.to_string) tx.account_keys in
    let count : length strings ≡ length tx.account_keys =
      length-map sol.to_string tx.account_keys in
    let m : MsgTransaction = record {
      signers = signers;
      accounts = strings;
      instructions = out;
      compute_budget = budget;
    } in
    (
      m,
      rw made refl,
      (validate_basic_iff parse m (omega (arith, count, c.short))
            (All-imp _ _ out (λ ix p. p.1) placed)).1
          (record {
            signers_parse = ps;
            has_budget = pos;
            has_accounts = map-ne-nil sol.to_string tx.account_keys c.has_keys;
            has_instructions = ne-nil-of_length tx.instructions out same c.has_instructions;
            accounts_distinct = AreDistinct-map sol tx.account_keys c.distinct;
            placed =
                rw count
                  (All-imp _ _ out (λ ix p. All-imp _ _ ix.accounts (λ x q. q.0) p.0) placed);
          }),
      rw count (All-imp _ _ out (λ ix p. All-imp _ _ ix.accounts (λ x q. q.1) p.0) placed),
    )
