-- ===== src/Svm/Validate/Laws.antt =====
-- What MsgTransaction.ValidateBasic accepts, against a description that does not run its loops.
use flux_sdk_go.Common.{
  ℕ, ◌^◌, ◌≤◌, ◌<◌, ◌≡◌, refl, sym, ap, ◌∙◌, ◌≢◌, ◌↔◌, String, eq_iff, false, Option, none, some,
  List, [], ◌∷◌, ◌++◌, length, length-append, All, ok, >>-eq-ok, ◌==◌, if◌then◌else◌, find_index,
  find_index-append, find_index-found, or_later, arith,
}
use mathlib.Core.List.{append_assoc}
use flux_sdk_go.Svm.Validate.{
  InstructionAccount, Instruction, MsgTransaction, check_signers, contains, check_distinct,
  callee_lookup, callee_insert, check_ix_account, check_ix_accounts, check_instructions,
  validate_basic,
}

-- The first position of an account of index `id` in an instruction.
abbrev pub first_position : ℕ → List InstructionAccount → Option ℕ
first_position id accs = find_index (λ a. a.id_index == id) accs

-- An account of the instruction `all`, in a transaction of `n` accounts: its indices are at most the
-- lengths of their lists, and the callee index is where the account first stands.
pub record IsPlaced (n : ℕ) (all : List InstructionAccount) (a : InstructionAccount) : Type 0 where
  pub id_bound : a.id_index ≤ n
  pub caller_bound : a.caller_index ≤ n
  pub callee_bound : a.callee_index ≤ length all
  pub first : first_position a.id_index all ≡ some a.callee_index

abbrev pub NotIn : String → List String → Type 0
NotIn s = All (λ t. t ≢ s)

-- No text stands twice.
abbrev pub AreDistinct : List String → Type 0
AreDistinct [] = Unit {0}
AreDistinct (s ∷ rest) = NotIn s rest × AreDistinct rest

-- `seen` is the map that the loop has built from the accounts `before`.
abbrev IsFirstOf : List (ℕ × ℕ) → List InstructionAccount → Type 0
IsFirstOf m before = (id : ℕ) → callee_lookup id m ≡ first_position id before

callee_lookup-insert :
    (id idx k : ℕ) (m : List (ℕ × ℕ))
    → idx < 2 ^ 32
    → callee_lookup k (callee_insert id idx m)
      ≡ or_later (callee_lookup k m) idx (if id == k then some 0 else none)
unfolding callee_insert callee_lookup
callee_lookup-insert id idx k m h = ground arith

-- One more account keeps the map in step with what the loop has passed.
IsFirstOf-insert :
    (m : List (ℕ × ℕ)) (before : List InstructionAccount) (a : InstructionAccount)
    → length before < 2 ^ 32
    → IsFirstOf m before
    → IsFirstOf (callee_insert a.id_index (length before) m) (before ++ (a ∷ []))
IsFirstOf-insert m before a h first k =
    callee_lookup-insert a.id_index (length before) k m h
    ∙ rw (first k, find_index-append (λ b. b.id_index == k) before (a ∷ [])) (ground arith)

-- At an account of the list the extended map holds where the account first stands in the list.
callee_lookup-first_position :
    (m : List (ℕ × ℕ)) (before rest : List InstructionAccount) (a : InstructionAccount)
    → length before < 2 ^ 32
    → IsFirstOf m before
    → (v : ℕ) × (callee_lookup a.id_index (callee_insert a.id_index (length before) m) ≡ some v)
      × (first_position a.id_index (before ++ (a ∷ rest)) ≡ some v)
callee_lookup-first_position m before rest a h first =
    let (v, now, later) =
      find_index-found (λ b. b.id_index == a.id_index) before rest a (ground arith) in
    (v, IsFirstOf-insert m before a h first a.id_index ∙ now, later)

-- The checks of one account are its placement, once the map holds its first position.
check_ix_account_iff :
    (n : ℕ) (all : List InstructionAccount) (m : List (ℕ × ℕ)) (a : InstructionAccount) (v : ℕ)
    → n < 2 ^ 32
    → length all < 2 ^ 32
    → callee_lookup a.id_index m ≡ some v
    → first_position a.id_index all ≡ some v
    → (check_ix_account n (length all) m a ≡ ok tt) ↔ IsPlaced n all a
unfolding check_ix_account
check_ix_account_iff n all m a v hn hall now later = (λ e. ground arith, λ p. ground arith)

-- The loop over `rest`, `before` being what it has passed.
check_ix_accounts_iff :
    (n : ℕ) (all : List InstructionAccount) (m : List (ℕ × ℕ))
    (before rest : List InstructionAccount)
    → n < 2 ^ 32
    → length all < 2 ^ 32
    → before ++ rest ≡ all
    → IsFirstOf m before
    → (check_ix_accounts n (length all) m (length before) rest ≡ ok tt) ↔ All (IsPlaced n all) rest
unfolding check_ix_accounts
check_ix_accounts_iff n all m before [] hn hall e first = (λ _. tt, λ _. refl)
check_ix_accounts_iff n all m before (a ∷ rest) hn hall e first =
    let short : length before < 2 ^ 32 =
      omega (arith, length-append {0} before (a ∷ rest), ap length e) in
    let m' = callee_insert a.id_index (length before) m in
    let (v, now, later) = callee_lookup-first_position m before rest a short first in
    let here = check_ix_account_iff n all m' a v hn hall now (rw (← e) later) in
    let there =
      check_ix_accounts_iff n all m' (before ++ (a ∷ [])) rest hn hall
        (append_assoc before (a ∷ []) rest ∙ e) (IsFirstOf-insert m before a short first) in
    let there' = rw (length-append before (a ∷ [])) at there in
    (
      λ h. let (one, others) = >>-eq-ok _ _ h in (here.0 one, there'.0 others),
      λ p. rw (here.1 p.0) (there'.1 p.1),
    )

check_instructions_iff :
    (n : ℕ) (ixs : List Instruction)
    → n < 2 ^ 32
    → All (λ ix. length ix.accounts < 2 ^ 32) ixs
    → (check_instructions n ixs ≡ ok tt) ↔ All (λ ix. All (IsPlaced n ix.accounts) ix.accounts) ixs
unfolding check_instructions
check_instructions_iff n [] hn h = (λ _. tt, λ _. refl)
check_instructions_iff n (ix ∷ ixs) hn h =
    let here =
      check_ix_accounts_iff n ix.accounts [] [] ix.accounts hn h.0 refl
        (λ id. unfold callee_lookup in refl) in
    let there = check_instructions_iff n ixs hn h.1 in
    (
      λ e. let (one, others) = >>-eq-ok _ _ e in (here.0 one, there.0 others),
      λ p. rw (here.1 p.0) (there.1 p.1),
    )

pub check_signers_iff :
    (parse : String → Option (List ℕ)) (signers : List String)
    → (check_signers parse signers ≡ ok tt) ↔ All (λ s. parse s ≢ none) signers
unfolding check_signers
check_signers_iff parse [] = (λ _. tt, λ _. refl)
check_signers_iff parse (s ∷ rest) = ground (arith, check_signers_iff parse rest)

contains_iff : (s : String) (seen : List String) → (contains s seen ≡ false) ↔ NotIn s seen
unfolding contains
contains_iff s [] = (λ _. tt, λ _. refl)
contains_iff s (t ∷ seen) = ground (arith, contains_iff s seen, eq_iff t s)

All-NotIn-cons :
    (s : String) (seen rest : List String)
    → All (λ t. NotIn t (s ∷ seen)) rest ↔ (All (λ t. NotIn t seen) rest × NotIn s rest)
All-NotIn-cons s seen [] = (λ _. (tt, tt), λ _. tt)
All-NotIn-cons s seen (t ∷ rest) =
    let (go, back) = All-NotIn-cons s seen rest in
    (
      λ h. let (p, q) = go h.1 in ((h.0.1, p), (λ e. h.0.0 (sym e), q)),
      λ h. ((λ e. h.1.0 (sym e), h.0.0), back (h.0.1, h.1.1)),
    )

All-NotIn-nil : (accounts : List String) → All (λ s. NotIn s []) accounts
All-NotIn-nil [] = tt
All-NotIn-nil (s ∷ rest) = (tt, All-NotIn-nil rest)

check_distinct_iff :
    (seen accounts : List String)
    → (check_distinct seen accounts ≡ ok tt)
      ↔ (All (λ s. NotIn s seen) accounts × AreDistinct accounts)
unfolding check_distinct
check_distinct_iff seen [] = (λ _. (tt, tt), λ _. refl)
check_distinct_iff seen (s ∷ rest) =
    let there = check_distinct_iff (s ∷ seen) rest in
    let spread = All-NotIn-cons s seen rest in
    let here = contains_iff s seen in
    (
      λ e.
          let (one, others) = >>-eq-ok _ _ e in
          let (apart, distinct) = there.0 others in
          let (p, q) = spread.0 apart in ((here.0 (ground arith), p), (q, distinct)),
      λ h. rw (here.1 h.0.0) (there.1 (spread.1 (h.0.1, h.1.0), h.1.1)),
    )

pub validate_basic_parts :
    (parse : String → Option (List ℕ)) (m : MsgTransaction)
    → (validate_basic parse m ≡ ok tt) ↔ (
        (check_signers parse m.signers ≡ ok tt)
        × (m.compute_budget ≢ 0)
        × (m.accounts ≢ [])
        × (m.instructions ≢ [])
        × (check_distinct [] m.accounts ≡ ok tt)
        × (check_instructions (length m.accounts) m.instructions ≡ ok tt))
unfolding validate_basic
validate_basic_parts parse m = ground arith

-- What the basic checks of a transaction promise to the code behind them.
pub record IsWellFormed (parse : String → Option (List ℕ)) (m : MsgTransaction) : Type 0 where
  pub signers_parse : All (λ s. parse s ≢ none) m.signers
  pub has_budget : m.compute_budget ≢ 0
  pub has_accounts : m.accounts ≢ []
  pub has_instructions : m.instructions ≢ []
  pub accounts_distinct : AreDistinct m.accounts
  pub placed : All (λ ix. All (IsPlaced (length m.accounts) ix.accounts) ix.accounts) m.instructions

-- ValidateBasic accepts a transaction exactly when its signers parse, its budget is not zero, it has
-- accounts and instructions, no account stands twice, and in every instruction each account has its
-- id and caller index at most the number of the transaction's accounts and its callee index where
-- the same id first stands in the instruction. The lists are shorter than 2 ^ 32, so that no
-- conversion to uint32 wraps.
pub validate_basic_iff :
    (parse : String → Option (List ℕ)) (m : MsgTransaction)
    → length m.accounts < 2 ^ 32
    → All (λ ix. length ix.accounts < 2 ^ 32) m.instructions
    → (validate_basic parse m ≡ ok tt) ↔ IsWellFormed parse m
validate_basic_iff parse m hn h =
    let signers = check_signers_iff parse m.signers in
    let distinct = check_distinct_iff [] m.accounts in
    let placed = check_instructions_iff (length m.accounts) m.instructions hn h in
    let parts = validate_basic_parts parse m in
    (
      λ e.
          let (s, budget, accounts, instructions, d, p) = parts.0 e in
          record {
            signers_parse = signers.0 s;
            has_budget = budget;
            has_accounts = accounts;
            has_instructions = instructions;
            accounts_distinct = (distinct.0 d).1;
            placed = placed.0 p;
          },
      λ w. parts.1 (
        signers.1 w.signers_parse,
        w.has_budget,
        w.has_accounts,
        w.has_instructions,
        distinct.1 (All-NotIn-nil m.accounts, w.accounts_distinct),
        placed.1 w.placed,
      ),
    )
