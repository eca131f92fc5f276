-- ===== src/ChainId/Laws.antt =====
-- Which texts are identifiers.
use flux_sdk_go.Common.{
  ℕ, ◌≤◌, ◌≡◌, refl, sym, ap, ◌∙◌, ◌≢◌, ◌↔◌, inl, inr, Bool, true, false, ◌&&◌, none, some, [], ◌∷◌,
  ◌++◌, ok, >>-eq-ok, or_err, or_err-eq-ok, reject_if, Bytes, bytes_eq, All, length, is_some,
  digits_value, ltb, Bool-cases, Option, Option-cases, ◌==◌, arith,
}
use mathlib.Core.Path.{subst}
use flux_sdk_go.ChainId.{
  Error, too_long, invalid_chain_id, not_base_10, is_lower, span_lower, all_digits, is_epoch,
  match_epoch, find_submatch, is_valid_chain_id, trim_space, parse_chain_id,
}

abbrev pub IsLetter : ℕ → Type 0
IsLetter c = (97 ≤ c) × (c ≤ 122)

abbrev pub IsDigit : ℕ → Type 0
IsDigit c = (48 ≤ c) × (c ≤ 57)

-- Digits, the first of which is not 0.
abbrev pub IsEpoch : Bytes → Type 0
IsEpoch [] = ⊥
IsEpoch (c ∷ s) = (49 ≤ c) × (c ≤ 57) × All IsDigit s

-- A name of letters, which may be empty, a dash and an epoch.
abbrev pub IsIdentifier : Bytes → Bytes → Bytes → Type 0
IsIdentifier name epoch s = (s ≡ name ++ (45 ∷ epoch)) × All IsLetter name × IsEpoch epoch

all_digits_iff : (s : Bytes) → (all_digits s ≡ true) ↔ All IsDigit s
unfolding all_digits
all_digits_iff [] = (λ e. tt, λ h. refl)
all_digits_iff (c ∷ s) =
    let rest = all_digits_iff s in
    (
      λ e. ((ground arith, ground arith), rest.0 (ground arith)),
      λ h. rw (rest.1 h.1) (ground (arith, h.0)),
    )

is_epoch_iff : (s : Bytes) → (is_epoch s ≡ true) ↔ IsEpoch s
unfolding is_epoch
is_epoch_iff [] = (λ e. cc, λ h. absurd h)
is_epoch_iff (c ∷ s) =
    let rest = all_digits_iff s in
    (
      λ e. (ground arith, ground arith, rest.0 (ground arith)),
      λ h. rw (rest.1 h.2) (ground (arith, h.0, h.1)),
    )

-- The run of letters that stands at the front, and what stands behind it.
span_lower-split :
    (s : Bytes) → (s ≡ (span_lower s).0 ++ (span_lower s).1) × All IsLetter (span_lower s).0
unfolding span_lower
span_lower-split [] = (refl, tt)
span_lower-split (c ∷ s) =
    let (split, letters) = span_lower-split s in
    elim (Bool-cases (is_lower c)) [
      | inl e ↦ rw e (ap (λ r. c ∷ r) split, ((ground arith, ground arith), letters))
      | inr e ↦ rw e (refl, tt)
    ]

span_lower-dash :
    (name epoch : Bytes)
    → All IsLetter name
    → span_lower (name ++ (45 ∷ epoch)) ≡ (name, 45 ∷ epoch)
unfolding span_lower
span_lower-dash [] epoch h = refl
span_lower-dash (c ∷ name) epoch h =
    let letter : is_lower c ≡ true = ground (arith, h.0) in
    rw (letter, span_lower-dash name epoch h.1) refl

match_epoch-eq-some :
    (run s name epoch : Bytes)
    → match_epoch run s ≡ some (name, epoch)
    → (run ≡ name) × (s ≡ 45 ∷ epoch) × IsEpoch epoch
unfolding match_epoch
match_epoch-eq-some run [] name epoch e = cc
match_epoch-eq-some run (c ∷ s) name epoch e = elim (Bool-cases (c == 45 && is_epoch s)) [
  | inl t ↦
      let e' = rw t at e in
      let dash : c ≡ 45 = ground arith in
      let same : s ≡ epoch = ground arith in
      (
        ground arith,
        ap (λ x. x ∷ s) dash ∙ ap (λ x. 45 ∷ x) same,
        subst IsEpoch same ((is_epoch_iff s).0 (ground arith)),
      )
  | inr f ↦ let e' = rw f at e in cc
]

find_submatch_iff :
    (s name epoch : Bytes) → (find_submatch s ≡ some (name, epoch)) ↔ IsIdentifier name epoch s
unfolding find_submatch match_epoch
find_submatch_iff s name epoch = (
  λ e.
      let (same, rest, valid) =
        match_epoch-eq-some (span_lower s).0 (span_lower s).1 name epoch e in
      let (split, letters) = span_lower-split s in
      (
        split ∙ ap (λ r. r ++ (span_lower s).1) same ∙ ap (λ r. name ++ r) rest,
        subst (All IsLetter) same letters,
        valid,
      ),
  λ (split, letters, valid).
      subst (λ x. find_submatch x ≡ some (name, epoch)) (sym split)
        (rw (span_lower-dash name epoch letters, (is_epoch_iff epoch).1 valid) refl),
)

is_some-cases :
    (s : Bytes)
    → (is_some (find_submatch s) ≡ true)
      ↔ ((name : Bytes) × (epoch : Bytes) × IsIdentifier name epoch s)
is_some-cases s = (
  λ e. elim (Option-cases (find_submatch s)) [
    | inl none_found ↦ let e' = rw none_found at e in cc
    | inr ((name, epoch), found) ↦ (name, epoch, (find_submatch_iff s name epoch).0 found)
  ],
  λ (name, epoch, h). rw ((find_submatch_iff s name epoch).1 h) refl,
)

valid_iff :
    (s : Bytes)
    → (is_valid_chain_id s ≡ true)
      ↔ ((length s ≤ 48) × ((name : Bytes) × (epoch : Bytes) × IsIdentifier name epoch s))
unfolding is_valid_chain_id
valid_iff s = elim (Bool-cases (ltb 48 (length s))) [
  | inl long ↦ rw long (λ e. cc, λ h. absurd (ground (arith, h.0)))
  | inr short ↦ rw short (λ e. (ground arith, (is_some-cases s).0 e), λ h. (is_some-cases s).1 h.1)
]

bytes_eq-nil : (s : Bytes) → (s ≢ []) ↔ (bytes_eq s [] ≡ false)
bytes_eq-nil [] = (λ h. absurd (h refl), λ e. cc)
bytes_eq-nil (c ∷ s) = (λ h. refl, λ e p. cc)

reject_if-passes : (b : Bool) (x : Error) → reject_if b x ≡ ok tt → b ≡ false
reject_if-passes true x e = cc
reject_if-passes false x e = refl

or_err-found : (o : Option ℕ) (x : Error) (n : ℕ) → (or_err o x ≡ ok n) ↔ (o ≡ some n)
or_err-found none x n = (λ e. cc, λ e. cc)
or_err-found (some m) x n = (λ e. ground arith, λ e. ground arith)

-- The chain identifiers. IsValidChainID accepts a text exactly when it is at most 48 bytes and is a name of letters,
-- which may be empty, a dash, and an epoch of digits that does not begin with 0. ParseChainID answers a number exactly
-- when the text without the spaces around it is such a text, its name is not empty, and the number is the one
-- that the epoch writes.
pub chain_id_iff :
    (s : Bytes)
    → ((is_valid_chain_id s ≡ true)
        ↔ ((length s ≤ 48) × ((name : Bytes) × (epoch : Bytes) × IsIdentifier name epoch s)))
      × ((n : ℕ)
          → (parse_chain_id s ≡ ok n) ↔ (
              (name : Bytes) × (epoch : Bytes) × IsIdentifier name epoch (trim_space s)
              × (length (trim_space s) ≤ 48)
              × (name ≢ [])
              × (digits_value 0 epoch ≡ some n)))
unfolding parse_chain_id
chain_id_iff s = (
  valid_iff s,
  λ n. (
    λ e.
        let (short, e₁) = >>-eq-ok (reject_if (ltb 48 (length (trim_space s))) too_long) _ e in
        let ((name, epoch), found, e₂) =
          or_err-eq-ok (find_submatch (trim_space s)) invalid_chain_id _ e₁ in
        let (named, e₃) = >>-eq-ok (reject_if (bytes_eq name []) invalid_chain_id) _ e₂ in
        (
          name,
          epoch,
          (find_submatch_iff (trim_space s) name epoch).0 found,
          ground (arith, reject_if-passes _ _ short),
          (bytes_eq-nil name).1 (reject_if-passes _ _ named),
          (or_err-found (digits_value 0 epoch) not_base_10 n).0 e₃,
        ),
    λ (name, epoch, h, short, named, valued).
        let fits : ltb 48 (length (trim_space s)) ≡ false = ground (arith, short) in
        rw
          (
            fits,
            (find_submatch_iff (trim_space s) name epoch).1 h,
            (bytes_eq-nil name).0 named,
            valued,
          )
          refl,
  ),
)
