-- ===== src/ChainId/Generate.antt =====
-- GenerateRandomChainID, and the digits of a number.
use flux_sdk_go.Common.{
  ℕ, zero, suc, ◌+◌, ◌-◌, ◌^◌, ◌*◌, ◌/◌, ◌%◌, ◌≤◌, ◌<◌, ◌≡◌, refl, sym, ap, ◌∙◌, inl, inr, Bool,
  true, false, ◌||◌, ◌&&◌, some, List, [], ◌∷◌, ◌++◌, ok, Bytes, All, length, length-append,
  cut_prefix, is_some, map, digits_value, is_digit, ltb, Bool-cases, ◌==◌, arith,
}
use mathlib.Core.Path.{subst}
use mathlib.Core.List.{reverse, reverse-append, reverse-reverse, append_assoc}
use flux_sdk_go.ChainId.{
  is_valid_chain_id, spaces, space_width, skip_spaces, trim_space, parse_chain_id, decimal_digits,
  decimal, generate_chain_id,
}
use flux_sdk_go.ChainId.Laws.{IsLetter, IsDigit, IsEpoch, chain_id_iff}

-- One more digit.
digits_value-append :
    (acc : ℕ) (s : Bytes) (n d : ℕ)
    → digits_value acc s ≡ some n
    → d < 10
    → digits_value acc (s ++ ((48 + d) ∷ [])) ≡ some (n * 10 + d)
unfolding digits_value
digits_value-append acc [] n d e h =
    let digit : is_digit (48 + d) ≡ true = ground (arith, h) in rw digit (ground arith)
digits_value-append acc (c ∷ s) n d e h = elim (Bool-cases (is_digit c)) [
  | inl t ↦ rw t (digits_value-append (acc * 10 + (c - 48)) s n d (rw t at e) h)
  | inr f ↦ let e' = rw f at e in cc
]

All-append : (s : Bytes) (d : ℕ) → All IsDigit s → d < 10 → All IsDigit (s ++ ((48 + d) ∷ []))
All-append [] d h small = ((omega arith, omega arith), tt)
All-append (c ∷ s) d h small = (h.0, All-append s d h.1 small)

-- The digits of a number are digits that write it.
decimal_digits-value :
    (fuel n : ℕ)
    → n < fuel
    → All IsDigit (decimal_digits fuel n) × (digits_value 0 (decimal_digits fuel n) ≡ some n)
unfolding decimal_digits digits_value
decimal_digits-value zero n h = absurd (omega arith)
decimal_digits-value (suc fuel) n h = elim (Bool-cases (ltb n 10)) [
  | inl small ↦
      let below : n < 10 = ground arith in
      let digit : is_digit (48 + n) ≡ true = ground (arith, below) in
      rw small (((omega arith, omega arith), tt), rw digit (ap some (omega arith)))
  | inr large ↦
      let above : 10 ≤ n = ground arith in
      let (digits, value) = decimal_digits-value fuel (n / 10) (omega arith) in
      rw large (
        All-append (decimal_digits fuel (n / 10)) (n % 10) digits (omega arith),
        digits_value-append 0 (decimal_digits fuel (n / 10)) (n / 10) (n % 10) value (omega arith)
            ∙ ap some (omega arith),
      )
]

-- The first digit of a number that is not 0.
decimal_digits-first :
    (fuel n : ℕ)
    → n < fuel
    → 0 < n
    → (c : ℕ) × (s : Bytes) × (decimal_digits fuel n ≡ c ∷ s) × (49 ≤ c)
unfolding decimal_digits
decimal_digits-first zero n h p = absurd (omega arith)
decimal_digits-first (suc fuel) n h p = elim (Bool-cases (ltb n 10)) [
  | inl small ↦ rw small (48 + n, [], refl, omega arith)
  | inr large ↦
      let above : 10 ≤ n = ground arith in
      let (c, s, e, first) = decimal_digits-first fuel (n / 10) (omega arith) (omega arith) in
      rw (large, e) (c, s ++ ((48 + n % 10) ∷ []), refl, first)
]

length-decimal_digits : (k fuel n : ℕ) → n < 10 ^ suc k → length (decimal_digits fuel n) ≤ suc k
unfolding decimal_digits
length-decimal_digits k zero n h = omega arith
length-decimal_digits zero (suc fuel) n h =
    let small : ltb n 10 ≡ true = ground (arith, h) in rw small (omega arith)
length-decimal_digits (suc k) (suc fuel) n h = elim (Bool-cases (ltb n 10)) [
  | inl small ↦ rw small (omega arith)
  | inr large ↦
      let shorter = length-decimal_digits k fuel (n / 10) (omega (arith, h)) in
      rw large
        (omega (arith, shorter, length-append (decimal_digits fuel (n / 10)) ((48 + n % 10) ∷ [])))
]

-- The bytes that no space begins or ends with, digits and letters among them.
abbrev IsPlain : ℕ → Type 0
IsPlain c = (48 ≤ c) × (c ≤ 122)

abbrev all_outside : List Bytes → Bool
all_outside [] = true
all_outside ([] ∷ sps) = false
all_outside ((b ∷ sp) ∷ sps) = (ltb b 48 || ltb 122 b) && all_outside sps

cut_prefix-plain :
    (b : ℕ) (sp : Bytes) (c : ℕ) (s : Bytes)
    → (ltb b 48 || ltb 122 b) ≡ true
    → IsPlain c
    → is_some (cut_prefix (b ∷ sp) (c ∷ s)) ≡ false
unfolding cut_prefix
cut_prefix-plain b sp c s e h =
    let other : (b == c) ≡ false = ground (arith, h.0, h.1) in rw other refl

space_width-plain :
    (sps : List Bytes) (c : ℕ) (s : Bytes)
    → all_outside sps ≡ true
    → IsPlain c
    → space_width sps (c ∷ s) ≡ 0
unfolding space_width
space_width-plain [] c s e h = refl
space_width-plain ([] ∷ sps) c s e h = cc
space_width-plain ((b ∷ sp) ∷ sps) c s e h =
    let here = cut_prefix-plain b sp c s (ground arith) h in
    rw here (space_width-plain sps c s (ground arith) h)

skip_spaces-plain :
    (sps : List Bytes) (c : ℕ) (s : Bytes)
    → all_outside sps ≡ true
    → IsPlain c
    → skip_spaces sps zero (c ∷ s) ≡ c ∷ s
unfolding skip_spaces
skip_spaces-plain sps c s e h = rw (space_width-plain sps c s e h) refl

-- The last byte of a text of digits.
last-IsDigit :
    (c : ℕ) (s : Bytes)
    → All IsDigit (c ∷ s)
    → (d : ℕ) × (r : Bytes) × (c ∷ s ≡ r ++ (d ∷ [])) × IsDigit d
last-IsDigit c [] h = (c, [], refl, h.0)
last-IsDigit c (b ∷ s) h =
    let (d, r, e, digit) = last-IsDigit b s h.1 in (d, c ∷ r, ap (λ x. c ∷ x) e, digit)

-- TrimSpace keeps a text that begins with a letter and ends with digits.
trim_space-kept :
    (a : ℕ) (s : Bytes) (c : ℕ) (d : Bytes)
    → IsLetter a
    → All IsDigit (c ∷ d)
    → trim_space (a ∷ (s ++ (c ∷ d))) ≡ a ∷ (s ++ (c ∷ d))
unfolding trim_space
trim_space-kept a s c d letter h =
    let (last, r, e, digit) = last-IsDigit c d h in
    let text = a ∷ (s ++ (c ∷ d)) in
    let split : text ≡ (a ∷ (s ++ r)) ++ (last ∷ []) =
      ap (λ x. a ∷ (s ++ x)) e ∙ sym (append_assoc (a ∷ s) r (last ∷ [])) in
    let back : reverse text ≡ last ∷ reverse (a ∷ (s ++ r)) =
      ap reverse split ∙ reverse-append (a ∷ (s ++ r)) (last ∷ []) in
    let kept =
      ap (skip_spaces (map reverse spaces) zero) back
      ∙ skip_spaces-plain (map reverse spaces) last (reverse (a ∷ (s ++ r))) refl
          (omega (arith, digit.0), omega (arith, digit.1))
      ∙ sym back in
    ap (λ x. reverse (skip_spaces (map reverse spaces) zero (reverse x)))
      (skip_spaces-plain spaces a (s ++ (c ∷ d)) refl (omega (arith, letter.0), letter.1))
    ∙ ap reverse kept
    ∙ reverse-reverse text

decimal-IsEpoch : (c : ℕ) (d : Bytes) → All IsDigit (c ∷ d) → 49 ≤ c → IsEpoch (c ∷ d)
decimal-IsEpoch c d h first = (first, h.0.1, h.1)

-- A name of letters, a dash and the decimal digits of a number that is not 0, together at most 48 bytes, are an
-- identifier that IsValidChainID accepts, and ParseChainID reads the number back.
pub parse_chain_id-decimal :
    (a : ℕ) (name : Bytes) (n : ℕ)
    → All IsLetter (a ∷ name)
    → 0 < n
    → length ((a ∷ name) ++ (45 ∷ decimal n)) ≤ 48
    → (is_valid_chain_id ((a ∷ name) ++ (45 ∷ decimal n)) ≡ true)
      × (parse_chain_id ((a ∷ name) ++ (45 ∷ decimal n)) ≡ ok n)
parse_chain_id-decimal a name n letters p short =
    let (digits, value) = decimal_digits-value (suc n) n (omega arith) in
    let (c, d, e, first) = decimal_digits-first (suc n) n (omega arith) p in
    let epoch = subst IsEpoch (sym e) (decimal-IsEpoch c d (subst (All IsDigit) e digits) first) in
    let trimmed : trim_space ((a ∷ name) ++ (45 ∷ decimal n)) ≡ (a ∷ name) ++ (45 ∷ decimal n) =
      subst (λ x. trim_space ((a ∷ name) ++ (45 ∷ x)) ≡ (a ∷ name) ++ (45 ∷ x)) (sym e)
        (trimmed_at c d (subst (All IsDigit) e digits)) in
    let (valid, parse) = chain_id_iff ((a ∷ name) ++ (45 ∷ decimal n)) in
    (
      valid.1 (short, (a ∷ name, decimal n, (refl, letters, epoch))),
      (parse n).1 (
        a ∷ name,
        decimal n,
        (trimmed, letters, epoch),
        subst (λ x. length x ≤ 48) (sym trimmed) short,
        (λ e. cc),
        value,
      ),
    )
  where
    trimmed_at :
        (c : ℕ) (d : Bytes)
        → All IsDigit (c ∷ d)
        → trim_space ((a ∷ name) ++ (45 ∷ (c ∷ d))) ≡ (a ∷ name) ++ (45 ∷ (c ∷ d))
    trimmed_at c d h =
        let dash = append_assoc name (45 ∷ []) (c ∷ d) in
        subst (λ x. trim_space (a ∷ x) ≡ a ∷ x) dash
          (trim_space-kept a (name ++ (45 ∷ [])) c d letters.0 h)

-- GenerateRandomChainID makes an identifier whatever it draws below 10000: IsValidChainID accepts it, and
-- ParseChainID answers 10 more than what was drawn.
pub generate_chain_id-parse_chain_id :
    (r : ℕ)
    → r < 10000
    → (is_valid_chain_id (generate_chain_id r) ≡ true)
      × (parse_chain_id (generate_chain_id r) ≡ ok (10 + r))
unfolding generate_chain_id
generate_chain_id-parse_chain_id r h =
    let digits = length-decimal_digits 4 (suc (10 + r)) (10 + r) (omega (arith, h)) in
    parse_chain_id-decimal 102 (108 ∷ 117 ∷ 120 ∷ []) (10 + r)
      (
        (omega arith, omega arith),
        (
          (omega arith, omega arith),
          ((omega arith, omega arith), ((omega arith, omega arith), tt)),
        ),
      )
      (omega arith) (omega (arith, digits))
