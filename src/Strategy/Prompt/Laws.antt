-- ===== src/Strategy/Prompt/Laws.antt =====
-- The variables of a template that is put together from plain text and variables.
use mathlib.Core.List.{append_assoc, append-nil}
use flux_sdk_go.Common.{
  ℕ, ◌≡◌, refl, sym, ap, ◌∙◌, ◌≢◌, ◌↔◌, ◌⊎◌, inl, inr, Bool, true, false, none, some, List, [], ◌∷◌,
  ◌++◌, ok, >>-eq-ok, reject_if, Bytes, All, length, length-append, is_some, find_index, Bool-cases,
  ◌==◌, arith,
}
use mathlib.Core.Path.{subst}
use flux_sdk_go.Strategy.Prompt.{
  Error, Scan, outside, inside, scan_byte, find_vars, misplaced, check_definition,
  check_definitions, validate_prompt,
}

-- The pieces that a template is put together from: plain text, a single dollar, the text `${}`, a variable `${…}`, and
-- a `${` that no brace closes.
pub data Piece : Type 0 where
  plain : Bytes → Piece
  dollar_sign : Piece
  empty_braces : Piece
  variable : Bytes → Piece
  unclosed : Bytes → Piece

unfoldable pub render : List Piece → Bytes
render [] = []
render (plain s ∷ ps) = s ++ render ps
render (dollar_sign ∷ ps) = 36 ∷ render ps
render (empty_braces ∷ ps) = 36 ∷ (123 ∷ (125 ∷ render ps))
render (variable d ∷ ps) = 36 ∷ (123 ∷ (d ++ (125 ∷ render ps)))
render (unclosed d ∷ ps) = 36 ∷ (123 ∷ (d ++ render ps))

abbrev pub NoBrace : Bytes → Type 0
NoBrace [] = Unit {0}
NoBrace (c ∷ s) = c ≢ 123

-- Plain text has no dollar, a single dollar has no `{` behind it, a variable is not empty and has no `}`, and
-- there is no `}` behind a `${` that no brace closes, and nothing else.
abbrev pub AreApart : List Piece → Type 0
AreApart [] = Unit {0}
AreApart (plain s ∷ ps) = All (λ c. c ≢ 36) s × AreApart ps
AreApart (dollar_sign ∷ ps) = NoBrace (render ps) × AreApart ps
AreApart (empty_braces ∷ ps) = AreApart ps
AreApart (variable d ∷ ps) = (d ≢ []) × All (λ c. c ≢ 125) d × AreApart ps
AreApart (unclosed d ∷ ps) = All (λ c. c ≢ 125) d × (ps ≡ [])

pub variables : List Piece → List Bytes
variables [] = []
variables (variable d ∷ ps) = d ∷ variables ps
variables (_ ∷ ps) = variables ps

find_vars-plain :
    (s t : Bytes) → All (λ c. c ≢ 36) s → find_vars outside (s ++ t) ≡ find_vars outside t
unfolding find_vars scan_byte
find_vars-plain [] t h = refl
find_vars-plain (c ∷ s) t h =
    let other : (c == 36) ≡ false = ground (arith, h.0) in rw other (find_vars-plain s t h.1)

find_vars-inside :
    (v d t : Bytes)
    → All (λ c. c ≢ 125) d
    → find_vars (inside v) (d ++ (125 ∷ t)) ≡ (v ++ d) ∷ find_vars outside t
unfolding find_vars scan_byte
find_vars-inside v [] t h = ap (λ x. x ∷ find_vars outside t) (sym (append-nil v))
find_vars-inside v (c ∷ d) t h =
    let other : (c == 125) ≡ false = ground (arith, h.0) in
    rw other (
      find_vars-inside (v ++ (c ∷ [])) d t h.1
      ∙ ap (λ x. x ∷ find_vars outside t) (append_assoc v (c ∷ []) d))

-- Behind a dollar that no `{` follows, the search is where it was.
find_vars-dollar : (t : Bytes) → NoBrace t → find_vars Scan.dollar t ≡ find_vars outside t
unfolding find_vars scan_byte
find_vars-dollar [] h = refl
find_vars-dollar (c ∷ t) h = let other : (c == 123) ≡ false = ground (arith, h) in rw other refl

-- A variable that no brace closes is not found.
find_vars-unclosed : (v d : Bytes) → All (λ c. c ≢ 125) d → find_vars (inside v) d ≡ []
unfolding find_vars scan_byte
find_vars-unclosed v [] h = refl
find_vars-unclosed v (c ∷ d) h =
    let other : (c == 125) ≡ false = ground (arith, h.0) in
    rw other (find_vars-unclosed (v ++ (c ∷ [])) d h.1)

find_vars-brace : (d : Bytes) → All (λ c. c ≢ 125) d → find_vars Scan.brace d ≡ []
unfolding find_vars scan_byte
find_vars-brace [] h = refl
find_vars-brace (c ∷ d) h =
    let other : (c == 125) ≡ false = ground (arith, h.0) in
    rw other (find_vars-unclosed (c ∷ []) d h.1)

-- The variables that are put in are found, in their order.
find_vars-render : (ps : List Piece) → AreApart ps → find_vars outside (render ps) ≡ variables ps
unfolding find_vars scan_byte render variables
find_vars-render [] h = refl
find_vars-render (plain s ∷ ps) h = find_vars-plain s (render ps) h.0 ∙ find_vars-render ps h.1
find_vars-render (dollar_sign ∷ ps) h = find_vars-dollar (render ps) h.0 ∙ find_vars-render ps h.1
find_vars-render (empty_braces ∷ ps) h = find_vars-render ps h
find_vars-render (variable [] ∷ ps) h = absurd (h.0 refl)
find_vars-render (variable (c ∷ d) ∷ ps) h =
    let other : (c == 125) ≡ false = ground (arith, h.1.0) in
    rw other (
      find_vars-inside (c ∷ []) d (render ps) h.1.1
      ∙ ap (λ r. (c ∷ d) ∷ r) (find_vars-render ps h.2))
find_vars-render (unclosed d ∷ ps) h =
    let alone : variables ps ≡ [] = ap variables h.1 in
    let text : d ++ render ps ≡ d = ap (λ q. d ++ render q) h.1 ∙ append-nil d in
    ap (find_vars Scan.brace) text ∙ find_vars-brace d h.0 ∙ sym alone

-- A definition `name:type` without spaces, neither part empty; the name ends at the first colon.
pub IsDefinition : Bytes → Type 0
IsDefinition d =
    (name : Bytes) × (typ : Bytes) × (d ≡ name ++ (58 ∷ typ))
    × (name ≢ [])
    × (typ ≢ [])
    × All (λ c. c ≢ 58) name
    × All (λ c. c ≢ 32) d

-- A byte stands nowhere in a text, or first behind a part without it.
first_at :
    (k : ℕ) (d : Bytes)
    → ((find_index (λ c. c == k) d ≡ none) × All (λ c. c ≢ k) d)
      ⊎ ((before : Bytes) × (after : Bytes) × (d ≡ before ++ (k ∷ after))
          × All (λ c. c ≢ k) before
          × (find_index (λ c. c == k) d ≡ some (length before)))
first_at k [] = inl (refl, tt)
first_at k (c ∷ d) = elim (Bool-cases (c == k)) [
  | inl e ↦ inr ([], d, ap (λ x. x ∷ d) (ground arith), tt, ground arith)
  | inr e ↦ elim (first_at k d) [
    | inl (f, a) ↦ inl (ground arith, (ground arith, a))
    | inr (before, after, split, a, f) ↦
        inr (c ∷ before, after, ap (λ x. c ∷ x) split, (ground arith, a), ground arith)
  ]
]

find_index-here :
    (k : ℕ) (before after : Bytes)
    → All (λ c. c ≢ k) before
    → find_index (λ c. c == k) (before ++ (k ∷ after)) ≡ some (length before)
find_index-here k [] after h = ground arith
find_index-here k (c ∷ before) after h =
    let other : (c == k) ≡ false = ground (arith, h.0) in
    ground (arith, find_index-here k before after h.1)

find_index-none : (k : ℕ) (d : Bytes) → All (λ c. c ≢ k) d → find_index (λ c. c == k) d ≡ none
find_index-none k [] h = refl
find_index-none k (c ∷ d) h =
    let other : (c == k) ≡ false = ground (arith, h.0) in ground (arith, find_index-none k d h.1)

-- Where the colon stands well, it parts two texts that are not empty.
misplaced-split :
    (name typ : Bytes)
    → (misplaced (some (length name)) (length (name ++ (58 ∷ typ))) ≡ false)
      ↔ ((name ≢ []) × (typ ≢ []))
misplaced-split [] typ = (λ e. cc, λ h. absurd (h.0 refl))
misplaced-split (c ∷ n) [] =
    (λ e. absurd (ground (arith, length-append {0} n (58 ∷ []))), λ h. absurd (h.1 refl))
misplaced-split (c ∷ n) (t ∷ typ) =
    (λ e. (λ p. cc, λ p. cc), λ h. ground (arith, length-append {0} n (58 ∷ (t ∷ typ))))

spaces_iff : (d : Bytes) → (is_some (find_index (λ c. c == 32) d) ≡ false) ↔ All (λ c. c ≢ 32) d
spaces_iff d = elim (first_at 32 d) [
  | inl (f, a) ↦ (λ e. a, λ h. rw f refl)
  | inr (before, after, split, a, f) ↦ (λ e. cc (f, e), λ h. rw (find_index-none 32 d h) refl)
]

reject_if-false : (b : Bool) (e : Error) → reject_if b e ≡ ok tt → b ≡ false
reject_if-false true e h = cc
reject_if-false false e h = refl

check_definition_iff : (d : Bytes) → (check_definition d ≡ ok tt) ↔ IsDefinition d
unfolding check_definition IsDefinition
check_definition_iff d = (
  λ e.
      let (e₁, e₂) =
        >>-eq-ok
          (reject_if (misplaced (find_index (λ c. c == 58) d) (length d)) Error.invalid_definition)
          _ e in
      let spaces = (spaces_iff d).0 (ground arith) in
      elim (first_at 58 d) [
        | inl (f, a) ↦ cc (f, e₁)
        | inr (name, typ, split, a, f) ↦
            let well =
              subst (λ n. misplaced (some (length name)) n ≡ false) (ap length split)
                (reject_if-false _ _ (rw f at e₁)) in
            let placed = (misplaced-split name typ).0 well in
            (name, typ, split, placed.0, placed.1, a, spaces)
      ],
  λ (name, typ, split, n, t, a, spaces).
      let placed = (misplaced-split name typ).1 (n, t) in
      let found = find_index-here 58 name typ a in
      let spaces' = (spaces_iff (name ++ (58 ∷ typ))).1 (subst (All (λ c. c ≢ 32)) split spaces) in
      subst (λ x. check_definition x ≡ ok tt) (sym split) (rw (found, placed, spaces') refl),
)

check_definitions_iff : (ds : List Bytes) → (check_definitions ds ≡ ok tt) ↔ All IsDefinition ds
unfolding check_definitions
check_definitions_iff [] = (λ e. tt, λ h. refl)
check_definitions_iff (d ∷ ds) =
    let here = check_definition_iff d in
    let rest = check_definitions_iff ds in
    (
      λ e. let (e₁, e₂) = >>-eq-ok (check_definition d) _ e in (here.0 e₁, rest.0 e₂),
      λ h. rw (here.1 h.0) (rest.1 h.1),
    )

-- A template that is put together from plain text without a dollar, single dollars that no `{` follows, the text `${}`,
-- variables `${…}` that are not empty and have no `}`, and at its end perhaps a `${` that no brace closes: the
-- variables, in their order, are what FindAllString finds in it, and SchemaPrompt.ValidateBasic accepts it exactly when
-- each of them is a name and a type that a colon parts, neither of them empty, without a space.
pub validate_prompt-render :
    (ps : List Piece)
    → AreApart ps
    → (find_vars outside (render ps) ≡ variables ps)
      × ((validate_prompt (render ps) ≡ ok tt) ↔ All IsDefinition (variables ps))
unfolding validate_prompt
validate_prompt-render ps h =
    let found = find_vars-render ps h in (found, rw found (check_definitions_iff (variables ps)))
