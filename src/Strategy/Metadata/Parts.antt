-- ===== src/Strategy/Metadata/Parts.antt =====
-- The parts of a strategy's metadata: its schema, its gas price, its query and its apps.
use flux_sdk_go.Common.{
  ℕ, ◌≤◌, ◌<◌, ◌≡◌, refl, sym, ◌≢◌, ◌↔◌, inl, inr, Bool, true, false, not, ◌&&◌, Option, none, some,
  List, [], ◌∷◌, Check, ok, err, panic, >>-eq-ok, reject_if, Bytes, All, IsIn, ltb, Bool-cases,
  some-injective, arith,
}
use mathlib.Core.Path.{subst}
use flux_sdk_go.Common.Int.{ℤ, pos, negsuc}
use flux_sdk_go.Strategy.Prompt
use flux_sdk_go.Strategy.Prompt.{validate_prompt}
use flux_sdk_go.Strategy.Metadata.{
  Error, unnamed_group, verified_app, SupportedApp, SchemaGroup, Query, as_prompt, check_gas_price,
  has_event, check_query, check_verified, check_prompts, is_empty, check_groups,
}

as_prompt-eq-ok : (r : Check Prompt.Error) → (as_prompt r ≡ ok tt) ↔ (r ≡ ok tt)
as_prompt-eq-ok (ok tt) = ground arith
as_prompt-eq-ok (err e) = ground arith
as_prompt-eq-ok panic = ground arith

-- A prompt that is there and whose template passes.
abbrev pub IsPrompt : Option Bytes → Type 0
IsPrompt p = (template : Bytes) × (p ≡ some template) × (validate_prompt template ≡ ok tt)

pub check_prompts_iff : (ps : List (Option Bytes)) → (check_prompts ps ≡ ok tt) ↔ All IsPrompt ps
unfolding check_prompts
check_prompts_iff [] = (λ e. tt, λ h. refl)
check_prompts_iff (none ∷ ps) = (λ e. cc, λ h. cc (h.0.1))
check_prompts_iff (some t ∷ ps) =
    let here = as_prompt-eq-ok (validate_prompt t) in
    let rest = check_prompts_iff ps in
    (
      λ e.
          let (e₁, e₂) = >>-eq-ok (as_prompt (validate_prompt t)) _ e in
          ((t, refl, here.0 e₁), rest.0 e₂),
      λ h.
          let (u, same, valid) = h.0 in
          let at_t : validate_prompt t ≡ ok tt = ground (arith, same, valid) in
          rw (here.1 at_t) (rest.1 h.1),
    )

-- A group that is there, is named if there are others, and whose prompts pass.
abbrev pub IsGroup : ℕ → Option SchemaGroup → Type 0
IsGroup n o = (g : SchemaGroup) × (o ≡ some g) × (1 < n → g.name ≢ []) × All IsPrompt g.prompts

named_iff :
    (n : ℕ) (name : Bytes) (e : Error)
    → (reject_if (ltb 1 n && is_empty name) e ≡ ok tt) ↔ (1 < n → name ≢ [])
named_iff n [] e = elim (Bool-cases (ltb 1 n)) [
  | inl t ↦ (λ h. cc, λ h. absurd (h (ground arith) refl))
  | inr t ↦ (λ h lt. absurd (ground arith), λ h. rw t refl)
]
named_iff n (c ∷ s) e = (λ h lt p. cc, λ h. ground arith)

pub check_groups_iff :
    (n : ℕ) (gs : List (Option SchemaGroup))
    → (check_groups (ltb 1 n) gs ≡ ok tt) ↔ All (IsGroup n) gs
unfolding check_groups
check_groups_iff n [] = (λ e. tt, λ h. refl)
check_groups_iff n (none ∷ gs) = (λ e. cc, λ h. cc (h.0.1))
check_groups_iff n (some g ∷ gs) =
    let named = named_iff n g.name unnamed_group in
    let prompts = check_prompts_iff g.prompts in
    let rest = check_groups_iff n gs in
    (
      λ e.
          let (e₁, r₁) = >>-eq-ok (reject_if (ltb 1 n && is_empty g.name) unnamed_group) _ e in
          let (e₂, e₃) = >>-eq-ok (check_prompts g.prompts) _ r₁ in
          ((g, refl, named.0 e₁, prompts.0 e₂), rest.0 e₃),
      λ h. let (name, ps) = at_g g h.0 in rw (named.1 name, prompts.1 ps) (rest.1 h.1),
    )
  where
    at_g : (g : SchemaGroup) → IsGroup n (some g) → (1 < n → g.name ≢ []) × All IsPrompt g.prompts
    at_g g (g', same, name, ps) =
        subst (λ (x : SchemaGroup). (1 < n → x.name ≢ []) × All IsPrompt x.prompts)
          (sym (some-injective same)) (name, ps)

-- The gas price of a bot: 500 million at least.
abbrev pub IsGasPrice : Option ℤ → Type 0
IsGasPrice p = (n : ℕ) × (p ≡ some (pos n)) × (500_000_000 ≤ n)

pub check_gas_price_iff : (p : Option ℤ) → (check_gas_price p ≡ ok tt) ↔ IsGasPrice p
unfolding check_gas_price
check_gas_price_iff none = (λ e. cc, λ h. cc (h.1))
check_gas_price_iff (some (pos n)) = (λ e. (n, refl, ground arith), λ (k, q, le). ground arith)
check_gas_price_iff (some (negsuc n)) = (λ e. cc, λ h. cc (h.1))

-- A query that is there and has an instruction for events.
abbrev pub AsksEvents : Option Query → Type 0
AsksEvents q = (is : Query) × (q ≡ some is) × IsIn true is

has_event_iff : (is : Query) → (has_event is ≡ true) ↔ IsIn true is
has_event_iff [] = (λ e. cc, λ m. absurd m)
has_event_iff (true ∷ is) = (λ e. inl refl, λ m. refl)
has_event_iff (false ∷ is) =
    let rest = has_event_iff is in
    (λ e. inr (rest.0 e), λ m. elim m [ inl e ↦ cc | inr k ↦ rest.1 k ])

pub check_query_iff : (q : Option Query) → (check_query q ≡ ok tt) ↔ AsksEvents q
unfolding check_query
check_query_iff none = (λ e. cc, λ h. cc (h.1))
check_query_iff (some []) =
    (λ e. cc, λ (is, same, m). absurd (subst (IsIn true) (sym (some-injective same)) m))
check_query_iff (some (q ∷ qs)) =
    let events = has_event_iff (q ∷ qs) in
    (
      λ e. (q ∷ qs, refl, events.0 (event_of (has_event (q ∷ qs)) e)),
      λ (is, same, m). rw (events.1 (subst (IsIn true) (sym (some-injective same)) m)) refl,
    )
  where
    event_of : (b : Bool) → reject_if (not b) Error.no_event_query ≡ ok tt → b ≡ true
    event_of true e = refl
    event_of false e = cc

pub check_verified_iff :
    (apps : List SupportedApp) → (check_verified apps ≡ ok tt) ↔ All (λ a. a.verified ≡ false) apps
unfolding check_verified
check_verified_iff [] = (λ e. tt, λ h. refl)
check_verified_iff (a ∷ apps) =
    let rest = check_verified_iff apps in
    (
      λ e.
          let (e₁, e₂) = >>-eq-ok (reject_if a.verified verified_app) _ e in
          (ground arith, rest.0 e₂),
      λ h. rw h.0 (rest.1 h.1),
    )
