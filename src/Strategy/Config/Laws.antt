-- ===== src/Strategy/Config/Laws.antt =====
-- The messages that configure and trigger strategies.
use flux_sdk_go.Common.{
  ◌≡◌, refl, ◌≢◌, ◌↔◌, Bool, true, false, not, Option, none, some, List, [], ◌∷◌, Check, ok, err,
  panic, >>-eq-ok, ◌>>◌, reject_if, Bytes, is_some, arith,
}
use flux_sdk_go.Strategy.Address.{Codec, hex_decode}
use flux_sdk_go.Strategy.Metadata
use flux_sdk_go.Strategy.Metadata.{SchemaGroup, StrategyMetadata, Query, validate_metadata}
use flux_sdk_go.Strategy.Metadata.Laws.{IsMetadata, validate_metadata_iff}
use flux_sdk_go.Strategy.Config.{
  Error, invalid_sender, empty_strategy, given_id, given_strategy, empty_id, invalid_id,
  given_query, given_metadata, empty_ids, empty_inputs, Config, deploy, update, disable, enable,
  revoke, unknown_config, MsgConfigStrategy, MsgTriggerStrategies, has_none, as_metadata,
  check_metadata, check_update, check_switch, check_config, validate_config, validate_trigger,
}

reject-eq-ok : (b : Bool) (e : Error) → (reject_if b e ≡ ok tt) ↔ (b ≡ false)
reject-eq-ok true e = ground arith
reject-eq-ok false e = ground arith

has_none-ne {ℓ} : {A : Type ℓ} (xs : List A) → (has_none xs ≡ false) ↔ (xs ≢ [])
has_none-ne [] = ground arith
has_none-ne (x ∷ xs) = ground arith

not-has_none {ℓ} : {A : Type ℓ} (xs : List A) → (not (has_none xs) ≡ false) ↔ (xs ≡ [])
not-has_none [] = (λ e. refl, λ e. refl)
not-has_none (x ∷ xs) = (λ e. cc, λ e. cc)

is_some-none {ℓ} : {A : Type ℓ} (o : Option A) → (is_some o ≡ false) ↔ (o ≡ none)
is_some-none none = (λ e. refl, λ e. refl)
is_some-none (some a) = (λ e. cc, λ e. cc)

not-is_some {ℓ} : {A : Type ℓ} (o : Option A) → (not (is_some o) ≡ false) ↔ (o ≢ none)
not-is_some none = (λ e. cc, λ h. absurd (h refl))
not-is_some (some a) = (λ e p. cc, λ h. refl)

-- The rejections of a message, one after the other.
reject_iff :
    {P : Type 0} (b : Bool) (e : Error) (k : Check Error) {Q : Type 0}
    → (b ≡ false) ↔ P
    → (k ≡ ok tt) ↔ Q
    → (reject_if b e >> k ≡ ok tt) ↔ (P × Q)
reject_iff b e k p q = (
  λ h. let (h₁, h₂) = >>-eq-ok (reject_if b e) k h in (p.0 ((reject-eq-ok b e).0 h₁), q.0 h₂),
  λ h. rw (p.1 h.0) (q.1 h.1),
)

last_iff : {P : Type 0} (b : Bool) (e : Error) → (b ≡ false) ↔ P → (reject_if b e ≡ ok tt) ↔ P
last_iff b e p = (λ h. p.0 ((reject-eq-ok b e).0 h), λ h. (reject-eq-ok b e).1 (p.1 h))

as_metadata-eq-ok : (r : Check Metadata.Error) → (as_metadata r ≡ ok tt) ↔ (r ≡ ok tt)
as_metadata-eq-ok (ok tt) = ground arith
as_metadata-eq-ok (err e) = ground arith
as_metadata-eq-ok panic = ground arith

iff_trans : {P Q R : Type 0} → P ↔ Q → Q ↔ R → P ↔ R
iff_trans f g = (λ p. g.0 (f.0 p), λ r. f.1 (g.1 r))

module _ (codec : Codec) (parse_schema : Bytes → Option (List (Option SchemaGroup)))
    (is_json : Bytes → Bool) (is_address : Bytes → Bool) where
  -- Metadata that are there and pass.
  abbrev pub HasMetadata : Option StrategyMetadata → Option Query → Bool → Type 0
  HasMetadata o query unverified =
      (m : StrategyMetadata) × (o ≡ some m)
      × IsMetadata codec parse_schema is_json m query unverified

  -- An id of hexadecimal digits.
  abbrev pub IsId : Bytes → Type 0
  IsId id = (id ≢ []) × (hex_decode id ≢ none)

  abbrev pub IsUpdate : Option StrategyMetadata → Option Query → Type 0
  IsUpdate none query = Unit {0}
  IsUpdate (some m) query = HasMetadata (some m) query false

  -- A switch names a strategy and brings nothing else.
  abbrev pub IsSwitch : MsgConfigStrategy → Type 0
  IsSwitch m =
      (m.strategy ≡ [])
      × ((m.id ≢ []) × ((hex_decode m.id ≢ none) × ((m.query ≡ none) × (m.metadata ≡ none))))

  -- What a message is to bring for its config.
  abbrev pub FitsConfig : MsgConfigStrategy → Config → Type 0
  FitsConfig m deploy = (m.strategy ≢ []) × ((m.id ≡ []) × HasMetadata m.metadata m.query true)
  FitsConfig m update =
      (m.strategy ≡ []) × ((m.id ≢ []) × ((hex_decode m.id ≢ none) × IsUpdate m.metadata m.query))
  FitsConfig m (unknown_config n) = ⊥
  FitsConfig m _ = IsSwitch m

  metadata_iff :
      (o : Option StrategyMetadata) (query : Option Query) (unverified : Bool)
      → (check_metadata codec parse_schema is_json is_address o query unverified ≡ ok tt)
        ↔ HasMetadata o query unverified
  metadata_iff o query unverified =
      iff_trans
        (as_metadata-eq-ok (validate_metadata codec parse_schema is_json o query unverified))
        (validate_metadata_iff codec parse_schema is_json o query unverified)

  check_update-IsUpdate :
      (o : Option StrategyMetadata) (query : Option Query)
      → (check_update codec parse_schema is_json is_address o query ≡ ok tt) ↔ IsUpdate o query
  check_update-IsUpdate none query = (λ e. tt, λ h. refl)
  check_update-IsUpdate (some m) query = metadata_iff (some m) query false

  check_switch-IsSwitch :
      (m : MsgConfigStrategy)
      → (check_switch codec parse_schema is_json is_address m ≡ ok tt) ↔ IsSwitch m
  check_switch-IsSwitch m =
      reject_iff (not (has_none m.strategy)) given_strategy _ (not-has_none m.strategy) (
        reject_iff (has_none m.id) empty_id _ (has_none-ne m.id) (
          reject_iff (not (is_some (hex_decode m.id))) invalid_id _ (not-is_some (hex_decode m.id))
            (reject_iff (is_some m.query) given_query _ (is_some-none m.query)
              (last_iff (is_some m.metadata) given_metadata (is_some-none m.metadata)))))

  check_config_iff :
      (m : MsgConfigStrategy) (c : Config)
      → (check_config codec parse_schema is_json is_address m c ≡ ok tt) ↔ FitsConfig m c
  unfolding check_config
  check_config_iff m deploy =
      reject_iff (has_none m.strategy) empty_strategy _ (has_none-ne m.strategy) (
        reject_iff (not (has_none m.id)) given_id _ (not-has_none m.id)
          (metadata_iff m.metadata m.query true))
  check_config_iff m update =
      reject_iff (not (has_none m.strategy)) given_strategy _ (not-has_none m.strategy) (
        reject_iff (has_none m.id) empty_id _ (has_none-ne m.id) (
          reject_iff (not (is_some (hex_decode m.id))) invalid_id _ (not-is_some (hex_decode m.id))
            (check_update-IsUpdate m.metadata m.query)))
  check_config_iff m disable = check_switch-IsSwitch m
  check_config_iff m enable = check_switch-IsSwitch m
  check_config_iff m revoke = check_switch-IsSwitch m
  check_config_iff m (unknown_config n) = (λ e. cc, λ h. absurd h)

  -- ValidateBasic of MsgConfigStrategy and of MsgTriggerStrategies. A sender is an address. To deploy brings a
  -- program, no id, and metadata that pass with no app verified; to update names a strategy by a hexadecimal id,
  -- brings no program, and metadata that pass if any; to disable, enable or revoke names a strategy and
  -- brings nothing else; and no other config passes. To trigger names strategies and brings inputs.
  pub validate_config_iff :
      (m : MsgConfigStrategy) (t : MsgTriggerStrategies)
      → ((validate_config codec parse_schema is_json is_address m ≡ ok tt)
          ↔ ((is_address m.sender ≡ true) × FitsConfig m m.config))
        × ((validate_trigger is_address t ≡ ok tt)
            ↔ ((is_address t.sender ≡ true) × ((t.ids ≢ []) × (t.inputs ≢ []))))
  unfolding validate_config validate_trigger
  validate_config_iff m t = (
    reject_iff (not (is_address m.sender)) invalid_sender _ (not-false (is_address m.sender))
        (check_config_iff m m.config),
    reject_iff (not (is_address t.sender)) invalid_sender _ (not-false (is_address t.sender)) (
        reject_iff (has_none t.ids) empty_ids _ (has_none-ne t.ids)
          (last_iff (has_none t.inputs) empty_inputs (has_none-ne t.inputs))),
  )
    where
      not-false : (b : Bool) → (not b ≡ false) ↔ (b ≡ true)
      not-false true = ground arith
      not-false false = ground arith
