-- ===== src/Strategy/Metadata/Apps.antt =====
-- The supported apps of a strategy: all are read, and no two are the same.
use mathlib.Core.List.{head-eq_of_cons-eq}
use flux_sdk_go.Common.{
  ◌≡◌, refl, ap, ◌↔◌, inl, inr, false, List, [], ◌∷◌, ◌++◌, map, Result, ok, err, panic, >>-eq-ok,
  >>=-eq-ok, reject_if, Bytes, codes, All, IsIn, bytes_mem, bytes_mem_iff, Bool-cases, arith,
}
use mathlib.Core.Path.{subst}
use flux_sdk_go.Strategy.Address
use flux_sdk_go.Strategy.Address.{
  Plane, cosmos, wasm, evm, svm, unknown, Codec, parse_contract_addr,
}
use flux_sdk_go.Strategy.Metadata.{duplicated_app, SupportedApp, plane_name, as_address, check_apps}

-- A contract of a plane.
abbrev pub App : Type 0
App = Plane × Bytes

abbrev pub key_text : App → Bytes
key_text k = plane_name k.0 ++ k.1

-- A plane whose contracts have addresses.
abbrev pub HasContracts : Plane → Type 0
HasContracts cosmos = ⊥
HasContracts (unknown n) = ⊥
HasContracts _ = Unit {0}

append-injective : (p s t : Bytes) → p ++ s ≡ p ++ t → s ≡ t
append-injective [] s t e = e
append-injective (c ∷ p) s t e = append-injective p s t (ground arith)

-- The keys of the source's map tell the contracts apart.
key_text-injective :
    (j k : App) → HasContracts j.0 → HasContracts k.0 → key_text j ≡ key_text k → j ≡ k
key_text-injective (wasm, a) (wasm, b) h g e =
    ap (λ s. (wasm, s)) (append-injective (codes "WASM") a b e)
key_text-injective (evm, a) (evm, b) h g e =
    ap (λ s. (evm, s)) (append-injective (codes "EVM") a b e)
key_text-injective (svm, a) (svm, b) h g e =
    ap (λ s. (svm, s)) (append-injective (codes "SVM") a b e)
key_text-injective (wasm, a) (evm, b) h g e = absurd (omega (arith, head-eq_of_cons-eq e))
key_text-injective (wasm, a) (svm, b) h g e = absurd (omega (arith, head-eq_of_cons-eq e))
key_text-injective (evm, a) (wasm, b) h g e = absurd (omega (arith, head-eq_of_cons-eq e))
key_text-injective (evm, a) (svm, b) h g e = absurd (omega (arith, head-eq_of_cons-eq e))
key_text-injective (svm, a) (wasm, b) h g e = absurd (omega (arith, head-eq_of_cons-eq e))
key_text-injective (svm, a) (evm, b) h g e = absurd (omega (arith, head-eq_of_cons-eq e))
key_text-injective (cosmos, a) k h g e = absurd h
key_text-injective (unknown n, a) k h g e = absurd h
key_text-injective j (cosmos, b) h g e = absurd g
key_text-injective j (unknown n, b) h g e = absurd g

IsIn-key_text :
    (k : App) (seen : List App)
    → HasContracts k.0
    → All (λ j. HasContracts j.0) seen
    → IsIn (key_text k) (map key_text seen) ↔ IsIn k seen
IsIn-key_text k [] h hs = (λ m. m, λ m. m)
IsIn-key_text k (j ∷ seen) h hs =
    let rest = IsIn-key_text k seen h hs.1 in
    (
      λ m. elim m [ inl e ↦ inl (key_text-injective j k hs.0 h e) | inr m' ↦ inr (rest.0 m') ],
      λ m. elim m [ inl e ↦ inl (ap key_text e) | inr m' ↦ inr (rest.1 m') ],
    )

-- Each of the contracts is new, beside those that were seen.
abbrev pub AreNew : List App → List App → Type 0
AreNew seen [] = Unit {0}
AreNew seen (k ∷ ks) = (¬ IsIn k seen) × AreNew (k ∷ seen) ks

as_address-eq-ok :
    {A : Type 0} (r : Result Address.Error A) {a : A} → as_address r ≡ ok a → r ≡ ok a
as_address-eq-ok (ok x) e = ground arith
as_address-eq-ok (err x) e = cc
as_address-eq-ok panic e = cc

module _ (codec : Codec) where
  -- The contracts of the apps, as ParseContractAddr reads them.
  abbrev pub AreRead : List SupportedApp → List App → Type 0
  AreRead [] [] = Unit {0}
  AreRead (a ∷ apps) (k ∷ ks) =
      (k.0 ≡ a.plane)
      × (parse_contract_addr codec a.contract_address a.plane ≡ ok k.1)
      × AreRead apps ks
  AreRead _ _ = ⊥

  parse-HasContracts :
      (s : Bytes) (p : Plane) (a : Bytes) → parse_contract_addr codec s p ≡ ok a → HasContracts p
  unfolding parse_contract_addr
  parse-HasContracts s wasm a e = tt
  parse-HasContracts s evm a e = tt
  parse-HasContracts s svm a e = tt
  parse-HasContracts s cosmos a e = cc
  parse-HasContracts s (unknown n) a e = cc

  new_iff :
      (k : App) (seen : List App)
      → HasContracts k.0
      → All (λ j. HasContracts j.0) seen
      → (bytes_mem (key_text k) (map key_text seen) ≡ false) ↔ (¬ IsIn k seen)
  new_iff k seen h hs =
      let mem = bytes_mem_iff (key_text k) (map key_text seen) in
      let keys = IsIn-key_text k seen h hs in
      (
        λ e m. cc (e, mem.1 (keys.1 m)),
        λ n. elim (Bool-cases (bytes_mem (key_text k) (map key_text seen))) [
          | inl e ↦ absurd (n (keys.0 (mem.0 e)))
          | inr e ↦ e
        ],
      )

  -- An app that is read and new is passed, if those behind it are.
  app_back :
      (a : SupportedApp) (apps : List SupportedApp) (seen : List App)
      → All (λ j. HasContracts j.0) seen
      → (ks : List App)
      → ((k : App)
          → HasContracts k.0
          → (ks : List App) → AreRead apps ks
          → AreNew (k ∷ seen) ks
          → check_apps codec (map key_text (k ∷ seen)) apps ≡ ok tt)
      → AreRead (a ∷ apps) ks
      → AreNew seen ks
      → check_apps codec (map key_text seen) (a ∷ apps) ≡ ok tt
  unfolding check_apps
  app_back a apps seen hs [] rest reads news = absurd reads
  app_back a apps seen hs ((p, contract) ∷ ks) rest (plane, read, reads) (new, news) =
      let h = parse-HasContracts a.contract_address a.plane contract read in
      let new' = subst (λ x. ¬ IsIn (x, contract) seen) plane new in
      let news' = subst (λ x. AreNew ((x, contract) ∷ seen) ks) plane news in
      rw (read, (new_iff (a.plane, contract) seen h hs).1 new')
        (rest (a.plane, contract) h ks reads news')

  pub check_apps_iff :
      (apps : List SupportedApp) (seen : List App)
      → All (λ j. HasContracts j.0) seen
      → (check_apps codec (map key_text seen) apps ≡ ok tt)
        ↔ ((ks : List App) × AreRead apps ks × AreNew seen ks)
  unfolding check_apps
  check_apps_iff [] seen hs = (λ e. ([], tt, tt), λ h. refl)
  check_apps_iff (a ∷ apps) seen hs = (
    λ e.
        let (contract, parsed, e₁) =
          >>=-eq-ok (as_address (parse_contract_addr codec a.contract_address a.plane)) _ e in
        let (e₂, e₃) =
          >>-eq-ok
            (reject_if (bytes_mem (key_text (a.plane, contract)) (map key_text seen))
              duplicated_app)
            _ e₁ in
        let read = as_address-eq-ok (parse_contract_addr codec a.contract_address a.plane) parsed in
        let h = parse-HasContracts a.contract_address a.plane contract read in
        let (ks, reads, news) = (check_apps_iff apps ((a.plane, contract) ∷ seen) (h, hs)).0 e₃ in
        (
          (a.plane, contract) ∷ ks,
          (refl, read, reads),
          ((new_iff (a.plane, contract) seen h hs).0 (ground arith), news),
        ),
    λ (ks, reads, news).
        app_back a apps seen hs ks
          (λ k h ks' r n. (check_apps_iff apps (k ∷ seen) (h, hs)).1 (ks', r, n)) reads news,
  )
