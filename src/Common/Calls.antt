-- ===== src/Common/Calls.antt =====
-- What a Go call answers: a value with a nil error, an error, or a panic.
use mathlib.Core.Path.{◌≡◌, refl}
use mathlib.Core.Bool.{Bool, true, false}
use mathlib.Core.Option.{Option, none, some}

pub data Result {ℓ κ} (E : Type ℓ) (A : Type κ) : Type (ℓ ⊔ κ) where
  ok : A → Result E A
  err : E → Result E A
  panic : Result E A

-- A call that answers an error only.
abbrev pub Check {ℓ} : Type ℓ → Type ℓ
Check E = Result E (Unit {0})

-- The rest of the body runs on the value; an error is returned, and a panic goes on.
infixl 5 ◌>>◌ ◌>>=◌
abbrev pub ◌>>=◌ {ℓ κ μ} :
    {E : Type ℓ} {A : Type κ} {B : Type μ} → Result E A → (A → Result E B) → Result E B
panic >>= rest = panic
err x >>= rest = err x
ok v >>= rest = rest v

abbrev pub ◌>>◌ {ℓ κ} : {E : Type ℓ} {B : Type κ} → Check E → Result E B → Result E B
check >> rest = check >>= λ nothing. rest

-- `if bad { return e }`
abbrev pub reject_if {ℓ} : {E : Type ℓ} → Bool → E → Check E
reject_if true e = err e
reject_if false e = ok tt

-- A call whose error is replaced by the caller's.
abbrev pub or_err {ℓ κ} : {E : Type ℓ} {A : Type κ} → Option A → E → Result E A
or_err none e = err e
or_err (some a) e = ok a

-- A `Must…` call, and an index into a slice.
abbrev pub or_panic {ℓ κ} : {E : Type ℓ} {A : Type κ} → Option A → Result E A
or_panic none = panic
or_panic (some a) = ok a

-- The rest of the body runs on a value that is there.
abbrev pub and_then {ℓ κ} : {A : Type ℓ} {B : Type κ} → Option A → (A → Option B) → Option B
and_then none f = none
and_then (some a) f = f a

pub and_then-eq-some {ℓ κ} :
    {A : Type ℓ} {B : Type κ} (o : Option A) (f : A → Option B) {b : B}
    → and_then o f ≡ some b
    → (a : A) × (o ≡ some a) × (f a ≡ some b)
and_then-eq-some none f e = cc
and_then-eq-some (some a) f e = (a, refl, e)

-- A body that answers a value has run each of its calls to a value.
pub >>=-eq-ok {ℓ κ μ} :
    {E : Type ℓ} {A : Type κ} {B : Type μ} (call : Result E A) (rest : A → Result E B) {out : B}
    → (call >>= rest) ≡ ok out
    → (v : A) × (call ≡ ok v) × (rest v ≡ ok out)
>>=-eq-ok panic rest e = cc
>>=-eq-ok (err x) rest e = cc
>>=-eq-ok (ok v) rest e = (v, refl, e)

pub >>-eq-ok {ℓ κ} :
    {E : Type ℓ} {B : Type κ} (m : Check E) (k : Result E B) {b : B}
    → (m >> k) ≡ ok b
    → (m ≡ ok tt) × (k ≡ ok b)
>>-eq-ok (ok tt) k h = (refl, h)
>>-eq-ok (err e) k h = (cc, cc)
>>-eq-ok panic k h = (cc, cc)

pub or_err-eq-ok {ℓ κ μ} :
    {E : Type ℓ} {A : Type κ} {B : Type μ} (o : Option A) (e : E) (f : A → Result E B) {b : B}
    → (or_err o e >>= f) ≡ ok b
    → (a : A) × (o ≡ some a) × (f a ≡ ok b)
or_err-eq-ok none e f h = cc
or_err-eq-ok (some a) e f h = (a, refl, h)

pub or_panic-eq-ok {ℓ κ μ} :
    {E : Type ℓ} {A : Type κ} {B : Type μ} (o : Option A) (f : A → Result E B) {b : B}
    → (or_panic o >>= f) ≡ ok b
    → (a : A) × (o ≡ some a) × (f a ≡ ok b)
or_panic-eq-ok none f h = cc
or_panic-eq-ok (some a) f h = (a, refl, h)
