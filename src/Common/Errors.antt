-- ===== src/Common/Errors.antt =====
-- The sentinel errors of backend/internal/service/errors.go, and the result of a fallible call.
use mathlib.Core.Option.{Option, none, some}
use mathlib.Core.Path.{◌≡◌, refl, ap}
use mathlib.Core.Logic.{◌⊎◌, inl, inr}
use mathlib.Core.Bool.{Bool, true, false}

pub data Error : Type 0 where
  invalid_credentials locked not_authenticated forbidden not_found conflict bad_request : Error
  offline ambiguous terminal unavailable disabled not_configured upstream rate_limited : Error
  -- An error that is no sentinel: a statement that a constraint of the schema refuses.
  constraint : Error
  -- An error that is no sentinel: a command whose stored parameter schema does not parse.
  schema_invalid : Error
  -- An error that is no sentinel: a deployment task that did not end within its time.
  overdue : Error

pub data Result {ℓ} (A : Type ℓ) : Type ℓ where
  ok : A → Result A
  err : Error → Result A

-- The early return of an error.
abbrev pub guard : Bool → Error → Result (Unit {0})
guard false reason = err reason
guard true reason = ok tt

-- A row that must be there.
abbrev pub or_fail {ℓ} : {A : Type ℓ} → Option A → Error → Result A
or_fail none e = err e
or_fail (some a) e = ok a

-- A call, and what follows if it did not fail.
infixl 5 ◌>>=◌
abbrev pub ◌>>=◌ {κ ℓ} : {B : Type κ} {A : Type ℓ} → Result B → (B → Result A) → Result A
err reason >>= next = err reason
ok b >>= next = next b

infixl 5 ◌>>◌
abbrev pub ◌>>◌ {κ} : {A : Type κ} → Result (Unit {0}) → Result A → Result A
check >> rest = check >>= (λ done. rest)

pub ok_inj {ℓ} : {A : Type ℓ} {a b : A} → ok a ≡ ok b → a ≡ b
ok_inj h = cc

pub Result-cases {ℓ} :
    {A : Type ℓ} (r : Result A) → ((e : Error) × (r ≡ err e)) ⊎ ((a : A) × (r ≡ ok a))
Result-cases (ok a) = inr (a, refl)
Result-cases (err e) = inl (e, refl)

-- Both parts of a sequence that succeeds have succeeded.
pub >>=-eq-ok {κ ℓ} :
    {B : Type κ} {A : Type ℓ} (first : Result B) (next : B → Result A) {last : A}
    → (first >>= next) ≡ ok last
    → (b : B) × (first ≡ ok b) × (next b ≡ ok last)
>>=-eq-ok (err reason) next h = cc
>>=-eq-ok (ok b) next h = (b, refl, h)

pub guard-eq-ok {ℓ} :
    {B : Type ℓ} (t : Bool) (e : Error) (k : Result B) {b : B}
    → (guard t e >> k) ≡ ok b
    → (t ≡ true) × (k ≡ ok b)
guard-eq-ok true e k h = (refl, h)
guard-eq-ok false e k h = cc

pub or_fail-eq-ok {ℓ} :
    {A : Type ℓ} (o : Option A) (e : Error) {a : A} → or_fail o e ≡ ok a → o ≡ some a
or_fail-eq-ok none e h = cc
or_fail-eq-ok (some a) e h = ap some (ok_inj h)
