-- ===== src/Prelude/Outcome.antt =====
-- What a C++ expression does: it gives a value, throws, or has undefined behaviour.
use mathlib.Core.Path.{◌≡◌, refl}
use mathlib.Core.Logic.{◌⊎◌, inl, inr}
use mathlib.Core.Option.{Option, none, some}

pub data Fault : Type 0 where
  out_of_range : Fault  -- std::array::at throws, and Qt's checked at() aborts
  undefined_shift : Fault  -- a shift by the width of the type, or by more
  bad_access : Fault  -- a read or write outside an object, or through a null pointer
  runtime_error : Fault  -- std::runtime_error
  out_of_fuel : Fault  -- no C++ counterpart: the bound on a loop was too small

pub data Outcome {ℓ} (A : Type ℓ) : Type ℓ where
  ok : A → Outcome A
  fault : Fault → Outcome A

infixl 5 ◌>>=◌
abbrev pub ◌>>=◌ {ℓ κ} : {A : Type ℓ} {B : Type κ} → Outcome A → (A → Outcome B) → Outcome B
ok a >>= f = f a
fault e >>= f = fault e

-- A checked access gives its element, or the fault of the accessor.
abbrev pub or_fault {ℓ} : {A : Type ℓ} → Fault → Option A → Outcome A
or_fault e none = fault e
or_fault e (some a) = ok a

-- Whether and how it fails.
abbrev pub failure {ℓ} : {A : Type ℓ} → Outcome A → Option Fault
failure (ok a) = none
failure (fault e) = some e

pub >>=_assoc {ℓ κ μ} :
    {A : Type ℓ} {B : Type κ} {C : Type μ} (m : Outcome A) (f : A → Outcome B) (g : B → Outcome C)
    → (m >>= λ a. f a >>= g) ≡ (m >>= f >>= g)
>>=_assoc (ok a) f g = refl
>>=_assoc (fault e) f g = refl

-- The value, if there is one, satisfies P.
pub data Ensures {ℓ κ} {A : Type ℓ} (P : A → Type κ) : Outcome A → Type (ℓ ⊔ κ) where
  ensured : {a : A} → P a → Ensures P (ok a)
  failed : {e : Fault} → Ensures P (fault e)

pub value_of_Ensures {ℓ κ} : {A : Type ℓ} {P : A → Type κ} {a : A} → Ensures P (ok a) → P a
value_of_Ensures (ensured p) = p

pub Ensures->>= {ℓ κ μ ν} :
    {A : Type ℓ} {B : Type κ} {P : A → Type μ} {Q : B → Type ν} {m : Outcome A} {f : A → Outcome B}
    → Ensures P m
    → ((a : A) → P a → Ensures Q (f a))
    → Ensures Q (m >>= f)
Ensures->>= (ensured {a} p) go = go a p
Ensures->>= failed go = failed

pub Ensures-mono {ℓ κ μ} :
    {A : Type ℓ} {P : A → Type κ} {Q : A → Type μ} {m : Outcome A}
    → ((a : A) → P a → Q a)
    → Ensures P m
    → Ensures Q m
Ensures-mono go (ensured {a} p) = ensured (go a p)
Ensures-mono go failed = failed

pub Ensures-both {ℓ κ μ} :
    {A : Type ℓ} {P : A → Type κ} {Q : A → Type μ} {m : Outcome A}
    → Ensures P m
    → Ensures Q m
    → Ensures (λ a. P a × Q a) m
Ensures-both (ensured p) q = ensured (p, value_of_Ensures q)
Ensures-both failed q = failed

-- Whatever the value of the first part, the second ensures Q.
pub Ensures-any {ℓ κ ν} :
    {A : Type ℓ} {B : Type κ} {Q : B → Type ν} (m : Outcome A) {f : A → Outcome B}
    → ((a : A) → Ensures Q (f a))
    → Ensures Q (m >>= f)
Ensures-any (ok a) go = go a
Ensures-any (fault e) go = failed

-- A pure last step fails as what comes before it.
pub failure-map {ℓ κ} :
    {A : Type ℓ} {B : Type κ} (m : Outcome A) (f : A → B)
    → failure (m >>= λ a. ok (f a)) ≡ failure m
failure-map (ok a) f = refl
failure-map (fault e) f = refl

pub of_ok {ℓ} : {A : Type ℓ} {a b : A} → Outcome.ok a ≡ Outcome.ok b → a ≡ b
of_ok e = cc

pub Outcome-cases {ℓ} :
    {A : Type ℓ} (m : Outcome A) → ((e : Fault) × (m ≡ fault e)) ⊎ ((a : A) × (m ≡ ok a))
Outcome-cases (ok a) = inr (a, refl)
Outcome-cases (fault e) = inl (e, refl)

-- Without a failure there is a value.
pub ok_of_failure {ℓ} : {A : Type ℓ} (m : Outcome A) → failure m ≡ none → (a : A) × (m ≡ ok a)
ok_of_failure (ok a) e = (a, refl)
ok_of_failure (fault x) e = cc

-- Two parts that do not fail make a whole that does not.
pub failure_then {ℓ κ} :
    {A : Type ℓ} {B : Type κ} (m : Outcome A) (f : A → Outcome B)
    → failure m ≡ none
    → ((a : A) → failure (f a) ≡ none)
    → failure (m >>= f) ≡ none
failure_then (ok a) f e go = go a
failure_then (fault x) f e go = cc
