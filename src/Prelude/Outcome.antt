-- ===== src/Prelude/Outcome.antt =====
-- What a run of a C function comes to. Undefined behaviour of the memory (a read or a write outside
-- a block, a string without its terminator) is `fault`; `starved` is no outcome of the program: the
-- fuel of a modelled loop ran out.
use mathlib.Core.Path.{◌≡◌, refl}
use mathlib.Core.Option.{Option, none, some}
use mathlib.Core.Logic.{◌⊎◌, ◌≢◌, inl, inr}
use mathlib.Core.Bool.{Bool, true, false}
use as_smpp.Prelude.Tests.{if◌then◌else◌}

pub data Run {ℓ} (A : Type ℓ) : Type ℓ where
  ret : A → Run A
  fault : Run A
  starved : Run A

infixl 5 ◌>>=◌
abbrev pub ◌>>=◌ {ℓ κ} : {A : Type ℓ} {B : Type κ} → Run A → (A → Run B) → Run B
ret a >>= f = f a
fault >>= f = fault
starved >>= f = starved

-- An access that may be out of bounds.
abbrev pub access {ℓ} : {A : Type ℓ} → Option A → Run A
access none = fault
access (some a) = ret a

pub >>=-assoc {ℓ κ μ} :
    {A : Type ℓ} {B : Type κ} {C : Type μ} (m : Run A) (f : A → Run B) (g : B → Run C)
    → ((m >>= f) >>= g) ≡ (m >>= λ a. f a >>= g)
>>=-assoc (ret a) f g = refl
>>=-assoc fault f g = refl
>>=-assoc starved f g = refl

pub bind_cong {ℓ κ} :
    {A : Type ℓ} {B : Type κ} (m : Run A) {f g : A → Run B}
    → ((a : A) → f a ≡ g a)
    → (m >>= f) ≡ (m >>= g)
bind_cong (ret a) h = h a
bind_cong fault h = refl
bind_cong starved h = refl

pub ret_injective {ℓ} : {A : Type ℓ} {a b : A} → ret a ≡ ret b → a ≡ b
ret_injective e = cc

-- A chain that returns has a first part that returns.
pub bind_returns {ℓ κ} :
    {A : Type ℓ} {B : Type κ} (m : Run A) (f : A → Run B) (b : B)
    → (m >>= f) ≡ ret b
    → (a : A) × (m ≡ ret a) × (f a ≡ ret b)
bind_returns (ret a) f b h = (a, refl, h)
bind_returns fault f b h = cc
bind_returns starved f b h = cc

-- A run that returns a value with `P`, or faults; the fuel does not run out.
pub data Safe {ℓ κ} {A : Type ℓ} (P : A → Type κ) : Run A → Type (ℓ ⊔ κ) where
  returns : {a : A} → P a → Safe P (ret a)
  faults : Safe P fault

pub Safe-bind {ℓ κ μ ν} :
    {A : Type ℓ} {B : Type κ} {P : A → Type μ} {Q : B → Type ν} {m : Run A} {f : A → Run B}
    → Safe P m
    → ((a : A) → P a → Safe Q (f a))
    → Safe Q (m >>= f)
Safe-bind (returns h) k = k _ h
Safe-bind faults k = faults

pub Safe-map {ℓ κ μ} :
    {A : Type ℓ} {P : A → Type κ} {Q : A → Type μ} {m : Run A}
    → ((a : A) → P a → Q a)
    → Safe P m
    → Safe Q m
Safe-map k (returns h) = returns (k _ h)
Safe-map k faults = faults

pub Safe-cases {ℓ κ} :
    {A : Type ℓ} {P : A → Type κ} {m : Run A}
    → Safe P m
    → (m ≡ fault) ⊎ ((a : A) × (m ≡ ret a) × P a)
Safe-cases (returns h) = inr (_, refl, h)
Safe-cases faults = inl refl

pub Safe-if {ℓ κ} :
    {A : Type ℓ} {P : A → Type κ} (b : Bool) {x y : Run A}
    → Safe P x
    → Safe P y
    → Safe P (if b then x else y)
Safe-if true h k = h
Safe-if false h k = k

-- A run that does not run out of fuel.
abbrev pub Ends {ℓ} : {A : Type ℓ} → Run A → Type ℓ
Ends r = Safe (λ a. Unit {0}) r

pub Ends-ne {ℓ} : {A : Type ℓ} (m : Run A) → m ≢ starved → Ends m
Ends-ne (ret a) h = returns tt
Ends-ne fault h = faults
Ends-ne starved h = absurd (h refl)
