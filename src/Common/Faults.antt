-- ===== src/Common/Faults.antt =====
-- A call that either returns or does what C leaves undefined.
use mathlib.Core.Path.{◌≡◌}
use mathlib.Core.Option.{Option, none, some}
use mathlib.Core.Bool.{Bool, true, false}
use cdtp.Common.Tests.{if◌then◌else◌}

-- `no_return`: a loop that has not ended when its fuel has. `out_of_bounds`: an access outside an
-- array. `bad_pointer`: a use of a pointer that is NULL or was never set. `overflow`: a sum of two
-- `int`s that is none.
pub data Fault : Type 0 where
  no_return out_of_bounds bad_pointer overflow : Fault

pub data Run {ℓ} (A : Type ℓ) : Type ℓ where
  fault : Fault → Run A
  ok : A → Run A

infixl 5 ◌>>=◌
abbrev pub ◌>>=◌ {ℓ κ} : {A : Type ℓ} {B : Type κ} → Run A → (A → Run B) → Run B
fault e >>= next = fault e
ok a >>= next = next a

-- The same under another name, for a file that has a monad of its own.
infixl 5 ◌then_run◌
abbrev pub ◌then_run◌ {ℓ κ} : {A : Type ℓ} {B : Type κ} → Run A → (A → Run B) → Run B
◌then_run◌ = ◌>>=◌

-- a pointer that has to be set
abbrev pub set_pointer {ℓ} : {A : Type ℓ} → Option A → Run A
set_pointer none = fault bad_pointer
set_pointer (some a) = ok a

-- The call returns, with a result that satisfies `P`.
abbrev pub Returns {κ ℓ} : {B : Type κ} (m : Run B) (Post : B → Type ℓ) → Type (κ ⊔ ℓ)
Returns {B} m Post = (b : B) × (m ≡ ok b) × Post b

-- Whatever the call returns, if it returns, satisfies `P`.
abbrev pub Ensures {ℓ κ} : {A : Type ℓ} → Run A → (A → Type κ) → Type κ
Ensures (ok a) P = P a
Ensures (fault e) P = Unit

pub bind-Ensures {ℓ κ μ} :
    {A : Type ℓ} {B : Type κ} (m : Run A) (f : A → Run B) (P : B → Type μ)
    → ((a : A) → Ensures (f a) P)
    → Ensures (m >>= f) P
bind-Ensures (ok a) f P h = h a
bind-Ensures (fault e) f P h = tt

pub Ensures-ok {ℓ κ} :
    {A : Type ℓ} (m : Run A) (P : A → Type κ) {a : A} → Ensures m P → m ≡ ok a → P a
Ensures-ok m P h e = rw e at h

pub then-Ensures {ℓ κ μ ν} :
    {A : Type ℓ} {B : Type κ} (m : Run A) (f : A → Run B) (P : A → Type μ) (Q : B → Type ν)
    → Ensures m P
    → ((a : A) → P a → Ensures (f a) Q)
    → Ensures (m >>= f) Q
then-Ensures (ok a) f P Q h k = k a h
then-Ensures (fault e) f P Q h k = tt

pub weaken-Ensures {ℓ κ μ} :
    {A : Type ℓ} (m : Run A) (P : A → Type κ) (Q : A → Type μ)
    → Ensures m P
    → ((a : A) → P a → Q a)
    → Ensures m Q
weaken-Ensures (ok a) P Q h k = k a h
weaken-Ensures (fault e) P Q h k = tt

pub if-Ensures {ℓ κ} :
    {A : Type ℓ} (b : Bool) (m m' : Run A) (P : A → Type κ)
    → Ensures m P
    → Ensures m' P
    → Ensures (if b then m else m') P
if-Ensures true m m' P h k = h
if-Ensures false m m' P h k = k
