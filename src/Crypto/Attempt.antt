-- ===== src/Crypto/Attempt.antt =====
-- Calls that may return NULL.
use cdtp.Common.{Fault, Run, ok, fault, bad_pointer, Option, none, some}

-- `null`: NULL is returned, with the OpenSSL error set. `crash`: a fault.
pub data Attempt {ℓ} (A : Type ℓ) : Type ℓ where
  done : A → Attempt A
  null : Attempt A
  crash : Fault → Attempt A

infixl 5 ◌>>=◌
abbrev pub ◌>>=◌ {ℓ κ} : {A : Type ℓ} {B : Type κ} → Attempt A → (A → Attempt B) → Attempt B
done a >>= f = f a
null >>= f = null
crash e >>= f = crash e

-- a step that cannot return NULL
abbrev pub run {ℓ} : {A : Type ℓ} → Run A → Attempt A
run (ok a) = done a
run (fault e) = crash e

-- a call of OpenSSL, whose failure is the caller's
abbrev pub check {ℓ} : {A : Type ℓ} → Option A → Attempt A
check none = null
check (some a) = done a

-- the caller goes on to read through the pointer
abbrev pub deref {ℓ} : {A : Type ℓ} → Attempt A → Run A
deref (done a) = ok a
deref null = fault bad_pointer
deref (crash e) = fault e
