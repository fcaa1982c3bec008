-- ===== src/Base/Control.antt =====
-- How a call ends: it returns, it throws, or it waits for a message that never comes.
-- The error numbers are those of L4 (l4/sys/err.h) that the code raises itself; `kernel` is a
-- code that a call outside the repository reported.
use Prim.Native.Nat.{ℕ}
use mathlib.Core.Path.{◌≡◌, refl}
use mathlib.Core.Bool.{Bool, true, false}
use mathlib.Core.Option.{Option, none, some}

pub data Error : Type 0 where
  einval eexist enoent enomem efault emsgtoolong ebadproto : Error
  kernel : ℕ → Error

-- The label of a handler's answer: L4_EOK, -L4_ENOREPLY (no answer is sent), or another error.
pub data Label : Type 0 where
  eok enoreply : Label
  failed : Error → Label

pub data Outcome {ℓ} (A : Type ℓ) : Type ℓ where
  returns : A → Outcome A
  throws : Error → Outcome A
  blocks : Outcome A

infixl 5 ◌>>=◌ ◌>>◌
abbrev pub ◌>>=◌ {ℓ κ} : {A : Type ℓ} {B : Type κ} → Outcome A → (A → Outcome B) → Outcome B
returns a >>= f = f a
throws e >>= f = throws e
blocks >>= f = blocks

abbrev pub ◌>>◌ {ℓ} : {B : Type ℓ} → Outcome (Unit {0}) → Outcome B → Outcome B
m >> k = m >>= λ _. k

-- `if (L4_UNLIKELY (bad)) throw Loggable_exception (e, ...)`
abbrev pub throw_if : Bool → Error → Outcome (Unit {0})
throw_if true e = throws e
throw_if false e = returns tt

-- The checks of l4/re/error_helper, which the manager calls; those of liblog are in Log.Checks.
-- `chksys`, `chkipc`: the system call reported an error, or none.
abbrev pub chksys : Option Error → Outcome (Unit {0})
chksys none = returns tt
chksys (some e) = throws e

-- `chkcap`: the capability is valid, or `err` is thrown.
abbrev pub chkcap {ℓ} : {A : Type ℓ} → Option A → Error → Outcome A
chkcap none e = throws e
chkcap (some c) e = returns c

-- What was returned, if anything was.
abbrev pub result? {ℓ} : {A : Type ℓ} → Outcome A → Option A
result? (returns a) = some a
result? _ = none

-- Inversion of a bind that returned.
pub >>=-eq-returns {ℓ κ} :
    {A : Type ℓ} {B : Type κ} (m : Outcome A) (f : A → Outcome B) {b : B}
    → (m >>= f) ≡ returns b
    → (a : A) × (m ≡ returns a) × (f a ≡ returns b)
>>=-eq-returns (returns a) f h = (a, refl, h)
>>=-eq-returns (throws e) f h = cc
>>=-eq-returns blocks f h = cc

pub returns-injective {ℓ} : {A : Type ℓ} {a b : A} → returns a ≡ returns b → a ≡ b
returns-injective h = cc
