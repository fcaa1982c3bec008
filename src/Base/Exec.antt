-- ===== src/Base/Exec.antt =====
-- Code that changes a state and may throw: what it changed before the throw stays changed.
use mett_eagle.Base.Control.{Outcome, returns, throws, blocks}

abbrev pub Exec {ℓ κ} : Type ℓ → Type κ → Type (ℓ ⊔ κ)
Exec S A = S → S × Outcome A

abbrev pub pure {ℓ κ} : {S : Type ℓ} {A : Type κ} → A → Exec S A
pure a s = (s, returns a)

abbrev pub resume {ℓ κ μ} :
    {S : Type ℓ} {A : Type κ} {B : Type μ} → S → Outcome A → (A → Exec S B) → S × Outcome B
resume s (returns a) f = f a s
resume s (throws e) f = (s, throws e)
resume s blocks f = (s, blocks)

infixl 5 ◌>>=◌ ◌>>◌
abbrev pub ◌>>=◌ {ℓ κ μ} :
    {S : Type ℓ} {A : Type κ} {B : Type μ} → Exec S A → (A → Exec S B) → Exec S B
◌>>=◌ m f s = resume (m s).0 (m s).1 f

abbrev pub ◌>>◌ {ℓ κ μ} : {S : Type ℓ} {A : Type κ} {B : Type μ} → Exec S A → Exec S B → Exec S B
◌>>◌ m k s = resume (m s).0 (m s).1 (λ _. k)

-- A check that changes nothing.
abbrev pub check {ℓ κ} : {S : Type ℓ} {A : Type κ} → Outcome A → Exec S A
check o s = (s, o)

abbrev pub modify {ℓ} : {S : Type ℓ} → (S → S) → Exec S (Unit {0})
modify f s = (f s, returns tt)

abbrev pub read {ℓ} : {S : Type ℓ} → Exec S S
read s = (s, returns s)
