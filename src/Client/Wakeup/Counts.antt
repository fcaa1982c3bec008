-- ===== src/Client/Wakeup/Counts.antt =====
-- How many threads are at which stage of the start.
use mett_eagle.Base.{ℕ, ◌+◌, ◌≡◌, refl, List, [], ◌∷◌, ◌++◌, arith}
use mett_eagle.Client.Wakeup.{
  Stage, registering, failed, asleep, woken, passed, measuring, created, asleep_count,
}

-- One thread's share of each count.
pub record Share : Type 0 where
  pub register : ℕ
  pub fail : ℕ
  pub sleep : ℕ
  pub awake : ℕ
  pub measure : ℕ

abbrev pub share : Stage → Share
share registering = record { register = 1; fail = 0; sleep = 0; awake = 0; measure = 0 }
share failed = record { register = 0; fail = 1; sleep = 0; awake = 0; measure = 0 }
share asleep = record { register = 0; fail = 0; sleep = 1; awake = 0; measure = 0 }
share woken = record { register = 0; fail = 0; sleep = 0; awake = 1; measure = 0 }
share passed = record { register = 0; fail = 0; sleep = 0; awake = 1; measure = 0 }
share measuring = record { register = 0; fail = 0; sleep = 0; awake = 0; measure = 1 }

abbrev pub tally : (Share → ℕ) → List Stage → ℕ
tally of [] = 0
tally of (p ∷ ps) = of (share p) + tally of ps

tally-append :
    (of : Share → ℕ) (xs ys : List Stage) → tally of (xs ++ ys) ≡ tally of xs + tally of ys
tally-append of [] ys = omega arith
tally-append of (x ∷ xs) ys = omega (arith, tally-append of xs ys)

pub created-append : (xs ys : List Stage) → created (xs ++ ys) ≡ created xs + created ys
created-append [] ys = omega arith
created-append (x ∷ xs) ys = omega (arith, created-append xs ys)

pub asleep_count-tally : (ps : List Stage) → asleep_count ps ≡ tally (λ s. s.sleep) ps
asleep_count-tally [] = refl
asleep_count-tally (registering ∷ ps) = omega (arith, asleep_count-tally ps)
asleep_count-tally (failed ∷ ps) = omega (arith, asleep_count-tally ps)
asleep_count-tally (asleep ∷ ps) = omega (arith, asleep_count-tally ps)
asleep_count-tally (woken ∷ ps) = omega (arith, asleep_count-tally ps)
asleep_count-tally (passed ∷ ps) = omega (arith, asleep_count-tally ps)
asleep_count-tally (measuring ∷ ps) = omega (arith, asleep_count-tally ps)

abbrev pub registering_count : List Stage → ℕ
registering_count ps = tally (λ s. s.register) ps

abbrev pub failed_count : List Stage → ℕ
failed_count ps = tally (λ s. s.fail) ps

abbrev pub sleeping_count : List Stage → ℕ
sleeping_count ps = tally (λ s. s.sleep) ps

-- Woken, or about to notify.
abbrev pub awake_count : List Stage → ℕ
awake_count ps = tally (λ s. s.awake) ps

abbrev pub measuring_count : List Stage → ℕ
measuring_count ps = tally (λ s. s.measure) ps

abbrev AddUp : List Stage → Stage → List Stage → Type 0
AddUp before p after =
    (created (before ++ p ∷ after) ≡ 1 + (created before + created after))
    × (registering_count (before ++ p ∷ after)
        ≡ (share p).register + (registering_count before + registering_count after))
    × (failed_count (before ++ p ∷ after)
        ≡ (share p).fail + (failed_count before + failed_count after))
    × (sleeping_count (before ++ p ∷ after)
        ≡ (share p).sleep + (sleeping_count before + sleeping_count after))
    × (awake_count (before ++ p ∷ after)
        ≡ (share p).awake + (awake_count before + awake_count after))
    × (measuring_count (before ++ p ∷ after)
        ≡ (share p).measure + (measuring_count before + measuring_count after))

pub add_up : (before : List Stage) (p : Stage) (after : List Stage) → AddUp before p after
add_up before p after = (
  omega (arith, created-append before (p ∷ after)),
  omega (arith, tally-append (λ s. s.register) before (p ∷ after)),
  omega (arith, tally-append (λ s. s.fail) before (p ∷ after)),
  omega (arith, tally-append (λ s. s.sleep) before (p ∷ after)),
  omega (arith, tally-append (λ s. s.awake) before (p ∷ after)),
  omega (arith, tally-append (λ s. s.measure) before (p ∷ after)),
)
