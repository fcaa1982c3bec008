-- ===== src/Invoke/Timeout.antt =====
-- The time that `check_timeout` leaves to a worker.
use mett_eagle.Base.{ℕ, ◌+◌, ◌*◌, ◌^◌, ◌≤◌, ◌<◌, ◌≡◌, ◌↔◌, arith, returns, throws, efault}
use mett_eagle.Invoke.{check_timeout}

-- While the clock does not run backwards, the timeout that is left ends at the deadline, the start
-- plus the limit, or less than a microsecond later.
check_timeout_deadline :
    (start now limit left : ℕ)
    → start ≤ now
    → limit < 2 ^ 32
    → check_timeout start now limit ≡ returns left
    → (start + 1000 * limit ≤ now + 1000 * left) × (now + 1000 * left < start + 1000 * limit + 1000)
unfolding check_timeout
check_timeout_deadline start now limit left order small h = ground arith

-- It throws -L4_EFAULT exactly when the deadline has passed by a whole microsecond.
check_timeout_throws :
    (start now limit : ℕ)
    → (check_timeout start now limit ≡ throws efault) ↔ (start + 1000 * limit + 1000 ≤ now)
unfolding check_timeout
check_timeout_throws start now limit = (λ h. ground arith, λ h. ground arith)
