-- ===== src/Examples/Wakeups.antt =====
-- The start of two clients with their condition variables: mett-eagle-client/client/client.cc.
use mett_eagle.Base.{◌≡◌, ◌⊎◌, refl, [], ◌∷◌, arith}
use mett_eagle.Client
use mett_eagle.Client.{no_clients}
use mett_eagle.Client.Wakeup.{
  asleep, passed, registering, tests, sleeps, Threads, no_threads, main_goes_on, main_falls_asleep,
  main_creates, registers, registers_last, client_wakes, falls_asleep, Reach, here, later, wakes,
}
use mett_eagle.Client.Wakeup.Counts.{measuring_count}
use mett_eagle.Client.Wakeup.Awake.{Moves, no_lost_wakeup}
use mett_eagle.Client.Wakeup.Refines.{view, start_refines}

-- The first client sleeps, and the second one was the last.
abbrev last_passed : Threads
last_passed = record { waiting_count = 2; clients = asleep ∷ passed ∷ []; main = tests }

-- `main` sleeps while the first client registers, and the first client wakes once on its own.
two_start : Reach 2 no_threads last_passed
two_start =
    later
      (later
        (later
          (later
            (wakes
              (later
                (later
                  (later (later here (main_goes_on 0 [] (omega arith) refl)) (main_creates 0 []))
                  (main_falls_asleep 0 (registering ∷ []) (omega arith) (λ h. omega arith)))
                (registers 0 [] [] sleeps (λ h. omega arith)))
              (client_wakes 1 [] [] tests))
            (falls_asleep 1 [] [] tests (λ h. omega arith)))
          (main_goes_on 1 (asleep ∷ []) (omega arith) refl))
        (main_creates 1 (asleep ∷ [])))
      (registers_last 1 (asleep ∷ []) [] tests refl)

no_lost_wakeup_example : (measuring_count last_passed.clients ≡ 2) ⊎ Moves 2 last_passed
no_lost_wakeup_example = no_lost_wakeup 2 last_passed two_start refl

start_refines_example : mett_eagle.Client.Reach 2 no_clients (view last_passed)
start_refines_example = start_refines 2 last_passed two_start
