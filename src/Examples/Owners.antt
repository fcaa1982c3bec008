-- ===== src/Examples/Owners.antt =====
-- CPUs of several clients, from the start of the manager on.
use mett_eagle.Base.{ℕ, ◌^◌, ◌≡◌, ◌≢◌, refl, false, List, [], ◌∷◌, none, some, arith}
use mett_eagle.Cpu.Bitset.{get, bits_of, ffsll, to_ullong}
use mett_eagle.Cpu.{width, select_client_cpu}
use mett_eagle.Registry.{op_register_client}
use mett_eagle.Registry.Lossless.{IsGranted}
use mett_eagle.Registry.Sessions.{word_of}
use mett_eagle.Startup.{Started, manager_main}
use mett_eagle.Startup.Main.{initial}
use mett_eagle.Actions.{no_actions}
use mett_eagle.Manager.{
  absent, serving, Manager, Event, registers, gate_deleted, step, run, start_thread, take_irq,
}
use mett_eagle.Manager.Placement.{AreNew}
use mett_eagle.Manager.OwnCpu.{started, OwnsCpu, own_cpu}
use mett_eagle.Manager.Leaving.{LeavesRoom, without, leaving_frees_cpu}
use mett_eagle.Manager.TakenCpu.{taken_cpu_owned}
use mett_eagle.Examples.Workers.{list_loader}
use mett_eagle.Examples.Cpus.{good}
use mett_eagle.Examples.Invocations.{through}

-- The scheduler has the CPUs 1 and 2. Two clients come, and the first one goes.
abbrev coming : List Event
coming =
    registers (record good { gate = some 7 })
    ∷ registers (record good { gate = some 8 })
    ∷ gate_deleted false 7
    ∷ []

abbrev last : Manager
last = (run list_loader through coming (started (initial 6))).0

main_serves : manager_main none 6 (some 3) ≡ Started.serving (initial 6)
unfolding manager_main
main_serves = refl

coming-AreNew : AreNew list_loader through coming (started (initial 6))
unfolding step start_thread op_register_client select_client_cpu
coming-AreNew = ((λ g h. refl), ((λ g h. ground arith), (tt, tt)))

still_serving : last.threads 8 ≡ serving no_actions
unfolding run step start_thread op_register_client select_client_cpu take_irq bits_of ffsll
    to_ullong
still_serving = refl

own_cpu_example : (k : ℕ) × OwnsCpu (bits_of width 6) last 8 k
own_cpu_example =
    own_cpu list_loader through none 6 3 (initial 6) coming 8 main_serves (tt, (tt, (tt, tt)))
      coming-AreNew (λ gone. cc still_serving)

-- Before the first one goes.
abbrev arriving : List Event
arriving =
    registers (record good { gate = some 7 }) ∷ registers (record good { gate = some 8 }) ∷ []

abbrev both : Manager
both = (run list_loader through arriving (started (initial 6))).0

arriving-AreNew : AreNew list_loader through arriving (started (initial 6))
unfolding step start_thread op_register_client select_client_cpu
arriving-AreNew = ((λ g h. refl), ((λ g h. ground arith), tt))

second_taken : get both.registry.available 2 ≡ false
unfolding run step op_register_client select_client_cpu bits_of ffsll to_ullong
second_taken = refl

granted : (gate : ℕ) → IsGranted (record good { gate = some gate }) gate
granted gate = record { scheduler = refl; named = refl; counted = refl; irq = refl; runs = refl }

taken_cpu_owned_example :
    (g : ℕ) × (both.threads g ≢ absent) × (word_of g both.registry.sessions ≡ some (2 ^ 2))
unfolding bits_of
taken_cpu_owned_example =
    taken_cpu_owned list_loader through none 6 3 (initial 6) arriving 2 main_serves (tt, (tt, tt))
      arriving-AreNew ((7, granted 7), ((8, granted 8), tt)) refl second_taken

first_serving : both.threads 7 ≡ serving no_actions
unfolding run step start_thread op_register_client select_client_cpu bits_of ffsll to_ullong
first_serving = refl

leaving_frees_cpu_example :
    LeavesRoom
      (bits_of width 6)
      7
      9
      both
      (without list_loader through 7 both)
      (step list_loader through
        (registers (record good { gate = some 9 }))
        (without list_loader through 7 both)).0
leaving_frees_cpu_example =
    leaving_frees_cpu list_loader through none 6 3 (initial 6) arriving 7 9 no_actions
      (record good { gate = some 9 }) main_serves (tt, (tt, tt)) arriving-AreNew first_serving
      (granted 9)
