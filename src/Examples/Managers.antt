-- ===== src/Examples/Managers.antt =====
-- Several clients at one manager.
use mett_eagle.Base.{◌≡◌, refl, inr, true, false, List, [], ◌∷◌, some, arith, bytes, eok}
use mett_eagle.Cpu.Bitset.{get, bits_of, ffsll, to_ullong}
use mett_eagle.Actions.{Received, op_action_create, op_action_delete, no_actions, binary, python}
use mett_eagle.Invoke.{quiet}
use mett_eagle.Invoke.{op_action_invoke, invoke_with, prepare, serve, receive_timeout}
use mett_eagle.Server.{create, delete, invoke, label, handle, internal_loop}
use mett_eagle.Manager.{
  absent, hanging, serving, Manager, Event, registers, asks, gate_deleted, update, step, run,
  serve_request, settled, overlaps, begins, selects, leaves, frees, overlap, start_thread,
}
use mett_eagle.Manager.OwnCpu.{started}
use mett_eagle.Startup.Main.{initial}
use mett_eagle.Registry.Sessions.{word_of}
use mett_eagle.Registry.{op_register_client, take_session}
use mett_eagle.Registry.Race.{select_step, free_step}
use mett_eagle.Cpu.{select_client_cpu}
use mett_eagle.Manager.Isolation.{requests_of, answers_of, answers_isolated}
use mett_eagle.Manager.Hanging.{hanging_keeps_cpu}
use mett_eagle.Examples.Workers.{list_loader}
use mett_eagle.Examples.Cpus.{good, one_client, one_client-IsExclusive}
use mett_eagle.Examples.Invocations.{all_good, no_limits, through}

abbrev sent : Received
sent = record { cap_received = true; cap = 9; valid = true; realloc_failed = false }

-- The client of gate 7 has registered.
abbrev connected : Manager
connected = record {
  registry = one_client;
  threads = update (λ gate. absent) 7 (serving no_actions);
}

-- Another client comes, creates an action under the same name, and goes.
abbrev events : List Event
events =
    registers (record good { gate = some 8 })
    ∷ asks 8 (create (bytes "f") sent binary)
    ∷ asks 7 (create (bytes "f") sent python)
    ∷ gate_deleted false 8
    ∷ asks 7 (delete (bytes "f"))
    ∷ []

answers_isolated_example :
    answers_of 7 (run list_loader through events connected).1
    ≡ (internal_loop list_loader through (requests_of 7 events) no_actions).1
answers_isolated_example =
    answers_isolated list_loader through 7 events connected no_actions refl
      ((λ h. ground arith), (tt, (tt, (inr (λ h. ground arith), (tt, tt)))))

two_answers :
    (internal_loop list_loader through (requests_of 7 events) no_actions).1
    ≡ label eok ∷ label eok ∷ []
unfolding internal_loop op_action_create op_action_delete
two_answers = refl

-- The worker of the invocation sends nothing.
abbrev waits : List Event
waits =
    asks 7 (create (bytes "f") sent python)
    ∷ asks 7 (invoke (bytes "f") (bytes "x") 3 no_limits all_good (quiet 9000))
    ∷ []

waits_for_ever : (run list_loader through waits connected).0.threads 7 ≡ hanging
unfolding run step serve_request settled handle op_action_create op_action_invoke invoke_with
    prepare serve receive_timeout
waits_for_ever = refl

-- Its client deletes its gate; its CPU is number 2.
abbrev hung : Manager
hung = record { registry = one_client; threads = update (λ gate. absent) 7 hanging }

hanging_keeps_cpu_example :
    ((run list_loader through (gate_deleted false 7 ∷ events) hung).0.threads 7 ≡ hanging)
    × (get (run list_loader through (gate_deleted false 7 ∷ events) hung).0.registry.available 2
        ≡ false)
unfolding bits_of
hanging_keeps_cpu_example =
    hanging_keeps_cpu list_loader through 7 4 (gate_deleted false 7 ∷ events) hung 2
      one_client-IsExclusive refl refl refl (tt, ((λ h. ground arith), (tt, (tt, (tt, (tt, tt))))))

-- CPUs 1 and 2 are free at first. The client of gate 7 goes while that of gate 8 registers: its thread
-- loads the bitset before the selection and stores it behind.
abbrev collision : List Event
collision =
    registers (record good { gate = some 7 })
    ∷ overlaps (
        leaves 7
        ∷ frees 7
        ∷ begins (record good { gate = some 8 })
        ∷ selects
        ∷ selects
        ∷ selects
        ∷ frees 7
        ∷ [])
    ∷ registers (record good { gate = some 9 })
    ∷ registers (record good { gate = some 10 })
    ∷ []

abbrev collided : Manager
collided = (run list_loader through collision (started (initial 6))).0

-- CPU 2 is handed out twice.
one_cpu_for_two :
    (word_of 8 collided.registry.sessions ≡ some 4)
    × (word_of 10 collided.registry.sessions ≡ some 4)
unfolding run step overlap select_step free_step start_thread op_register_client select_client_cpu
    bits_of ffsll to_ullong take_session
one_cpu_for_two = (refl, refl)
