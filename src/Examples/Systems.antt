-- ===== src/Examples/Systems.antt =====
-- The benchmark at a manager with two free CPUs.
use mett_eagle.Base.{
  ℕ, zero, suc, inl, All, ◌+◌, ◌/◌, ◌<◌, ◌≡◌, refl, true, false, List, [], ◌∷◌, map, none, some,
  arith, Bytes,
}
use mett_eagle.Cpu.Bitset.{bits_of}
use mett_eagle.Startup.Main.{initial}
use mett_eagle.Manager.{Manager, Event, registers, asks, gate_deleted, absent}
use mett_eagle.Manager.Isolation.{Spares, requests_of}
use mett_eagle.Client.{Choice, Settings, threads, iterations, output, read_options}
use mett_eagle.Client.Main.{to_string, succeeds, hangs, client_main}
use mett_eagle.Faas.{Code}
use mett_eagle.System.{Participant, surroundings_at}
use mett_eagle.System.Connected.{IsAdmitted}
use mett_eagle.System.Served.{Visits, Visit, visit_request, IsPrompt}
use mett_eagle.System.Benchmark.{entries, benchmark_succeeds, benchmark_hangs}
use mett_eagle.Examples.Workers.{list_loader}
use mett_eagle.Examples.Cpus.{good}
use mett_eagle.Examples.Invocations.{all_good, through}

-- Two CPUs in the scheduler's map, and no client.
abbrev started : Manager
started = record { registry = initial 3; threads = λ gate. absent }

abbrev participant : ℕ → Participant
participant i = record {
  thread = none;
  scheduler = none;
  run_thread = none;
  registry = some 2;
  slot = some 3;
  calls = record good { gate = some (7 + i) };
  file = some 5;
  received = record { cap_received = true; cap = 9; valid = true; realloc_failed = false };
}

abbrev gate : ℕ → ℕ
gate i = 7 + i

participant-IsAdmitted : (i : ℕ) → IsAdmitted (participant i) (gate i)
participant-IsAdmitted i = ground arith

abbrev visit : Visit
visit = record {
  setup = all_good;
  ret_length = 504;
  now = 1500;
  start_function = 2000;
  end_function = 3000;
}

visit-IsPrompt : IsPrompt visit
visit-IsPrompt = ground arith

abbrev word : Code → ℕ
word c = 0

abbrev clock : ℕ → ℕ → ℕ × ℕ
clock client i = (500, 9500)

-- The second client is faster, and a third one tries to register.
abbrev events : List Event
events =
    asks 8 (visit_request word visit)
    ∷ registers (record good { gate = some 20 })
    ∷ asks 7 (visit_request word visit)
    ∷ gate_deleted true 7
    ∷ []

abbrev options : List Choice
options = threads (some 2) ∷ iterations (some 1) ∷ []

abbrev settings : Settings
settings = record { thread_num = 2; iterations = 1 }

abbrev many_options : List Choice
many_options = threads (some 3) ∷ iterations (some 1) ∷ []

abbrev many : Settings
many = record { thread_num = 3; iterations = 1 }

abbrev no_range : List ℕ → Bytes
no_range ns = []

abbrev to_us : ℕ → ℕ
to_us n = n / 1000

spared : (j : ℕ) → j < 2 → All (Spares (gate j)) events
spared j lt = (tt, ((λ h. ground arith), (tt, (inl refl, tt))))

visited : (j : ℕ) → j < 2 → Visits word (requests_of (gate j) events) (visit ∷ [])
visited zero lt = (refl, visit-IsPrompt, tt)
visited (suc zero) lt = (refl, visit-IsPrompt, tt)
visited (suc (suc j)) lt = absurd (omega arith)

benchmark_succeeds_example :
    client_main no_range to_us
      (surroundings_at list_loader through participant clock 2 events started)
      false
      options
    ≡ succeeds (output (map (to_string no_range) (entries to_us clock (λ i. visit ∷ []) 0 2)))
unfolding read_options bits_of
benchmark_succeeds_example =
    benchmark_succeeds list_loader through no_range to_us clock options settings refl participant
      gate started refl (λ j k lt. omega arith) (λ j lt. participant-IsAdmitted j) events word
      (λ i. visit ∷ []) (omega arith) spared visited (λ j lt. refl)

benchmark_hangs_example :
    client_main no_range to_us
      (surroundings_at list_loader through participant clock 3 events started)
      false
      many_options
    ≡ hangs
unfolding read_options bits_of
benchmark_hangs_example =
    benchmark_hangs list_loader through no_range to_us clock many_options many refl participant gate
      started refl (λ j k lt. omega arith) (λ j lt. participant-IsAdmitted j) events (omega arith)
      (omega arith)
