-- ===== src/Examples/Clients.antt =====
-- The benchmark client: mett-eagle-client/client/client.cc.
use mett_eagle.Base.{
  ℕ, zero, suc, Bytes, map, false, true, ◌++◌, ◌/◌, ◌≤◌, ◌<◌, ◌+◌, ◌≡◌, ◌≢◌, refl, [], ◌∷◌, none,
  some, arith, bytes, length, Option, List, returns, throws, enomem, blocks,
}
use mett_eagle.Client.{
  Choice, Settings, defaults, threads, iterations, help, runs, exits, read_options, create_client,
  register, waiting, measuring, Clients, no_clients, no_metrics, created, creates, registers,
  passes, Reach, here, later, Sample, measure, output, print_from,
}
use mett_eagle.Client.Main.{
  to_string, Surroundings, registration, counted, crashes, hangs, after_options, client_main,
}
use mett_eagle.Client.Loops.{IsCreated, IsServed}
use mett_eagle.Client.Ends.{client_main-hangs}
use mett_eagle.Client.Json.{IsValue, IsListOf, no_items, array, item, number, output-IsValue}
use mett_eagle.Client.Measure.{successes, take, metrics_of, measure_returns}
use mett_eagle.Client.Start.{registering_count, failed_count, measuring_count, Reach-IsInStep}

-- Nanoseconds to microseconds.
abbrev to_us : ℕ → ℕ
to_us n = n / 1000

abbrev sample : Sample
sample = record {
  start_invocation = 1000;
  end_invocation = 9000;
  data' = record {
    worker_metadata = record {
      start_runtime = 3000;
      start_function = 4000;
      end_function = 5000;
      end_runtime = 6000;
    };
    start_worker = 2000;
    end_worker = 7000;
  };
}

-- Two iterations; the second invocation fails.
abbrev answers : List (Option Sample)
answers = some sample ∷ none ∷ some sample ∷ []

measure_returns_example :
    (2 ≤ length (successes answers)
      → measure to_us 2 answers no_metrics
        ≡ returns (metrics_of to_us (take 2 (successes answers))))
    × (length (successes answers) < 2 → measure to_us 2 answers no_metrics ≡ blocks)
measure_returns_example = measure_returns to_us 2 answers

abbrev one_measures : Clients
one_measures = record { waiting_count = 2; threads = waiting ∷ measuring ∷ [] }

-- Both clients register, and the second one passes the barrier first.
both : Reach 2 no_clients one_measures
both =
    later
      (later
        (later (later (later here (creates 0 [] (omega arith) refl)) (registers 0 [] []))
          (creates 1 (waiting ∷ []) (omega arith) refl))
        (registers 1 (waiting ∷ []) []))
      (passes 2 (waiting ∷ []) [] refl)

Reach-IsInStep_example :
    (registering_count one_measures + failed_count one_measures ≤ 1)
    × (measuring_count one_measures ≢ 0
        → (created one_measures.threads ≡ 2)
          × (one_measures.waiting_count ≡ 2)
          × (failed_count one_measures ≡ 0))
Reach-IsInStep_example = Reach-IsInStep 2 one_measures both

output_two :
    output (bytes "a" ∷ bytes "b" ∷ [])
    ≡ bytes "====   OUTPUT   ====\n[a\n,b\n ]\n==== END OUTPUT ====\n"
unfolding output print_from
output_two = refl

-- The last of two equal options counts.
options_read :
    read_options (threads (some 8) ∷ iterations (some 5) ∷ threads (some 4) ∷ []) defaults
    ≡ runs (record { thread_num = 4; iterations = 5 })
unfolding read_options
options_read = refl

options_help : read_options (threads (some 8) ∷ help ∷ threads none ∷ []) defaults ≡ exits
unfolding read_options
options_help = refl

create_no_scheduler : create_client none (some enomem) none ≡ throws enomem
unfolding create_client
create_no_scheduler = refl

-- The numbers of a list are not printed: each is the digit 0.
abbrev zeros : List ℕ → Bytes
zeros [] = bytes "[]"
zeros (n ∷ ns) = bytes "[0]"

zeros-IsValue : (xs : List ℕ) → IsValue (zeros xs)
zeros-IsValue [] = no_items [] refl
zeros-IsValue (n ∷ ns) = array _ (item [] _ [] refl (number 48 [] refl) refl)

output-IsValue_example :
    (items : Bytes) × (output (map (to_string zeros) (no_metrics ∷ no_metrics ∷ []))
      ≡ bytes "====   OUTPUT   ====\n[" ++ (items ++ bytes "]\n==== END OUTPUT ====\n"))
    × IsListOf (map (to_string zeros) (no_metrics ∷ no_metrics ∷ [])) items
    × IsValue (bytes "[" ++ (items ++ bytes "]"))
output-IsValue_example = output-IsValue zeros zeros-IsValue (no_metrics ∷ no_metrics ∷ [])

-- Every call succeeds.
abbrev good : Surroundings
good = record {
  thread = none;
  scheduler = none;
  run_thread = none;
  registry = some 5;
  slot = some 6;
  register_client = λ registry slot. none;
  action_create = λ manager. none;
  invocations = answers;
}

abbrev all_good : ℕ → Surroundings
all_good i = good

-- The second client cannot create its action.
abbrev one_bad : ℕ → Surroundings
one_bad zero = good
one_bad (suc i) = record good { action_create = λ manager. some enomem }

abbrev two_clients : List Choice
two_clients = threads (some 2) ∷ iterations (some 2) ∷ []

abbrev two : Settings
two = record { thread_num = 2; iterations = 2 }

two_read : read_options two_clients defaults ≡ runs two
unfolding read_options
two_read = refl

good-IsServed : IsServed 2 good
unfolding registration register
good-IsServed = (refl, omega arith)

one_bad-IsCreated : (j : ℕ) → IsCreated (one_bad j)
one_bad-IsCreated zero = (refl, refl, refl)
one_bad-IsCreated (suc j) = (refl, refl, refl)

second_missing : counted (registration (one_bad 1)) ≡ 0
unfolding registration register
second_missing = refl

client_main-hangs_example : client_main zeros to_us one_bad false two_clients ≡ hangs
client_main-hangs_example =
    client_main-hangs one_bad zeros to_us two two_clients two_read
      (λ j low high. one_bad-IsCreated j) 1 (omega arith) (omega arith) second_missing

-- No memory for the results.
client_main_crashes : client_main zeros to_us all_good true two_clients ≡ crashes
unfolding client_main after_options read_options
client_main_crashes = refl
