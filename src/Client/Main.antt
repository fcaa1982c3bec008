-- ===== src/Client/Main.antt =====
-- mett-eagle-client/client/client.cc: what a client thread does in `benchmark`, and `main`.
use mett_eagle.Base.{
  ℕ, zero, suc, ◌+◌, ◌==◌, if◌then◌else◌, Bool, List, [], ◌∷◌, ◌++◌, map, Option, Bytes, bytes,
  Error, Outcome, returns, throws, blocks, ◌>>=◌, ◌>>◌,
}
use mett_eagle.Client.{
  Metrics, no_metrics, Sample, measure, register, Settings, defaults, Choice, Parsed, runs, exits,
  aborts, read_options, create_client, output,
}

-- `Metrics::toString`. `format_range` is what fmt writes for a list of durations with `{::%Q}`.
unfoldable pub to_string : (List ℕ → Bytes) → Metrics → Bytes
to_string format_range m =
    bytes "{\n\"invocation\": {\n  \"start\": "
    ++ (format_range m.start_invocation
        ++ (bytes ",\n  \"end\"  : "
            ++ (format_range m.end_invocation
                ++ (bytes "\n},\n\"worker\": {\n  \"start\": "
                    ++ (format_range m.start_worker
                        ++ (bytes ",\n  \"end\"  : "
                            ++ (format_range m.end_worker
                                ++ (bytes "\n},\n\"runtime\": {\n  \"start\": "
                                    ++ (format_range m.start_runtime
                                        ++ (bytes ",\n  \"end\"  : "
                                            ++ (format_range m.end_runtime
                                                ++ (bytes "\n},\n\"function\": {\n  \"start\": "
                                                    ++ (format_range m.start_function
                                                        ++ (bytes ",\n  \"end\"  : "
                                                            ++ (format_range m.end_function
                                                            ++ (bytes ",\n  \"internal_duration\": "
                                                            ++ (format_range
                                                            m.function_internal_duration
                                                            ++ bytes "\n}\n}")))))))))))))))))

-- What the system answers to one client: to the calls of `main` that create its thread, to its own
-- calls before the barrier, and to its invocations.
pub record Surroundings : Type 0 where
  pub thread : Option Error
  pub scheduler : Option Error
  pub run_thread : Option Error
  pub registry : Option ℕ
  pub slot : Option ℕ
  pub register_client : ℕ → ℕ → Option Error
  pub action_create : ℕ → Option Error
  pub invocations : List (Option Sample)

unfoldable pub registration : Surroundings → Outcome ℕ
registration c = register c.registry c.slot c.register_client c.action_create

-- What a client adds to `waiting_count`.
abbrev pub counted : Outcome ℕ → ℕ
counted (returns manager) = 1
counted (throws e) = 0
counted blocks = 0

-- `benchmark` behind the registration, if `waiting_count` comes to `waiting`: the barrier and the
-- loop, or the catch blocks, which leave the metrics as they are.
unfoldable pub behind : (ℕ → ℕ) → Settings → ℕ → List (Option Sample) → Outcome ℕ → Outcome Metrics
behind to_us s waiting invocations (returns manager) =
    if waiting == s.thread_num then measure to_us s.iterations invocations no_metrics else blocks
behind to_us s waiting invocations (throws e) = returns no_metrics
behind to_us s waiting invocations blocks = blocks

unfoldable pub benchmark : (ℕ → ℕ) → Settings → ℕ → Surroundings → Outcome Metrics
unfolding behind registration
benchmark to_us s waiting c = behind to_us s waiting c.invocations (registration c)

-- The loop of `main` that creates the clients, from client `i`: it waits until all clients before
-- have been counted. It gives what `waiting_count` comes to.
unfoldable pub create_clients : List Surroundings → ℕ → ℕ → Outcome ℕ
create_clients [] i waiting = returns waiting
create_clients (c ∷ cs) i waiting =
    if waiting == i
    then create_client c.thread c.scheduler c.run_thread
      >> create_clients cs (i + 1) (waiting + counted (registration c))
    else blocks

-- The loop that joins them, with their metrics.
unfoldable pub join_clients : (ℕ → ℕ) → Settings → ℕ → List Surroundings → Outcome (List Metrics)
join_clients to_us s waiting [] = returns []
join_clients to_us s waiting (c ∷ cs) = do
  m ← benchmark to_us s waiting c
  ms ← join_clients to_us s waiting cs
  returns (m ∷ ms)

-- The surroundings of the clients from `i`.
abbrev pub clients_from : (ℕ → Surroundings) → ℕ → ℕ → List Surroundings
clients_from surroundings i zero = []
clients_from surroundings i (suc left) = surroundings i ∷ clients_from surroundings (i + 1) left

-- How the program ends: with success and its output, with the number of an error, with `exit (0)`
-- behind the help text, with an exception that nothing catches, or not at all.
pub data Ended : Type 0 where
  succeeds : Bytes → Ended
  fails : Error → Ended
  helps crashes hangs : Ended

-- The catch blocks of `main`.
unfoldable pub ended : Outcome Bytes → Ended
ended (returns text) = succeeds text
ended (throws e) = fails e
ended blocks = hangs

unfoldable pub run_clients :
    (List ℕ → Bytes) → (ℕ → ℕ) → (ℕ → Surroundings) → Settings → Outcome Bytes
unfolding to_string create_clients join_clients
run_clients format_range to_us surroundings s = do
  waiting ← create_clients (clients_from surroundings 0 s.thread_num) 0 0
  ms ← join_clients to_us s waiting (clients_from surroundings 0 s.thread_num)
  returns (output (map (to_string format_range) ms))

-- `main` behind the options; `new` throws an exception of its own if there is no memory.
unfoldable pub after_options :
    (List ℕ → Bytes) → (ℕ → ℕ) → (ℕ → Surroundings) → Bool → Parsed → Ended
unfolding ended run_clients
after_options format_range to_us surroundings no_memory exits = helps
after_options format_range to_us surroundings no_memory aborts = crashes
after_options format_range to_us surroundings no_memory (runs s) =
    if no_memory then crashes else ended (run_clients format_range to_us surroundings s)

unfoldable pub client_main :
    (List ℕ → Bytes) → (ℕ → ℕ) → (ℕ → Surroundings) → Bool → List Choice → Ended
unfolding after_options
client_main format_range to_us surroundings no_memory options =
    after_options format_range to_us surroundings no_memory (read_options options defaults)
