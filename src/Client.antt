-- ===== src/Client.antt =====
-- mett-eagle-client/client/client.cc: the benchmark client. Its threads register one after the other,
-- wait for each other, and measure; then the results are printed.
pub mod Measure
pub mod Start
pub mod Progress
pub mod Output
pub mod Main
pub mod Loops
pub mod Ends
pub mod Json
pub mod Wakeup
use mett_eagle.Base.{
  ℕ, zero, suc, ◌+◌, ◌<◌, ◌≡◌, length, blocks, List, [], ◌∷◌, ◌++◌, Option, none, some, Bytes,
  bytes, Error, enomem, Outcome, returns, throws, chksys, chkcap, ◌>>=◌, ◌>>◌, ◌==◌, if◌then◌else◌,
}
use mett_eagle.Invoke.{Metadata}

-- The lists of `Metrics`.
pub record Metrics : Type 0 where
  pub start_invocation : List ℕ
  pub end_invocation : List ℕ
  pub start_worker : List ℕ
  pub end_worker : List ℕ
  pub start_runtime : List ℕ
  pub end_runtime : List ℕ
  pub start_function : List ℕ
  pub end_function : List ℕ
  pub function_internal_duration : List ℕ

abbrev pub no_metrics : Metrics
no_metrics = record {
  start_invocation = [];
  end_invocation = [];
  start_worker = [];
  end_worker = [];
  start_runtime = [];
  end_runtime = [];
  start_function = [];
  end_function = [];
  function_internal_duration = [];
}

-- An invocation that returned: the client's clock before and after it, and the manager's data.
pub record Sample : Type 0 where
  pub start_invocation : ℕ
  pub end_invocation : ℕ
  pub data' : Metadata

-- The end of the loop's body. `to_us` is the `duration_cast` to microseconds.
unfoldable pub record_sample : (ℕ → ℕ) → Sample → Metrics → Metrics
record_sample to_us s m = record {
  start_invocation = m.start_invocation ++ to_us s.start_invocation ∷ [];
  end_invocation = m.end_invocation ++ to_us s.end_invocation ∷ [];
  start_worker = m.start_worker ++ to_us s.data'.start_worker ∷ [];
  end_worker = m.end_worker ++ to_us s.data'.end_worker ∷ [];
  start_runtime = m.start_runtime ++ to_us s.data'.worker_metadata.start_runtime ∷ [];
  end_runtime = m.end_runtime ++ to_us s.data'.worker_metadata.end_runtime ∷ [];
  start_function = m.start_function ++ to_us s.data'.worker_metadata.start_function ∷ [];
  end_function = m.end_function ++ to_us s.data'.worker_metadata.end_function ∷ [];
  function_internal_duration = m.function_internal_duration ++ 0 ∷ [];
}

-- The measurement loop with `left` iterations to go, by what the invocations give: a failed one is
-- repeated. It `blocks` while it waits for an answer that is not in the list.
unfoldable pub measure : (ℕ → ℕ) → ℕ → List (Option Sample) → Metrics → Outcome Metrics
unfolding record_sample
measure to_us zero answers m = returns m
measure to_us (suc left) [] m = blocks
measure to_us (suc left) (none ∷ answers) m = measure to_us (suc left) answers m
measure to_us (suc left) (some s ∷ answers) m = measure to_us left answers (record_sample to_us s m)

-- `MettEagle::getManager` of mett-eagle/include/util: the registry from the environment, a new slot,
-- and the registration.
pub get_manager : Option ℕ → Option ℕ → (ℕ → ℕ → Option Error) → Outcome ℕ
get_manager registry slot register_client = do
  manager_registry ← chkcap registry enomem
  manager_cap ← chkcap slot enomem
  chksys (register_client manager_registry manager_cap)
  returns manager_cap

-- What comes before the barrier in `benchmark`: it returns if the client has its action.
unfoldable pub register :
    Option ℕ → Option ℕ → (ℕ → ℕ → Option Error) → (ℕ → Option Error) → Outcome ℕ
unfolding get_manager
register registry slot register_client action_create = do
  manager ← get_manager registry slot register_client
  chksys (action_create manager)
  returns manager

-- THREAD_NUM and ITERATIONS.
pub record Settings : Type 0 where
  pub thread_num : ℕ
  pub iterations : ℕ

abbrev pub defaults : Settings
defaults = record { thread_num = 64; iterations = 1000 }

-- An option that `getopt_long` finds; a number is what `stol` reads, and `none` where it throws.
pub data Choice : Type 0 where
  threads iterations : Option ℕ → Choice
  help unknown : Choice

-- Where the options lead: to the benchmark, to `exit (0)`, or to an exception that `main` does not
-- catch.
pub data Parsed : Type 0 where
  runs : Settings → Parsed
  exits aborts : Parsed

-- The loop over the options.
unfoldable pub read_options : List Choice → Settings → Parsed
read_options [] s = runs s
read_options (threads none ∷ options) s = aborts
read_options (threads (some n) ∷ options) s = read_options options (record s { thread_num = n })
read_options (iterations none ∷ options) s = aborts
read_options (iterations (some n) ∷ options) s = read_options options (record s { iterations = n })
read_options (help ∷ options) s = exits
read_options (unknown ∷ options) s = exits

-- `main` creates the thread of a client: the error of `pthread_create`, of the factory for the
-- scheduler, and of `run_thread`.
unfoldable pub create_client : Option Error → Option Error → Option Error → Outcome (Unit {0})
create_client failed create_scheduler run_thread = do
  chksys failed
  chksys create_scheduler
  chksys run_thread

-- Where a client thread stands: before the barrier, behind the catch block of `benchmark`, at the
-- barrier, or in the measurement loop.
pub data Phase : Type 0 where
  registering failed waiting measuring : Phase

-- `waiting_count`, and the threads that `main` has created; their number is the `i` of its loop.
pub record Clients : Type 0 where
  pub waiting_count : ℕ
  pub threads : List Phase

abbrev pub no_clients : Clients
no_clients = record { waiting_count = 0; threads = [] }

abbrev pub created : List Phase → ℕ
created [] = 0
created (p ∷ ps) = 1 + created ps

-- A step of `main` or of a client, with the condition that the code waits for. A client whose
-- registration throws leaves `benchmark` without touching `waiting_count`.
pub data Step (thread_num : ℕ) : Clients → Clients → Type 0 where
  creates :
      (count : ℕ) (threads : List Phase)
      → created threads < thread_num
      → count ≡ created threads
      → Step thread_num
          (record { waiting_count = count; threads = threads })
          (record { waiting_count = count; threads = threads ++ registering ∷ [] })
  registers :
      (count : ℕ) (before after : List Phase)
      → Step thread_num
          (record { waiting_count = count; threads = before ++ registering ∷ after })
          (record { waiting_count = count + 1; threads = before ++ waiting ∷ after })
  fails :
      (count : ℕ) (before after : List Phase)
      → Step thread_num
          (record { waiting_count = count; threads = before ++ registering ∷ after })
          (record { waiting_count = count; threads = before ++ failed ∷ after })
  passes :
      (count : ℕ) (before after : List Phase)
      → count ≡ thread_num
      → Step thread_num
          (record { waiting_count = count; threads = before ++ waiting ∷ after })
          (record { waiting_count = count; threads = before ++ measuring ∷ after })

pub data Reach (thread_num : ℕ) (s : Clients) : Clients → Type 0 where
  here : Reach thread_num s s
  later : {t u : Clients} → Reach thread_num s t → Step thread_num t u → Reach thread_num s u

-- The loop over the results in `main`, from the index `i`: behind the last one stands a blank, behind
-- the others a comma.
unfoldable pub print_from : ℕ → ℕ → List Bytes → Bytes
print_from thread_num i [] = []
print_from thread_num i (m ∷ ms) =
    m
    ++ (bytes "\n"
        ++ ((if i + 1 == thread_num then bytes " " else bytes ",")
            ++ print_from thread_num (i + 1) ms))

unfoldable pub output : List Bytes → Bytes
unfolding print_from
output results =
    bytes "====   OUTPUT   ====\n["
    ++ (print_from (length results) 0 results ++ bytes "]\n==== END OUTPUT ====\n")
