-- ===== src/Log.antt =====
-- liblog/include/log: which messages are printed, and the semaphore that keeps the lines of several
-- processes apart. The environment's `LOG_LEVEL` is read with `atoi`, which is a parameter.
pub mod Levels
pub mod Lines
pub mod Exceptions
pub mod Fields
pub mod Checks
use mett_eagle.Base.{
  ℕ, ◌+◌, ◌/◌, ◌%◌, Bool, true, false, List, [], ◌∷◌, ◌++◌, Option, none, some, ◌==◌, if◌then◌else◌,
  Bytes, bytes,
}

-- The severities, and their bits in the log level.
pub data Severity : Type 0 where
  debug info warn error fatal : Severity

abbrev pub severity_to_mask : Severity → ℕ
severity_to_mask debug = 16
severity_to_mask info = 8
severity_to_mask warn = 4
severity_to_mask error = 2
severity_to_mask fatal = 1

-- `SilenceByEnv`, with the value of LOG_LEVEL if it is set. `atoi` is the C library's.
unfoldable pub get_level : (Bytes → ℕ) → Option Bytes → ℕ
get_level atoi none = atoi (bytes "0")
get_level atoi (some text) = atoi text

-- `setLevel`: the environment afterwards. `to_string` is the C++ library's.
unfoldable pub set_level : (ℕ → Bytes) → ℕ → Option Bytes
set_level to_string level = some (to_string level)

-- `level & mask` for a mask of one bit: the bit of the level.
unfoldable pub silence : (Bytes → ℕ) → Option Bytes → Severity → Bool
unfolding get_level
silence atoi env s = get_level atoi env / severity_to_mask s % 2 == 0

-- What `log` does outside its thread's memory: the operations of the semaphore and of the log, which
-- are IPCs, and the copies of the first message register to `store` and back.
pub data Effect : Type 0 where
  save restore down up : Effect
  print : Bytes → Effect

-- `NoSync` and `SemaphoreSync`.
pub data Synchronizer : Type 0 where
  no_sync semaphore_sync : Synchronizer

-- For a process that has the semaphore, or has none.
start : Synchronizer → Bool → List Effect
start no_sync sema = []
start semaphore_sync true = save ∷ down ∷ []
start semaphore_sync false = save ∷ []

end_sync : Synchronizer → Bool → List Effect
end_sync no_sync sema = []
end_sync semaphore_sync true = up ∷ restore ∷ []
end_sync semaphore_sync false = restore ∷ []

-- `log`, for the formatted line.
unfoldable pub log :
    (Bytes → ℕ) → Option Bytes → Synchronizer → Bool → Severity → Bytes → List Effect
unfolding silence start end_sync
log atoi env sync sema s line =
    if silence atoi env s then [] else start sync sema ++ (print line ∷ end_sync sync sema)

-- The first message register of the thread, and the synchronizer's `store`.
pub record Registers : Type 0 where
  pub mr : ℕ
  pub store : ℕ

-- What the effects leave there. `ipc` is what the kernel leaves in the register after an IPC.
unfoldable pub perform : (Effect → ℕ → ℕ) → List Effect → Registers → Registers
perform ipc [] r = r
perform ipc (save ∷ es) r = perform ipc es (record { mr = r.mr; store = r.mr })
perform ipc (restore ∷ es) r = perform ipc es (record { mr = r.store; store = r.store })
perform ipc (down ∷ es) r = perform ipc es (record { mr = ipc down r.mr; store = r.store })
perform ipc (up ∷ es) r = perform ipc es (record { mr = ipc up r.mr; store = r.store })
perform ipc (print line ∷ es) r =
    perform ipc es (record { mr = ipc (print line) r.mr; store = r.store })

-- A process that logs and has the semaphore: between messages, or behind `down`, with what it has still to print of its
-- line; a line may reach the log in several pieces.
pub data Phase : Type 0 where
  outside : Phase
  printing : List Bytes → Phase

-- The semaphore, the processes that have it, the output so far, and the lines that were begun, latest first.
pub record Console : Type 0 where
  pub semaphore : ℕ
  pub processes : List Phase
  pub output : Bytes
  pub begun : List (List Bytes)

-- A step of one process, with the semaphore or without it, or an `up` from outside, as the client does at
-- its start.
pub data Step : Console → Console → Type 0 where
  raises :
      (count : ℕ) (ps : List Phase) (out : Bytes) (lines : List (List Bytes))
      → Step
          (record { semaphore = count; processes = ps; output = out; begun = lines })
          (record { semaphore = count + 1; processes = ps; output = out; begun = lines })
  enters :
      (count : ℕ) (before after : List Phase) (out : Bytes) (lines : List (List Bytes))
      (pieces : List Bytes)
      → Step
          (record {
            semaphore = count + 1;
            processes = before ++ outside ∷ after;
            output = out;
            begun = lines;
          })
          (record {
            semaphore = count;
            processes = before ++ printing pieces ∷ after;
            output = out;
            begun = pieces ∷ lines;
          })
  prints :
      (count : ℕ) (before after : List Phase) (out : Bytes) (lines : List (List Bytes))
      (piece : Bytes) (rest : List Bytes)
      → Step
          (record {
            semaphore = count;
            processes = before ++ printing (piece ∷ rest) ∷ after;
            output = out;
            begun = lines;
          })
          (record {
            semaphore = count;
            processes = before ++ printing rest ∷ after;
            output = out ++ piece;
            begun = lines;
          })
  leaves :
      (count : ℕ) (before after : List Phase) (out : Bytes) (lines : List (List Bytes))
      → Step
          (record {
            semaphore = count;
            processes = before ++ printing [] ∷ after;
            output = out;
            begun = lines;
          })
          (record {
            semaphore = count + 1;
            processes = before ++ outside ∷ after;
            output = out;
            begun = lines;
          })
  -- A process whose `log_sync` is not valid prints without `down` and `up`.
  prints_bare :
      (count : ℕ) (ps : List Phase) (out : Bytes) (lines : List (List Bytes)) (piece : Bytes)
      → Step
          (record { semaphore = count; processes = ps; output = out; begun = lines })
          (record { semaphore = count; processes = ps; output = out ++ piece; begun = lines })

pub data Reach (c : Console) : Console → Type 0 where
  here : Reach c c
  later : {d e : Console} → Reach c d → Step d e → Reach c e
