-- ===== src/Client/Wakeup.antt =====
-- mett-eagle-client/client/client.cc: the start of the client threads with its two condition variables.
-- A thread that waits sleeps until it is notified or wakes on its own, and then tests its condition
-- again; `serialize_clients` wakes `main`, `sync_clients` wakes one of the clients that sleep.
pub mod Counts
pub mod Orderly
pub mod Awake
pub mod Refines
use mett_eagle.Base.{ℕ, ◌+◌, ◌<◌, ◌≡◌, ◌≢◌, List, [], ◌∷◌, ◌++◌}

-- A client thread: before its registration, behind the catch block, asleep at the barrier, woken and
-- not yet looking, behind the barrier and before its `notify_one`, or in the measurement loop.
pub data Stage : Type 0 where
  registering failed asleep woken passed measuring : Stage

-- `main`: about to test `waiting_count`, asleep, or about to create the next thread.
pub data Main : Type 0 where
  tests sleeps creates : Main

pub record Threads : Type 0 where
  pub waiting_count : ℕ
  pub clients : List Stage
  pub main : Main

abbrev pub no_threads : Threads
no_threads = record { waiting_count = 0; clients = []; main = tests }

abbrev pub created : List Stage → ℕ
created [] = 0
created (p ∷ ps) = 1 + created ps

abbrev pub asleep_count : List Stage → ℕ
asleep_count [] = 0
asleep_count (asleep ∷ ps) = 1 + asleep_count ps
asleep_count (p ∷ ps) = asleep_count ps

-- `serialize_clients.notify_one ()`: `main` is the only one that waits there.
abbrev pub notify_main : Main → Main
notify_main tests = tests
notify_main sleeps = tests
notify_main creates = creates

-- `sync_clients.notify_one ()`: one of the clients that sleep is woken, if there is one.
pub data Notified : List Stage → List Stage → Type 0 where
  nobody : (ps : List Stage) → asleep_count ps ≡ 0 → Notified ps ps
  somebody :
      (before after : List Stage) → Notified (before ++ asleep ∷ after) (before ++ woken ∷ after)

-- A step of `main` or of a client. Steps under the mutex are one.
pub data Step (thread_num : ℕ) : Threads → Threads → Type 0 where
  main_goes_on :
      (count : ℕ) (ps : List Stage)
      → created ps < thread_num
      → count ≡ created ps
      → Step thread_num
          (record { waiting_count = count; clients = ps; main = tests })
          (record { waiting_count = count; clients = ps; main = creates })
  main_falls_asleep :
      (count : ℕ) (ps : List Stage)
      → created ps < thread_num
      → count ≢ created ps
      → Step thread_num
          (record { waiting_count = count; clients = ps; main = tests })
          (record { waiting_count = count; clients = ps; main = sleeps })
  main_creates :
      (count : ℕ) (ps : List Stage)
      → Step thread_num
          (record { waiting_count = count; clients = ps; main = creates })
          (record { waiting_count = count; clients = ps ++ registering ∷ []; main = tests })
  fails :
      (count : ℕ) (before after : List Stage) (m : Main)
      → Step thread_num
          (record { waiting_count = count; clients = before ++ registering ∷ after; main = m })
          (record { waiting_count = count; clients = before ++ failed ∷ after; main = m })
  registers :
      (count : ℕ) (before after : List Stage) (m : Main)
      → count + 1 ≢ thread_num
      → Step thread_num
          (record { waiting_count = count; clients = before ++ registering ∷ after; main = m })
          (record {
            waiting_count = count + 1;
            clients = before ++ asleep ∷ after;
            main = notify_main m;
          })
  registers_last :
      (count : ℕ) (before after : List Stage) (m : Main)
      → count + 1 ≡ thread_num
      → Step thread_num
          (record { waiting_count = count; clients = before ++ registering ∷ after; main = m })
          (record {
            waiting_count = count + 1;
            clients = before ++ passed ∷ after;
            main = notify_main m;
          })
  goes_on :
      (count : ℕ) (before after : List Stage) (m : Main)
      → count ≡ thread_num
      → Step thread_num
          (record { waiting_count = count; clients = before ++ woken ∷ after; main = m })
          (record { waiting_count = count; clients = before ++ passed ∷ after; main = m })
  falls_asleep :
      (count : ℕ) (before after : List Stage) (m : Main)
      → count ≢ thread_num
      → Step thread_num
          (record { waiting_count = count; clients = before ++ woken ∷ after; main = m })
          (record { waiting_count = count; clients = before ++ asleep ∷ after; main = m })
  notifies :
      (count : ℕ) (before after ps : List Stage) (m : Main)
      → Notified (before ++ measuring ∷ after) ps
      → Step thread_num
          (record { waiting_count = count; clients = before ++ passed ∷ after; main = m })
          (record { waiting_count = count; clients = ps; main = m })

-- A thread that wakes though nobody has notified it.
pub data Spurious : Threads → Threads → Type 0 where
  main_wakes :
      (count : ℕ) (ps : List Stage)
      → Spurious
          (record { waiting_count = count; clients = ps; main = sleeps })
          (record { waiting_count = count; clients = ps; main = tests })
  client_wakes :
      (count : ℕ) (before after : List Stage) (m : Main)
      → Spurious
          (record { waiting_count = count; clients = before ++ asleep ∷ after; main = m })
          (record { waiting_count = count; clients = before ++ woken ∷ after; main = m })

pub data Reach (thread_num : ℕ) (s : Threads) : Threads → Type 0 where
  here : Reach thread_num s s
  later : {t u : Threads} → Reach thread_num s t → Step thread_num t u → Reach thread_num s u
  wakes : {t u : Threads} → Reach thread_num s t → Spurious t u → Reach thread_num s u
