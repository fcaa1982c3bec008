-- ===== src/Manager.antt =====
-- The manager as its clients see it: the registry of mett-eagle/manager/src/manager_registry.cc and the
-- threads that it starts, each with the actions of one client and the server loop around the handlers
-- of manager_client.cc and manager_base.cc.
pub mod Isolation
pub mod Overlap
pub mod Hanging
pub mod Placement
pub mod OwnCpu
pub mod TakenCpu
pub mod Leaving
use mett_eagle.Base.{
  ℕ, ◌-◌, Bool, true, false, List, [], ◌∷◌, ◌++◌, Option, none, some, ◌==◌, if◌then◌else◌, Outcome,
  returns, throws, blocks, Label, Error, failed,
}
use mett_eagle.Cpu.Bitset.{Bits}
use mett_eagle.Registry.{
  Session, Registry, Calls, register_with, op_register_client, take_session, handle_irq,
}
use mett_eagle.Registry.Race.{
  Selecting, ready, refused, has, Freeing, holds, freed, select_step, free_step,
}
use mett_eagle.Actions.{Actions, no_actions}
use mett_eagle.Worker.{Loader}
use mett_eagle.Server.{Request, Answer, label, handle}

-- The thread of a gate: there is none, it waits for a request, or it is in a handler that never
-- returns.
pub data Thread : Type 0 where
  absent hanging : Thread
  serving : Actions → Thread

-- The registry, and the threads by their clients' gates.
pub record Manager : Type 0 where
  pub registry : Registry
  pub threads : ℕ → Thread

-- One thing that the thread of the registry or a client's thread does while others run: a registration
-- begins, it goes on to its next access of `available_cpus`, a client's thread takes the deletion IRQ
-- of its gate, and it goes on to its next access.
pub data Access : Type 0 where
  begins : Calls → Access
  selects : Access
  leaves frees : ℕ → Access

-- What reaches the manager. The first three are handled alone: a registration, with the kernel's answers,
-- a request over a gate, and the deletion IRQ of a gate, with whether the gate is still valid. Then
-- registrations and deletion IRQs whose accesses interleave, up to a point where all have ended. Last a
-- request whose exception, if it throws one, has a description that fmt rejects in the log message.
pub data Event : Type 0 where
  registers : Calls → Event
  asks : ℕ → Request → Event
  gate_deleted : Bool → ℕ → Event
  overlaps : List Access → Event
  asks_unprintable : ℕ → Request → Event

abbrev pub update : (ℕ → Thread) → ℕ → Thread → ℕ → Thread
update threads gate t k = if k == gate then t else threads k

-- A registration that returns has started a thread with no actions.
unfoldable pub start_thread : Outcome ℕ → (ℕ → Thread) → ℕ → Thread
start_thread (returns gate) threads = update threads gate (serving no_actions)
start_thread (throws e) threads = threads
start_thread blocks threads = threads

-- The IRQ is a message to the client's own thread, which takes it in its loop only.
unfoldable pub take_irq : Bool → ℕ → Thread → Manager → Manager
take_irq valid gate absent m = m
take_irq valid gate hanging m = m
take_irq valid gate (serving a) m = record {
  registry = handle_irq valid gate m.registry;
  threads = if valid then m.threads else update m.threads gate absent;
}

-- The manager with a registration under way, and with clients' threads that give back their CPUs.
pub record Busy : Type 0 where
  pub manager : Manager
  pub selecting : Option (Calls × Selecting)
  pub freeing : ℕ → Freeing

-- Behind an access of the registration: an exception ends it, and with a CPU it runs to its end.
after_selection : Calls → Bits → Selecting → Busy → Busy
unfolding start_thread
after_selection calls bits refused b = record b { selecting = none }
after_selection calls bits (has s) b =
    let (r, o) = register_with calls s (record b.manager.registry { available = bits }) in
    record b {
      manager = record { registry = r; threads = start_thread o b.manager.threads };
      selecting = none;
    }
after_selection calls bits selecting b = record b {
  manager = record b.manager { registry = record b.manager.registry { available = bits } };
  selecting = some (calls, selecting);
}

select_next : Option (Calls × Selecting) → Busy → Busy
unfolding after_selection
select_next none b = b
select_next (some (calls, selecting)) b =
    let shared =
      select_step
        (record {
          available = b.manager.registry.available;
          selecting = selecting;
          freeing = freed;
        })
        selecting in
    after_selection calls shared.available shared.selecting b

-- The registry's thread takes the next registration when it has ended the last one.
begin_registration : Calls → Option (Calls × Selecting) → Busy → Busy
begin_registration calls none b = record b { selecting = some (calls, ready) }
begin_registration calls (some under_way) b = b

-- The client's objects are deleted, and its word is to be freed.
leave : ℕ → Thread → Option (Session × List Session) → Busy → Busy
leave gate (serving a) (some (s, others)) b = record b {
  manager = record {
    registry = record b.manager.registry {
      sessions = others;
      threads = b.manager.registry.threads - 1;
    };
    threads = update b.manager.threads gate absent;
  };
  freeing = λ k. if k == gate then holds s.bitmap else b.freeing k;
}
leave gate t found b = b

free_cpu : ℕ → Busy → Busy
free_cpu gate b =
    let shared =
      free_step
        (record {
          available = b.manager.registry.available;
          selecting = refused;
          freeing = b.freeing gate;
        })
        (b.freeing gate) in
    record b {
      manager = record b.manager {
        registry = record b.manager.registry { available = shared.available };
      };
      freeing = λ k. if k == gate then shared.freeing else b.freeing k;
    }

access : Access → Busy → Busy
unfolding begin_registration select_next leave free_cpu
access (begins calls) b = begin_registration calls b.selecting b
access selects b = select_next b.selecting b
access (leaves gate) b =
    leave gate (b.manager.threads gate) (take_session gate b.manager.registry.sessions) b
access (frees gate) b = free_cpu gate b

abbrev pub idle : Manager → Busy
idle m = record { manager = m; selecting = none; freeing = λ gate. freed }

unfoldable pub overlap : List Access → Busy → Busy
unfolding access
overlap [] b = b
overlap (x ∷ xs) b = overlap xs (access x b)

-- Behind a handler.
unfoldable pub settled : Actions → Option Answer → Thread
settled a none = hanging
settled a (some answer) = serving a

unfoldable pub tagged : ℕ → Option Answer → List (ℕ × Answer)
tagged gate none = []
tagged gate (some answer) = (gate, answer) ∷ []

-- The dispatcher answers an exception with its error number.
is_failure : Option Answer → Bool
is_failure (some (label (failed e))) = true
is_failure other = false

module _ {Stack : Type 0} (l : Loader Stack) (on_throw : Error → Outcome Label) where
  -- A request: the thread afterwards, and the answer.
  unfoldable pub serve_request : Request → Thread → Thread × Option Answer
  unfolding settled
  serve_request r absent = (absent, none)
  serve_request r hanging = (hanging, none)
  serve_request r (serving a) = let (a', o) = handle l on_throw r a in (settled a' o, o)

  -- One event: the manager afterwards, and the answer with its gate.
  unfoldable pub step : Event → Manager → Manager × List (ℕ × Answer)
  unfolding start_thread take_irq serve_request tagged overlap is_failure
  step (registers calls) m =
      let (r, o) = op_register_client calls m.registry in
      (record { registry = r; threads = start_thread o m.threads }, [])
  step (asks gate r) m =
      let (t, o) = serve_request r (m.threads gate) in
      (record m { threads = update m.threads gate t }, tagged gate o)
  step (gate_deleted valid gate) m = (take_irq valid gate (m.threads gate) m, [])
  step (overlaps accesses) m = ((overlap accesses (idle m)).manager, [])
  step (asks_unprintable gate r) m =
      let (t, o) = serve_request r (m.threads gate) in
      (record m { threads = update m.threads gate t }, if is_failure o then [] else tagged gate o)

  -- Whether an event ends the manager: the log message throws inside the catch block.
  ends_manager : Event → Manager → Bool
  unfolding serve_request is_failure
  ends_manager (registers calls) m = false
  ends_manager (asks gate r) m = false
  ends_manager (gate_deleted valid gate) m = false
  ends_manager (overlaps accesses) m = false
  ends_manager (asks_unprintable gate r) m = is_failure (serve_request r (m.threads gate)).1

  -- All events, or those up to the end of the manager.
  unfoldable pub run : List Event → Manager → Manager × List (ℕ × Answer)
  unfolding step ends_manager
  run [] m = (m, [])
  run (e ∷ events) m =
      let (m', answers) = step e m in
      let (last, more) = run events m' in
      if ends_manager e m then (m', answers) else (last, answers ++ more)
