-- ===== src/Registry.antt =====
-- mett-eagle/manager/src/manager_registry.cc and .h: registration of clients, and the IRQ handler
-- that cleans up when a client deletes its gate.
pub mod Ownership
pub mod Failure
pub mod Race
pub mod Sessions
pub mod Assigned
pub mod Lossless
use mett_eagle.Base.{
  ℕ, ◌+◌, ◌-◌, Bool, true, false, List, [], ◌∷◌, Option, none, some, ◌==◌, if◌then◌else◌, Outcome,
  returns, throws, Error, enomem, chksys,
}
use mett_eagle.Base.Exec.{Exec, pure, check, modify, ◌>>=◌, ◌>>◌}
use mett_eagle.Cpu.Bitset.{Bits}
use mett_eagle.Cpu.{select_client_cpu, free_client_cpu}

-- A registered client: the gate that was handed out, and the word of its CPU.
pub record Session : Type 0 where
  pub gate : ℕ
  pub bitmap : ℕ

-- `available_cpus`, the clients whose deletion IRQ is armed, and the threads that were created and
-- have not ended.
pub record Registry : Type 0 where
  pub available : Bits
  pub sessions : List Session
  pub threads : ℕ

-- What the calls outside the repository answer during one registration.
pub record Calls : Type 0 where
  pub create_scheduler : Option Error
  pub thread_failed : Bool
  pub gate : Option ℕ  -- of `register_obj`, if it is valid
  pub cancelled : Bool  -- `pthread_cancel (pthread) == 0`
  pub dec_refcnt : Option Error
  pub register_irq : Option Error
  pub run_thread : Option Error

keep_selection : Registry → Outcome (ℕ × Bits) → Registry × Outcome ℕ
keep_selection r (returns (selected, rest)) = (record r { available = rest }, returns selected)
keep_selection r (throws e) = (r, throws e)
keep_selection r Outcome.blocks = (r, Outcome.blocks)

take_cpu : Exec Registry ℕ
unfolding keep_selection
take_cpu r = keep_selection r (select_client_cpu r.available)

-- A thread that could not be created is logged, and the registration goes on.
create_thread : Bool → Exec Registry (Unit {0})
create_thread failed =
    modify λ r. record r { threads = if failed then r.threads else r.threads + 1 }

-- An invalid gate undoes the server objects, cancels the thread and throws.
register_gate : Option ℕ → Bool → Exec Registry ℕ
register_gate (some gate) cancelled r = (r, returns gate)
register_gate none cancelled r =
    (record r { threads = if cancelled then r.threads - 1 else r.threads }, throws enomem)

open_session : ℕ → ℕ → Exec Registry (Unit {0})
open_session gate bitmap =
    modify λ r. record r { sessions = record { gate = gate; bitmap = bitmap } ∷ r.sessions }

-- `op_register_client` from the selection of the CPU on.
unfoldable pub register_with : Calls → ℕ → Exec Registry ℕ
unfolding create_thread register_gate open_session
register_with calls bitmap = do
  check (chksys calls.create_scheduler)
  create_thread calls.thread_failed
  gate ← register_gate calls.gate calls.cancelled
  check (chksys calls.dec_refcnt)
  check (chksys calls.register_irq)
  check (chksys calls.run_thread)
  open_session gate bitmap
  pure gate

unfoldable pub op_register_client : Calls → Exec Registry ℕ
unfolding take_cpu register_with
op_register_client calls = do bitmap ← take_cpu; register_with calls bitmap

keep_session : Session → Option (Session × List Session) → Option (Session × List Session)
keep_session s none = none
keep_session s (some (t, others)) = some (t, s ∷ others)

-- The session whose IRQ object watches a gate, and the others.
unfoldable pub take_session : ℕ → List Session → Option (Session × List Session)
unfolding keep_session
take_session gate [] = none
take_session gate (s ∷ rest) =
    if s.gate == gate then some (s, rest) else keep_session s (take_session gate rest)

-- The objects of the client are deleted, its CPU is given back, and its thread ends.
clean_up : Registry → Option (Session × List Session) → Registry
clean_up r none = r
clean_up r (some (s, others)) = record r {
  available = free_client_cpu s.bitmap r.available;
  sessions = others;
  threads = r.threads - 1;
}

-- The IRQ of a session's thread. It is also raised when the gate of a worker is deleted, and then
-- the client's own gate still has a label.
pub handle_irq : Bool → ℕ → Registry → Registry
unfolding clean_up take_session
handle_irq gate_valid gate r = if gate_valid then r else clean_up r (take_session gate r.sessions)
