-- ===== src/System.antt =====
-- The benchmark client of mett-eagle-client/client/client.cc at a manager: what `main` and its client
-- threads are answered comes from the registry and the threads of the manager. A client registers by
-- `getManager` of mett-eagle/include/util and creates its action by the path of a file, as in
-- mett-eagle/include/client; its invocations are those of mett-eagle/include/base.
pub mod Capacity
pub mod Connected
pub mod Served
pub mod Benchmark
use mett_eagle.Base.{
  ℕ, zero, suc, ◌+◌, Bool, true, false, not, List, [], ◌∷◌, Option, none, some, ◌==◌, Bytes, bytes,
  Error, einval, enomem, Outcome, returns, throws, blocks, Label, failed, chkcap, if◌then◌else◌,
}
use mett_eagle.Base.Exec.{Exec, pure, check, ◌>>=◌, ◌>>◌}
use mett_eagle.Registry.{Calls, op_register_client}
use mett_eagle.Actions.{Received, binary}
use mett_eagle.Worker.{Loader}
use mett_eagle.Invoke.{Config}
use mett_eagle.Server.{Answer, label, result, create}
use mett_eagle.Manager.{Manager, Event, registers, asks, step, run}
use mett_eagle.Manager.Isolation.{answers_of}
use mett_eagle.Client.{Sample}
use mett_eagle.Client.Main.{Surroundings}

-- What the calls outside the repository answer around one client: those of `main` for its thread,
-- those of `getManager`, those of the manager during the registration, the file of the action in the
-- client's name space, and how its capability reaches the manager.
pub record Participant : Type 0 where
  pub thread : Option Error
  pub scheduler : Option Error
  pub run_thread : Option Error
  pub registry : Option ℕ
  pub slot : Option ℕ
  pub calls : Calls
  pub file : Option ℕ
  pub received : Received

-- The name under which every client creates its action.
abbrev pub action_name : Bytes
action_name = bytes "testAction"

-- What `benchmark` passes to `action_invoke`.
abbrev pub benchmark_config : Config
benchmark_config = record { memory_limit = 0; timeout_us = 75000 }

-- The error that a call ends with. Neither a registration nor a creation waits for ever.
abbrev pub failure {ℓ} : {A : Type ℓ} → Outcome A → Option Error
failure (returns a) = none
failure (throws e) = some e
failure blocks = none

-- The label of an answer as the client's call meets it. A thread that is gone or hangs gives none.
unfoldable pub call_result : List (ℕ × Answer) → Outcome (Unit {0})
call_result ((gate, label (failed e)) ∷ more) = throws e
call_result ((gate, other) ∷ more) = returns tt
call_result [] = blocks

-- The check of `action_invoke` on the last byte of the answer.
unfoldable pub is_terminated : Bytes → Bool
is_terminated [] = false
is_terminated (x ∷ []) = x == 0
is_terminated (x ∷ y ∷ ys) = is_terminated (y ∷ ys)

-- What the measurement loop makes of the answers, with its clock before and after each invocation.
unfoldable pub samples : (ℕ → ℕ × ℕ) → ℕ → List Answer → List (Option Sample)
unfolding is_terminated
samples clock i [] = []
samples clock i (label l ∷ answers) = none ∷ samples clock (i + 1) answers
samples clock i (result r ∷ answers) =
    (if is_terminated r.ret
      then some (record {
        start_invocation = (clock i).0;
        end_invocation = (clock i).1;
        data' = r.metadata;
      })
      else none)
    ∷ samples clock (i + 1) answers

-- What the manager has answered over a client's gate, if the client got one.
unfoldable pub received_by : Outcome ℕ → List (ℕ × Answer) → List Answer
received_by (returns gate) answers = answers_of gate answers
received_by (throws e) answers = []
received_by blocks answers = []

module _ {Stack : Type 0} (l : Loader Stack) (on_throw : Error → Outcome Label) where
  -- `Exc_log_dispatch` of the registry's loop: the gate, or the error as the label.
  unfoldable pub call_register : Calls → Exec Manager ℕ
  call_register calls m =
      ((step l on_throw (registers calls) m).0, (op_register_client calls m.registry).1)

  -- `action_create` with a path: without the file it throws before anything is sent.
  unfoldable pub call_create : ℕ → Option ℕ → Received → Exec Manager (Unit {0})
  unfolding call_result
  call_create gate none received m = (m, throws einval)
  call_create gate (some file) received m =
      let (m', answers) = step l on_throw (asks gate (create action_name received binary)) m in
      (m', call_result answers)

  -- The two calls of a client to the manager before the barrier.
  unfoldable pub enter : Participant → Exec Manager ℕ
  enter p = do gate ← call_register p.calls; call_create gate p.file p.received; pure gate

  -- `benchmark` up to the barrier: the manager afterwards, and the client's gate.
  unfoldable pub connect : Participant → Exec Manager ℕ
  connect p = do check (chkcap p.registry enomem); check (chkcap p.slot enomem); enter p

  -- The manager when client `i` begins: the clients before it have connected one after the other.
  unfoldable pub before : (ℕ → Participant) → ℕ → Manager → Manager
  before participants zero m = m
  before participants (suc i) m = (connect (participants i) (before participants i m)).0

  -- One client's surroundings at a manager, by what becomes of its invocations.
  unfoldable pub surroundings_of : Participant → Manager → List (Option Sample) → Surroundings
  surroundings_of p m invocations = record {
    thread = p.thread;
    scheduler = p.scheduler;
    run_thread = p.run_thread;
    registry = p.registry;
    slot = p.slot;
    register_client = λ registry slot. failure (call_register p.calls m).1;
    action_create = λ manager. failure (enter p m).1;
    invocations = invocations;
  }

  -- All clients: they connect one after the other, and then the events happen, in any order.
  unfoldable pub surroundings_at :
      (ℕ → Participant) → (ℕ → ℕ → ℕ × ℕ) → ℕ → List Event → Manager → ℕ → Surroundings
  surroundings_at participants clock thread_num events m i =
      let all_connected = before participants thread_num m in
      let at_start = before participants i m in
      let answers = (run l on_throw events all_connected).1 in
      surroundings_of (participants i) at_start
        (samples (clock i) 0 (received_by (connect (participants i) at_start).1 answers))
