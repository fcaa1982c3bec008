-- ===== src/Invoke.antt =====
-- mett-eagle/manager/src/manager_base.cc (`op_action_invoke`, `check_timeout`), manager_worker.cc and
-- manager_worker.h (the handlers that a worker calls).
-- What the kernel and the clock answer, and what the worker sends, are arguments: `Setup` and
-- `Script`. A message that invokes another action carries the script of the worker that it starts,
-- so the recursion over nested invocations is structural.
pub mod Timeout
pub mod Prepare
pub mod Serve
pub mod Waits
pub mod Answer
pub mod Nested
pub mod Deadline
pub mod Prompt
use mett_eagle.Base.{
  ℕ, ◌+◌, ◌-◌, ◌/◌, ◌%◌, ◌^◌, Bool, true, false, not, List, [], ◌∷◌, ◌++◌, Option, none, some, ltb,
  leb, ◌==◌, if◌then◌else◌, length, Bytes, bytes, c_string, lookup, count, Outcome, returns, throws,
  blocks, Error, einval, efault, enomem, emsgtoolong, Label, eok, enoreply, throw_if, chksys,
  chkcap, ◌>>=◌, ◌>>◌,
}
pub use mett_eagle.Interface.{Config, WorkerMetadata, Metadata, no_metadata}
use mett_eagle.Actions.{Action, Actions, binary, python}
use mett_eagle.Worker.{
  Loader, Worker, new_worker, exit_with_value, exit_with_error, exited_with_error, get_exit_value,
  set_argv_strings, set_envp_strings, add_initial_capability,
}

-- `remaining_us` is a signed 64-bit number; `duration_cast` cuts towards zero; the result becomes
-- the `l4_uint32_t` that `l4_timeout_from_us` takes.
unfoldable pub check_timeout : ℕ → ℕ → ℕ → Outcome ℕ
check_timeout start now timeout_us =
    if leb start now
    then (let passed_us = (now - start) / 1000 in
        if ltb timeout_us passed_us
        then throws efault
        else returns ((timeout_us - passed_us) % 2 ^ 32))
    else returns ((timeout_us + (start - now) / 1000) % 2 ^ 32)

-- The answers of the calls outside the repository during one invocation.
pub record Setup : Type 0 where
  pub dataspace_valid : Bool
  pub parent_cap : Option ℕ
  pub create_allocator : Option Error
  pub python_ds : Option ℕ  -- `rom/python-faas2.7`
  pub construct : Option Error  -- the constructors of `Worker`
  pub create_gate : Option Error
  pub rom : ℕ
  pub start_worker : ℕ
  pub launch : Option Error
  pub end_worker : ℕ

-- What a worker sends: `L4Re::Parent::signal`, `Manager_Worker::exit`, `Manager_Base::invoke`. An
-- `invoke` carries the length of the worker's answer buffer.
mutual
  pub data Message : Type 0 where
    signal : ℕ → ℕ → Message
    exit : Bytes → WorkerMetadata → Message
    invoke : Bytes → Bytes → ℕ → Config → Setup → Script → Message

  -- What happens at the waits of the server loop: at clock `now` the manager waits, and nothing ever
  -- comes, or the IPC fails, or a message comes.
  pub data Script : Type 0 where
    quiet : ℕ → Script
    fails : ℕ → Error → Script
    sends : ℕ → Message → Script → Script

-- The memory that the worker may allocate from.
pub data Allocator : Type 0 where
  unlimited : Allocator
  limited : ℕ → Allocator

-- `Manager_Worker_Epiface`, and the receive timeouts given to the kernel, latest first (`none` is
-- L4_IPC_TIMEOUT_NEVER).
pub record Session : Type 0 where
  pub worker : Worker
  pub metadata : WorkerMetadata
  pub waits : List (Option ℕ)

-- What the caller receives: `data`, and the bytes that are copied to `ret.data`.
pub record Reply : Type 0 where
  pub metadata : Metadata
  pub ret : Bytes

op_signal : ℕ → ℕ → Session → Session × Label
unfolding exit_with_error
op_signal sig val s =
    if sig == 0
    then (record s { worker = exit_with_error (val % 2 ^ 32) s.worker }, enoreply)
    else (s, eok)

op_exit : Bytes → WorkerMetadata → Session → Session × Label
unfolding exit_with_value
op_exit value data' s =
    (record s { worker = exit_with_value (c_string value) s.worker; metadata = data' }, enoreply)

-- The lookup: the name must be known and the dataspace valid.
find_action : Actions → Bytes → Bool → Outcome Action
find_action actions name valid = do
  throw_if (count name actions == 0) einval
  action ← chkcap (lookup name actions) einval
  throw_if (not valid) einval
  returns action

make_allocator : ℕ → Option Error → Outcome Allocator
make_allocator limit error =
    if limit == 0 then returns unlimited else (do chksys error; returns (limited limit))

-- The program to start. For a language that is neither of the two there is no case, and the
-- capability stays invalid.
worker_ds : Action → Option ℕ → Outcome (Option ℕ)
worker_ds action python_ds =
    if action.lang == binary
    then returns (some action.ds)
    else if action.lang == python
    then (do ds ← chkcap python_ds einval; returns (some ds))
    else returns none

pub record Prepared : Type 0 where
  pub worker : Worker
  pub allocator : Allocator

-- From the return of the server loop to the answer.
unfoldable pub finish : ℕ → Setup → Session → Outcome Reply
unfolding exited_with_error get_exit_value
finish ret_length setup s = do
  throw_if (exited_with_error s.worker) efault
  let exit_value = get_exit_value s.worker
  throw_if (leb ret_length (length exit_value)) emsgtoolong
  returns (record {
    metadata = record {
      worker_metadata = s.metadata;
      start_worker = setup.start_worker;
      end_worker = setup.end_worker;
    };
    ret = exit_value ++ 0 ∷ [];
  })

-- The timeout of one wait. The clock is read only if the caller set a limit.
unfoldable pub receive_timeout : Config → ℕ → ℕ → Outcome (Option ℕ)
unfolding check_timeout
receive_timeout cfg start now =
    if cfg.timeout_us == 0
    then returns none
    else (do t ← check_timeout start now cfg.timeout_us; returns (some t))

-- The first wait takes the timeout that was computed; those in the loop take L4_IPC_NEVER.
unfoldable pub log_wait : Bool → Option ℕ → Session → Session
log_wait first timeout s = record s { waits = (if first then timeout else none) ∷ s.waits }

module _ {Stack : Type 0} (l : Loader Stack) where
  configure : Action → Bytes → ℕ → Option ℕ → Worker
  unfolding new_worker set_argv_strings set_envp_strings add_initial_capability
  configure action arg rom bin =
      let named =
        set_envp_strings (bytes "PKGNAME=Worker    " ∷ bytes "LOG_LEVEL=31" ∷ [])
          (set_argv_strings (c_string arg ∷ []) (new_worker bin)) in
      let with_rom = add_initial_capability l rom (bytes "rom") l.cap_fpage_rw 0 named in
      if action.lang == binary
      then with_rom
      else add_initial_capability l action.ds (bytes "function") l.cap_fpage_rw 0 with_rom

  -- Up to `worker->launch ()`.
  unfoldable pub prepare : Actions → Bytes → Bytes → Config → Setup → Outcome Prepared
  unfolding find_action make_allocator worker_ds configure
  prepare actions name arg cfg setup = do
    action ← find_action actions (c_string name) setup.dataspace_valid
    parent ← chkcap setup.parent_cap enomem
    allocator ← make_allocator cfg.memory_limit setup.create_allocator
    bin ← worker_ds action setup.python_ds
    chksys setup.construct
    chksys setup.create_gate
    chksys setup.launch
    returns (record { worker = configure action arg setup.rom bin; allocator = allocator })

  abbrev pub begin : Prepared → Session
  begin p = record { worker = p.worker; metadata = no_metadata; waits = [] }

  -- One invocation, with the server loop as an argument.
  unfoldable pub invoke_with :
      (Session → Outcome Session) → Actions → Bytes → Bytes → ℕ → Config → Setup → Outcome Reply
  invoke_with loop actions name arg ret_length cfg setup = do
    p ← prepare actions name arg cfg setup
    s ← loop (begin p)
    finish ret_length setup s

  -- The dispatch of the server loop is the framework's. `on_throw` is what it makes of an exception
  -- that a handler throws: the label of an answer, or the exception itself.
  module _ (on_throw : Error → Outcome Label) (actions : Actions) where
    unfoldable pub answer_of : Outcome Reply → Outcome Label
    answer_of (returns r) = returns eok
    answer_of (throws e) = on_throw e
    answer_of blocks = blocks

    unfoldable mutual
      unfolding answer_of invoke_with op_signal op_exit

      pub dispatch : Message → Session → Outcome (Session × Label)
      dispatch (signal sig val) s = returns (op_signal sig val s)
      dispatch (exit value data') s = returns (op_exit value data' s)
      dispatch (invoke name arg ret_length cfg setup script) s =
          answer_of (
            invoke_with (serve script cfg setup.start_worker true) actions name arg ret_length cfg
              setup)
          >>= λ label. returns (s, label)

      pub serve : Script → Config → ℕ → Bool → Session → Outcome Session
      serve (quiet now) cfg start first s = receive_timeout cfg start now >>= λ _. blocks
      serve (fails now e) cfg start first s = receive_timeout cfg start now >>= λ _. throws e
      serve (sends now message rest) cfg start first s =
          receive_timeout cfg start now >>= λ timeout.
          dispatch message (log_wait first timeout s) >>= λ answered. elim answered.0.worker.alive [
            | true ↦ serve rest cfg start false answered.0
            | false ↦ returns answered.0
          ]

    unfoldable pub op_action_invoke : Bytes → Bytes → ℕ → Config → Setup → Script → Outcome Reply
    op_action_invoke name arg ret_length cfg setup script =
        invoke_with (serve script cfg setup.start_worker true) actions name arg ret_length cfg setup
