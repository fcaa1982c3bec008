-- ===== src/Invoke/Prompt.antt =====
-- Invocations of programs in C++ whose worker ends with its first message.
use mett_eagle.Base.{
  ℕ, ◌-◌, ◌/◌, ◌%◌, ◌^◌, ◌≤◌, ◌≡◌, ◌≢◌, refl, true, [], ◌∷◌, Option, none, some, arith, ◌==◌, Bytes,
  c_string, lookup, lookup_of_count_zero, Error, Label, Outcome, returns, if◌then◌else◌,
}
use mett_eagle.Actions.{Action, Actions, binary}
use mett_eagle.Worker.{Loader, exit_with_value}
use mett_eagle.Invoke.{
  Config, WorkerMetadata, Setup, exit, Script, sends, Prepared, prepare, find_action,
  make_allocator, worker_ds, unlimited, configure, op_exit, receive_timeout, log_wait, dispatch,
  serve, invoke_with, op_action_invoke,
}
use mett_eagle.Invoke.Serve.{value}
use mett_eagle.Invoke.Answer.{told, prepare-IsRunning, finish-told}

-- The kernel and the loader refuse nothing that the start of such a worker takes.
pub record IsReady (setup : Setup) : Type 0 where
  pub dataspace : setup.dataspace_valid ≡ true
  pub parent : setup.parent_cap ≢ none
  pub construct : setup.construct ≡ none
  pub create_gate : setup.create_gate ≡ none
  pub launch : setup.launch ≡ none

-- The wait that begins at `now` is within the limit of the caller.
pub in_time :
    (cfg : Config) (start now : ℕ)
    → start ≤ now
    → (now - start) / 1000 ≤ cfg.timeout_us
    → (t : Option ℕ) × (receive_timeout cfg start now ≡ returns t)
unfolding receive_timeout
in_time cfg start now forwards early = (
  (if cfg.timeout_us == 0 then none else some ((cfg.timeout_us - (now - start) / 1000) % 2 ^ 32)),
  ground arith,
)

found :
    (actions : Actions) (name : Bytes) (a : Action)
    → lookup name actions ≡ some a
    → find_action actions name true ≡ returns a
unfolding find_action
found actions name a bound = ground (arith, lookup_of_count_zero name actions)

module _ {Stack : Type 0} (l : Loader Stack) where
  -- Without a memory limit, the program in C++ that the name stands for is started.
  pub prepare_ready :
      (actions : Actions) (name arg : Bytes) (cfg : Config) (setup : Setup) (a : Action)
      → lookup (c_string name) actions ≡ some a
      → a.lang ≡ binary
      → cfg.memory_limit ≡ 0
      → IsReady setup
      → (p : Prepared) × (prepare l actions name arg cfg setup ≡ returns p)
  unfolding prepare make_allocator worker_ds
  prepare_ready actions name arg cfg setup a bound cpp free ready = (
    record { worker = configure l a arg setup.rom (some a.ds); allocator = unlimited },
    rw (ready.dataspace, found actions (c_string name) a bound) (ground arith),
  )

  -- If the worker could be started, its first message is the exit call, and the manager waits for it in
  -- time, the caller is told the value at once.
  pub prompt_told :
      (on_throw : Error → Outcome Label) (actions : Actions) (name arg : Bytes) (ret_length : ℕ)
      (cfg : Config) (setup : Setup) (p : Prepared) (t : Option ℕ) (now : ℕ) (v : Bytes)
      (d : WorkerMetadata) (rest : Script)
      → prepare l actions name arg cfg setup ≡ returns p
      → receive_timeout cfg setup.start_worker now ≡ returns t
      → op_action_invoke l on_throw actions name arg ret_length cfg setup
          (sends now (exit v d) rest)
        ≡ told ret_length setup (value (c_string v) d)
  unfolding op_action_invoke invoke_with serve dispatch op_exit exit_with_value log_wait
  prompt_told on_throw actions name arg ret_length cfg setup p t now v d rest ready wait =
      let (alive, fine) = prepare-IsRunning l actions name arg cfg setup p ready in
      rw (ready, wait)
        (finish-told ret_length setup
          (record { worker = exit_with_value (c_string v) p.worker; metadata = d; waits = t ∷ [] })
          (value (c_string v) d) (refl, fine, refl, refl))
