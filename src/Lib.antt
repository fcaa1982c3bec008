-- ===== src/Lib.antt =====
-- Mett-Eagle is a serverless platform for the L4Re operating system framework. A manager process
-- hands each client a CPU and an ipc gate; over the gate a client registers binaries or Python
-- scripts as actions and invokes them; the manager starts one worker process per invocation,
-- waits for its exit message and answers the client with the value. A worker may invoke other
-- actions of its client. This library models that path from the client's thread to the function
-- in the worker and back, and proves what each part guarantees.
--
-- The parts, the code that they model, and the files:
--
-- - Cpu, Registry: mett-eagle/manager/src/manager_registry.cc. `available_cpus` is a list of
--   bits, lowest first; `select_client_cpu` and `free_client_cpu` work on its word as the code
--   does. `op_register_client` and `handle_irq` take the registry, the kernel's answers and
--   return the registry after the call with an `Outcome`: what the call returns or throws. A
--   registration that throws keeps the changes made before. Registry.Ownership holds the
--   invariant over all sequences of calls, Registry.Assigned the sessions of each gate,
--   Registry.Lossless registrations in which the kernel's calls succeed, Registry.Failure what a
--   failed registration leaves behind, and Registry.Race the loads and stores of a selection in
--   the thread of the registry and of a freeing in the thread of a client.
-- - Actions: mett-eagle/manager/src/manager_client.cc. The actions of a client are a list of
--   pairs with one entry for each name; Actions.Namespace states them as a partial function from
--   names.
-- - Worker: mett-eagle/manager/src/worker.h. The strings and capabilities of a worker process,
--   its exit state, and what the loader puts on the new stack. The loader's stack and capability
--   list are the parameter `Loader`.
-- - AppModel: mett-eagle/manager/src/app_model.cc, app_model.h, stack.cc, stack.h. Requests to
--   region maps and, in AppModel.Stack, the allocation of a new stack's pages. Page rounding is
--   the parameter `Pages`, with the laws of rounding to a page boundary.
-- - Invoke: mett-eagle/manager/src/manager_base.cc and manager_worker.cc. `op_action_invoke` is
--   `prepare` (from the lookup of the name to the configured worker), `serve` (the server loop
--   of one worker) and `finish` (the answer). The kernel's and the loader's answers are the
--   fields of `Setup`. What a worker sends is a `Script`: messages with the clock at each wait,
--   ended by silence or an error of the dispatch; a message that invokes an action holds the
--   script of the new worker, so the loop is structural on the script and needs no fuel.
--   Invoke.Deadline is about the time limit of a whole invocation, Invoke.Prompt about workers
--   that end with their first message.
-- - Interface: the records of mett-eagle/include/base that requests and answers carry.
-- - Server: the loop of a client's thread in mett-eagle/manager/src/manager_registry.cc, with
--   `Exc_log_dispatch` of liblog/include/exc_log_dispatch. A request is a handler of Actions or
--   Invoke with its arguments; `internal_loop` takes a list of them and gives the answers, until
--   a handler waits for ever. Server.Dispatch is the dispatcher with its catch blocks and the
--   log messages that they write, Server.Crash the same around `op_action_invoke`;
--   Server.Logging relates it to the dispatcher without log messages, which the other modules
--   use.
-- - Startup: mett-eagle/manager/src/manager.cc (`main` up to its server loop) and l4re_aux.cc
--   (`init`).
-- - Faas: libfaas/lib/src/wrapper.cc, libfaas/python2.7/src/wrapper.cc,
--   libfaas/python3/src/wrapper.cc, libfaas/include/faas, libfaas/python2.7/src/py-faas-lib.cc,
--   and, in Faas.Functions, the examples in mett-eagle-client/faas-functions. `main` of each
--   wrapper gives a `Run`: the exit call that it makes and the code that it returns; `script_of`
--   is what the manager sees of it. The Python interpreter is the parameter `Interpreter`, by
--   the results of its calls.
-- - Manager: the composition. `Manager` holds the registry and a thread for each gate; `run`
--   takes a list of events (registrations, requests of any client, deletion IRQs) in the order
--   in which the manager meets them. Registrations and deletion IRQs run in different threads on
--   one bitset with no lock: an event `overlaps` has a list of their accesses in any order, and
--   the other events are those that run alone. An event `asks_unprintable` is a request whose
--   exception cannot be logged, which ends the manager. Manager.Isolation is about the answers
--   of one client among others, Manager.Hanging about a thread in a handler that never returns.
--   Manager.Overlap is about such accesses. Manager.Placement is the invariant that joins
--   threads, sessions and CPUs; Manager.OwnCpu and Manager.TakenCpu say who has which CPU from
--   the start of `main` on, and Manager.Leaving what becomes of it when a client goes.
-- - Client: mett-eagle-client/client/client.cc and mett-eagle/include/util. Client.Main is
--   `main` and `benchmark` as functions of what the system answers to each client
--   (`Surroundings`); the wait of `main` for the clients before is a test on `waiting_count`,
--   and a wait that never ends is `blocks`. The measurement loop runs over the list of what the
--   invocations give. The start of the threads is also a step relation: `Step` has a constructor
--   for each thing that `main` or a client thread can do, with the condition that it waits for;
--   Client.Wakeup is the same start with the two condition variables, with threads that sleep,
--   are notified, or wake on their own. Client.Json has a grammar for the JSON texts that can be
--   printed; numbers are strings of digits there.
-- - System: the benchmark client at the manager, as one system. What the client threads are
--   answered before the barrier comes from `Manager.run` on their registrations and creations,
--   one after the other, and what their invocations give from `Manager.run` on any events that
--   follow. `Participant` has the answers of the calls outside the repository for one client.
--   System.Capacity counts the free CPUs.
-- - Log: liblog/include/log. Which messages a log level prints, and a step relation of processes
--   that print their lines in pieces under a common semaphore, or without it. Log.Exceptions is
--   the log of an object or an exception, whose description is formatted once more. `perform`
--   says what a message does to the first message register, which `start` saves and `end`
--   restores. Log.Fields puts the line of a message together. Log.Checks has the checks of
--   liblog/include/error_helper on signed numbers.
-- - CapAlloc: liballoc/include/alloc. `advance` is one atomic access (load, exchange or store)
--   of one thread to the counter of a slot; runs interleave the threads in any way.
--   CapAlloc.Table has all slots and `_last`, with the loop of `alloc` by its single steps;
--   CapAlloc.Slots relates each slot of it to a slot alone. CapAlloc.WaitFree follows one thread
--   while the memory between its steps is any. `search` is the loop of `alloc` without
--   interference; it has as much fuel as there are slots, which CapAlloc.Search proves to be
--   enough.
-- - Base: the shared lists, byte strings, association lists, outcomes of code that throws or
--   blocks, and a small monad of state with exceptions.
-- - Examples: tests on small inputs, and the theorems at concrete inputs.
--
-- How the parts interact: Startup hands the registry to Registry, whose `op_register_client`
-- gives a client the Actions that Invoke looks up; Server passes its requests to both; Invoke
-- configures a Worker, which the loader starts through AppModel; Faas gives the script that
-- Invoke serves, and Client consumes the answers; System joins Client to Manager. Numbers are
-- natural numbers; a machine word keeps its wrap-around where the code can reach it (the
-- deadline in microseconds, the exit code of 32 bits, the CPU map of 64 bits, the counter of 8
-- bits). Exceptions are values of `Outcome`; errors are named by `Error`.
--
-- Not modelled: the kernel, the loader, the ipc framework, the error checks of L4Re and fmt,
-- which stand behind the parameters named above; the silencer `NoSilence` of liblog, with which
-- `log` cannot be instantiated; the tests, which make no request; libfmt, libgtest and
-- libpython3, which are other projects.
mod Base
pub mod Cpu
pub mod Registry
pub mod Actions
pub mod Worker
pub mod AppModel
pub mod Interface
pub mod Invoke
pub mod Server
pub mod Manager
pub mod Startup
pub mod Faas
pub mod Log
pub mod CapAlloc
pub mod Client
pub mod System
pub mod Examples
