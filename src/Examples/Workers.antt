-- ===== src/Examples/Workers.antt =====
-- Worker processes: mett-eagle/manager/src/worker.h, over a loader whose stack is a list.
use mett_eagle.Base.{
  ◌+◌, ◌≡◌, refl, true, false, List, [], ◌∷◌, Option, none, some, arith, leb, length, Bytes, bytes,
  returns, throws, kernel, Error, ◌==◌, if◌then◌else◌,
}
use mett_eagle.Worker.{
  Loader, Worker, Mapping, Process, init_prog, push_initial_caps, map_initial_caps,
}
use mett_eagle.Worker.Strings.{init_prog-pushed}
use mett_eagle.Worker.Capabilities.{push_entries, MapsPrefix, pushed_entries_are_mapped}

-- Strings are addressed by the height of the stack; capabilities are numbered from the start; names
-- have at most 15 bytes.
abbrev pub list_loader : Loader (List Bytes)
list_loader = record {
  push_str = λ s stack. (length stack + 1, s ∷ stack);
  push = λ name index flags stack. (index ∷ name) ∷ stack;
  get_initial_cap = λ name start. (start, start + 1);
  is_valid_name = λ name. leb (length name) 15;
  cap_fpage_rw = 5;
}

abbrev two_args : Worker
two_args = record {
  argv = bytes "a" ∷ bytes "bc" ∷ [];
  envp = bytes "LOG_LEVEL=31" ∷ [];
  initial_capabilities =
      record { capability = 3; name = bytes "rom"; rights = 5; flags = 0 }
      ∷ record { capability = 8; name = bytes "function"; rights = 21; flags = 0 }
      ∷ [];
  alive = true;
  exit_value = [];
  exit_error = none;
  error_exit = false;
  bin = some 1;
}

abbrev empty_process : Process (List Bytes)
empty_process = record {
  stack = [];
  argv = record { a0 = 0; al = 0 };
  envp = record { a0 = 0; al = 0 };
}

init_prog-pushed_example :
    ((init_prog list_loader two_args empty_process).stack
      ≡ bytes "LOG_LEVEL=31" ∷ bytes "bc" ∷ bytes "a" ∷ [])
    × ((init_prog list_loader two_args empty_process).argv ≡ record { a0 = 1; al = 2 })
    × ((init_prog list_loader two_args empty_process).envp ≡ record { a0 = 3; al = 3 })
init_prog-pushed_example =
    init_prog-pushed list_loader two_args empty_process (omega arith) (omega arith)

no_error : Mapping → Option Error
no_error m = none

-- The second mapping fails.
second_fails : Mapping → Option Error
second_fails m = if m.capability == 8 then some (kernel 1) else none

all_mapped : (map_initial_caps list_loader no_error two_args 10).1 ≡ returns tt
unfolding map_initial_caps no_error
all_mapped = refl

pushed_entries_are_mapped_example :
    MapsPrefix list_loader two_args.initial_capabilities
      (map_initial_caps list_loader no_error two_args 10).0
    × ((map_initial_caps list_loader no_error two_args 10).1 ≡ returns tt
        → (push_initial_caps list_loader two_args 10 []).1
          ≡ push_entries list_loader two_args.initial_capabilities
              (map_initial_caps list_loader no_error two_args 10).0
              [])
pushed_entries_are_mapped_example = pushed_entries_are_mapped list_loader no_error two_args 10 []

one_mapped :
    map_initial_caps list_loader second_fails two_args 10
    ≡ (record { capability = 3; rights = 5; index = 10 } ∷ [], throws (kernel 1))
unfolding map_initial_caps second_fails
one_mapped = refl
