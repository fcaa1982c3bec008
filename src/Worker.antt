-- ===== src/Worker.antt =====
-- mett-eagle/manager/src/worker.h: the application model of a worker process.
-- The stack of the new process and the table of its initial capabilities belong to libloader, which
-- is a parameter: `push_str`, `push`, `get_initial_cap` and `is_valid_name` of `Loader`.
pub mod Strings
pub mod Capabilities
use mett_eagle.Base.{
  ℕ, suc, ◌%◌, ◌≡◌, Bool, true, false, not, List, [], ◌∷◌, ◌++◌, Option, none, some, ◌==◌,
  if◌then◌else◌, Bytes, c_string, Outcome, returns, throws, Error, chksys,
}

-- What the loader offers, over a type of stacks.
pub record Loader (Stack : Type 0) : Type 0 where
  pub push_str : Bytes → Stack → ℕ × Stack  -- the address of the pushed string
  pub push : Bytes → ℕ → ℕ → Stack → Stack  -- `l4re_env_cap_entry_t (name, index, flags)`
  pub get_initial_cap : Bytes → ℕ → ℕ × ℕ  -- the index, and the next start
  pub is_valid_name : Bytes → Bool
  pub cap_fpage_rw : ℕ  -- the constant L4_CAP_FPAGE_RW of the kernel

-- `Initial_Cap`
pub record InitialCap : Type 0 where
  pub capability : ℕ
  pub name : Bytes
  pub rights : ℕ
  pub flags : ℕ

-- `_exit_error` has no initial value.
pub record Worker : Type 0 where
  pub argv : List Bytes
  pub envp : List Bytes
  pub initial_capabilities : List InitialCap
  pub alive : Bool
  pub exit_value : Bytes
  pub exit_error : Option ℕ
  pub error_exit : Bool
  pub bin : Option ℕ

-- The constructor. `bin` is the dataspace of the program, if it is valid.
unfoldable pub new_worker : Option ℕ → Worker
new_worker bin = record {
  argv = [];
  envp = [];
  initial_capabilities = [];
  alive = true;
  exit_value = [];
  exit_error = none;
  error_exit = false;
  bin = bin;
}

-- `exit (std::string)`
unfoldable pub exit_with_value : Bytes → Worker → Worker
exit_with_value value w = record w { exit_value = value; alive = false }

-- `exit (int)`
unfoldable pub exit_with_error : ℕ → Worker → Worker
exit_with_error exit_code w = record w {
  exit_error = some exit_code;
  alive = false;
  error_exit = true;
}

unfoldable pub exited_with_error : Worker → Bool
exited_with_error w = w.error_exit

unfoldable pub get_exit_value : Worker → Bytes
get_exit_value w = w.exit_value

add_argv_string : Bytes → Worker → Worker
add_argv_string s w = record w { argv = w.argv ++ s ∷ [] }

unfoldable pub set_argv_strings : List Bytes → Worker → Worker
set_argv_strings ss w = record w { argv = ss }

add_envp_string : Bytes → Worker → Worker
add_envp_string s w = record w { envp = w.envp ++ s ∷ [] }

unfoldable pub set_envp_strings : List Bytes → Worker → Worker
set_envp_strings ss w = record w { envp = ss }

-- `argv` and `envp` of the loader: `al` is the last string, `a0` the first, 0 if there is none.
pub record Vector : Type 0 where
  pub a0 : ℕ
  pub al : ℕ

-- The new process while its stack is filled.
pub record Process (Stack : Type 0) : Type 0 where
  pub stack : Stack
  pub argv : Vector
  pub envp : Vector

-- A mapping that the new task receives.
pub record Mapping : Type 0 where
  pub capability : ℕ
  pub rights : ℕ
  pub index : ℕ

module _ {Stack : Type 0} (l : Loader Stack) where
  open l use {push_str, push, get_initial_cap, is_valid_name}

  -- A name that is too long is logged, and the capability is left out.
  unfoldable pub add_initial_capability : ℕ → Bytes → ℕ → ℕ → Worker → Worker
  add_initial_capability cap name rights flags w =
      if not (is_valid_name name) then w else record w {
        initial_capabilities =
            w.initial_capabilities
            ++ record { capability = cap; name = name; rights = rights; flags = flags } ∷ [];
      }

  -- The loop over the strings behind the first: each becomes the last.
  push_argv_rest : List Bytes → Process Stack → Process Stack
  push_argv_rest [] p = p
  push_argv_rest (s ∷ ss) p =
      let (address, stack) = push_str s p.stack in
      push_argv_rest ss (record p { stack = stack; argv = record p.argv { al = address } })

  push_argv_list : List Bytes → Process Stack → Process Stack
  unfolding push_argv_rest
  push_argv_list [] p = p
  push_argv_list (first ∷ ss) p =
      let (address, stack) = push_str (c_string first) p.stack in
      push_argv_rest ss (record p { stack = stack; argv = record { a0 = address; al = address } })

  pub push_argv_strings : Worker → Process Stack → Process Stack
  unfolding push_argv_list
  push_argv_strings w p = push_argv_list w.argv p

  push_env_rest : List Bytes → Process Stack → Process Stack
  push_env_rest [] p = p
  push_env_rest (s ∷ ss) p =
      let (address, stack) = push_str s p.stack in
      push_env_rest ss (record p { stack = stack; envp = record p.envp { al = address } })

  push_env_list : List Bytes → Process Stack → Process Stack
  unfolding push_env_rest
  push_env_list [] p = p
  push_env_list (first ∷ ss) p =
      let (address, stack) = push_str (c_string first) p.stack in
      push_env_rest ss (record p { stack = stack; envp = record { a0 = address; al = address } })

  pub push_env_strings : Worker → Process Stack → Process Stack
  unfolding push_env_list
  push_env_strings w p = push_env_list w.envp p

  -- `App_model::init_prog`, called by the loader once the stack is there.
  pub init_prog : Worker → Process Stack → Process Stack
  unfolding push_argv_strings push_env_strings
  init_prog w p = push_env_strings w (push_argv_strings w p)

  push_caps : List InitialCap → ℕ → Stack → ℕ × Stack
  push_caps [] start stack = (start, stack)
  push_caps (c ∷ cs) start stack =
      let (index, next) = get_initial_cap (c_string c.name) start in
      push_caps cs next (push (c_string c.name) index c.flags stack)

  -- The next free start, and the stack with an entry for each capability.
  pub push_initial_caps : Worker → ℕ → Stack → ℕ × Stack
  unfolding push_caps
  push_initial_caps w start stack = push_caps w.initial_capabilities start stack

  -- `task->map`, given by its error for each mapping. What is mapped before an error stays mapped.
  map_caps : (Mapping → Option Error) → List InitialCap → ℕ → List Mapping × Outcome (Unit {0})
  map_caps map_error [] start = ([], returns tt)
  map_caps map_error (c ∷ cs) start =
      let (index, next) = get_initial_cap (c_string c.name) start in
      let mapping = the_mapping c.capability (c.rights % 16) index in
      let rest = map_caps map_error cs next in
      elim (map_error mapping) [ some e ↦ ([], throws e) | none ↦ (mapping ∷ rest.0, rest.1) ]
    where
      the_mapping : ℕ → ℕ → ℕ → Mapping
      the_mapping capability rights index = record {
        capability = capability;
        rights = rights;
        index = index;
      }

  unfoldable pub map_initial_caps :
      (Mapping → Option Error) → Worker → ℕ → List Mapping × Outcome (Unit {0})
  unfolding map_caps
  map_initial_caps map_error w start = map_caps map_error w.initial_capabilities start
