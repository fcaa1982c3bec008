-- ===== src/Invoke/Prepare.antt =====
-- The worker that an invocation starts.
use mett_eagle.Base.{
  ℕ, ◌≡◌, subst, true, false, [], ◌∷◌, Option, none, some, arith, ◌==◌, if◌then◌else◌, Bytes, bytes,
  c_string, lookup, returns, throws, einval, Option-cases, inl, inr, count_of_lookup-none,
}
use mett_eagle.Actions.{Action, Actions, binary, python}
use mett_eagle.Worker.{
  Loader, Worker, InitialCap, add_initial_capability, new_worker, set_argv_strings,
  set_envp_strings,
}
use mett_eagle.Invoke.{Config, Setup, unlimited, limited, Prepared, prepare, configure}

-- The program that is started for an action.
abbrev pub program : Action → Option ℕ → Option ℕ
program a python_ds =
    if a.lang == binary then some a.ds else if a.lang == python then python_ds else none

abbrev rom_cap : ℕ → ℕ → InitialCap
rom_cap rights rom = record { capability = rom; name = bytes "rom"; rights = rights; flags = 0 }

abbrev function_cap : ℕ → ℕ → InitialCap
function_cap rights ds = record {
  capability = ds;
  name = bytes "function";
  rights = rights;
  flags = 0;
}

-- A worker for an action: one argument, the file system, and for all but binaries the script.
pub record IsSetUp (rights rom : ℕ) (python_ds : Option ℕ) (arg : Bytes) (a : Action) (w : Worker)
    : Type 0 where
  pub argument : w.argv ≡ c_string arg ∷ []
  pub capabilities :
      w.initial_capabilities
      ≡ rom_cap rights rom ∷ (if a.lang == binary then [] else function_cap rights a.ds ∷ [])
  pub program_of : w.bin ≡ program a python_ds
  pub running : w.alive ≡ true
  pub clean : w.error_exit ≡ false

-- An unknown name is refused with -L4_EINVAL, whatever the kernel answers.
pub prepare_unknown :
    {Stack : Type 0} (l : Loader Stack) (actions : Actions) (name arg : Bytes) (cfg : Config)
    (setup : Setup)
    → lookup (c_string name) actions ≡ none
    → prepare l actions name arg cfg setup ≡ throws einval
unfolding prepare
prepare_unknown l actions name arg cfg setup h =
    ground (arith, count_of_lookup-none (c_string name) actions h)

module _ {Stack : Type 0} (l : Loader Stack) (rom_name : l.is_valid_name (bytes "rom") ≡ true)
    (function_name : l.is_valid_name (bytes "function") ≡ true) where
  configure-IsSetUp :
      (a : Action) (arg : Bytes) (rom : ℕ) (python_ds : Option ℕ)
      → IsSetUp l.cap_fpage_rw rom python_ds arg a (configure l a arg rom (program a python_ds))
  unfolding configure add_initial_capability new_worker set_argv_strings set_envp_strings
  configure-IsSetUp a arg rom python_ds = ground arith

  -- If the preparation returns, the name stands for an action, and the worker is set up for it,
  -- with the memory limit of the caller.
  pub prepare-IsSetUp :
      (actions : Actions) (name arg : Bytes) (cfg : Config) (setup : Setup) (p : Prepared)
      → prepare l actions name arg cfg setup ≡ returns p
      → (a : Action) × (lookup (c_string name) actions ≡ some a)
        × IsSetUp l.cap_fpage_rw setup.rom setup.python_ds arg a p.worker
        × (p.allocator ≡ (if cfg.memory_limit == 0 then unlimited else limited cfg.memory_limit))
  unfolding prepare
  prepare-IsSetUp actions name arg cfg setup p h =
      elim (Option-cases (lookup (c_string name) actions)) [
        | inl e ↦ cc (prepare_unknown l actions name arg cfg setup e)
        | inr (a, e) ↦ (
          a,
          e,
          subst (IsSetUp l.cap_fpage_rw setup.rom setup.python_ds arg a) (started a e)
              (configure-IsSetUp a arg setup.rom setup.python_ds),
          ground arith,
        )
      ]
    where
      started :
          (a : Action)
          → lookup (c_string name) actions ≡ some a
          → configure l a arg setup.rom (program a setup.python_ds) ≡ p.worker
      started a e = ground arith
