-- ===== src/Startup.antt =====
-- mett-eagle/manager/src/manager.cc (`main`) and l4re_aux.cc (`init`): how the manager starts.
pub mod Auxiliary
pub mod Main
use mett_eagle.Base.{
  ℕ, Bool, true, false, List, [], ◌∷◌, Option, none, some, ◌==◌, if◌then◌else◌, Error, Outcome,
  returns, throws, blocks, chksys, chkcap, enomem, ◌>>=◌, ◌>>◌,
}
use mett_eagle.Cpu.Bitset.{bits_of}
use mett_eagle.Cpu.{width}
use mett_eagle.Registry.{Registry}

-- `main` returns an error code, or serves for ever.
pub data Started : Type 0 where
  serving : Registry → Started
  ends : Error → Started

caught : Outcome Registry → Started → Started
caught (returns r) never = serving r
caught (throws e) never = ends e
caught blocks never = never

-- Before `main` no CPU is available.
abbrev pub no_cpus : Registry
no_cpus = record { available = bits_of width 0; sessions = []; threads = 0 }

set_up : Option Error → ℕ → Option ℕ → Outcome Registry
set_up info map server = do
  chksys info
  gate ← chkcap server enomem
  returns (record no_cpus { available = bits_of width map })

-- The answer of the scheduler's `info`, its CPU map, and the gate of the service "server".
unfoldable pub manager_main : Option Error → ℕ → Option ℕ → Started
unfolding caught set_up
manager_main info map server = caught (set_up info map server) (serving no_cpus)

-- The words behind `__environ`: the environment up to a zero word, then pairs of a tag and a value up
-- to a zero tag. `none` is a read behind the end of the words.
scan_auxv : List ℕ → ℕ → Option ℕ
scan_auxv [] aux = none
scan_auxv (tag ∷ []) aux = if tag == 0 then some aux else none
scan_auxv (tag ∷ value ∷ rest) aux =
    let later = scan_auxv rest (if tag == 0xf0 then value else aux) in
    if tag == 0 then some aux else later

-- `l4re_aux` after `init`; it is 0 before.
pub init_aux : List ℕ → Option ℕ
unfolding scan_auxv
init_aux [] = none
init_aux (word ∷ rest) = if word == 0 then scan_auxv rest 0 else init_aux rest
