-- ===== src/Startup/Main.antt =====
-- The registry that `main` serves.
use mett_eagle.Base.{ℕ, ◌≡◌, subst, sym, Option, some, none, arith, Error}
use mett_eagle.Cpu.Bitset.{bits_of, length-bits_of}
use mett_eagle.Cpu.{width}
use mett_eagle.Registry.{Registry}
use mett_eagle.Registry.Ownership.{IsExclusive, Reach, Reach-IsExclusive}
use mett_eagle.Startup.{serving, no_cpus, manager_main}

abbrev pub initial : ℕ → Registry
initial map = record no_cpus { available = bits_of width map }

pub initial-IsExclusive : (map : ℕ) → IsExclusive (initial map)
initial-IsExclusive map = record { wide = length-bits_of width map; single = λ i. ground arith }

-- If `main` serves, it started with the CPUs of the scheduler's map free and no client, and every
-- registry that it reaches keeps each CPU in one place at most.
pub served-IsExclusive :
    (info : Option Error) (map gate : ℕ) (r s : Registry)
    → manager_main info map (some gate) ≡ serving r
    → Reach r s
    → (r ≡ initial map) × IsExclusive s
unfolding manager_main
served-IsExclusive (some e) map gate r s h p = cc
served-IsExclusive none map gate r s h p =
    (started, Reach-IsExclusive (subst IsExclusive (sym started) (initial-IsExclusive map)) p)
  where
    started : r ≡ initial map
    started = cc
