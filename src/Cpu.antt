-- ===== src/Cpu.antt =====
-- mett-eagle/manager/src/manager.h and manager_registry.cc: the CPUs that are not assigned to a
-- client, `select_client_cpu` and `free_client_cpu`.
pub mod Bitset
pub mod Select
use mett_eagle.Base.{ℕ, ◌-◌, Outcome, returns, throws, Error, enoent, throw_if, ◌>>=◌, ◌>>◌}
use Bitset.{Bits, is_none, to_ullong, bits_of, and_bits, or_bits, complement, shl_one, ffsll}

-- `sizeof (l4_sched_cpu_set_t::map) * 8` with a 64-bit map
abbrev pub width : ℕ
width = 64

-- The selected CPU as a bitmap, and the CPUs that are left. The guard throws before anything is
-- changed.
unfoldable pub select_client_cpu : Bits → Outcome (ℕ × Bits)
select_client_cpu available = do
  throw_if (is_none available) enoent
  let selected = shl_one width (ffsll width (to_ullong available) - 1)
  returns (selected, and_bits available (bits_of width (complement width selected)))

unfoldable pub free_client_cpu : ℕ → Bits → Bits
free_client_cpu free_bitmap available = or_bits available (bits_of width free_bitmap)
