-- ===== src/Registry/Race.antt =====
-- mett-eagle/manager/src/manager_registry.cc: `select_client_cpu` runs in the thread of the registry
-- and `free_client_cpu` in the thread of a client, on one bitset and with no lock. `&=` and `|=` load
-- the bitset and store it later.
use mett_eagle.Base.{ℕ, ◌-◌, List, [], ◌∷◌, if◌then◌else◌}
use mett_eagle.Cpu.Bitset.{
  Bits, is_none, to_ullong, bits_of, and_bits, or_bits, complement, shl_one, ffsll,
}
use mett_eagle.Cpu.{width}

-- Where the registry's thread stands in `select_client_cpu`: at the start, with the word that it
-- chose, with that word and the copy that `&=` loaded, or behind it, with the word or an exception.
pub data Selecting : Type 0 where
  ready refused : Selecting
  chose has : ℕ → Selecting
  masking : ℕ → Bits → Selecting

-- Where a client's thread stands in `free_client_cpu`.
pub data Freeing : Type 0 where
  holds : ℕ → Freeing
  merging : ℕ → Bits → Freeing
  freed : Freeing

pub record Shared : Type 0 where
  pub available : Bits
  pub selecting : Selecting
  pub freeing : Freeing

-- The next access of the registry's thread. Its test and its choice are one step.
unfoldable pub select_step : Shared → Selecting → Shared
select_step c ready =
    if is_none c.available
    then record c { selecting = refused }
    else record c { selecting = chose (shl_one width (ffsll width (to_ullong c.available) - 1)) }
select_step c (chose s) = record c { selecting = masking s c.available }
select_step c (masking s copy) = record c {
  available = and_bits copy (bits_of width (complement width s));
  selecting = has s;
}
select_step c (has s) = c
select_step c refused = c

-- The next access of the client's thread.
unfoldable pub free_step : Shared → Freeing → Shared
free_step c (holds w) = record c { freeing = merging w c.available }
free_step c (merging w copy) = record c {
  available = or_bits copy (bits_of width w);
  freeing = freed;
}
free_step c freed = c

-- Which thread comes next.
pub data Turn : Type 0 where
  registry client : Turn

unfoldable pub run : List Turn → Shared → Shared
unfolding select_step free_step
run [] c = c
run (registry ∷ turns) c = run turns (select_step c c.selecting)
run (client ∷ turns) c = run turns (free_step c c.freeing)

abbrev pub starts : Bits → ℕ → Shared
starts old w = record { available = old; selecting = ready; freeing = holds w }

abbrev pub selects : Bits → ℕ → Shared
selects new s = record { available = new; selecting = has s; freeing = freed }
