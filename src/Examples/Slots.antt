-- ===== src/Examples/Slots.antt =====
-- Capability slots: liballoc/include/alloc.
use mett_eagle.Base.{ℕ, [], ◌∷◌, arith}
use mett_eagle.CapAlloc.{
  idle, clearing, alloc, release, Slot, advance, SafeCountingCapAlloc, alloc_slot,
}
use mett_eagle.CapAlloc.Counting.{move, Runs, here, later}
use mett_eagle.CapAlloc.Search.{Allocates, alloc_slot-IsAllocated}

-- Two threads, and a free slot.
abbrev fresh : Slot
fresh = record {
  counter = 0;
  threads = record { phase = idle; refs = 0 } ∷ record { phase = idle; refs = 0 } ∷ [];
}

abbrev held_by : ℕ → ℕ → Slot
held_by counter refs = record {
  counter = counter;
  threads = record { phase = idle; refs = refs } ∷ record { phase = idle; refs = 0 } ∷ [];
}

abbrev being_cleared : Slot
being_cleared = record {
  counter = 128;
  threads = record { phase = clearing; refs = 0 } ∷ record { phase = idle; refs = 0 } ∷ [];
}

-- The first thread allocates, and releases in two steps; the second one tries to allocate.
history : Runs fresh being_cleared
unfolding advance
history =
    later
      (later (later (later here (move [] _ _ alloc 0 tt)) (move [] _ _ release 129 tt))
        (move [] _ _ release 129 (ground arith)))
      (move (record { phase = clearing; refs = 0 } ∷ []) [] _ alloc 128 tt)

-- Slot 1 was allocated last; slot 3 is free.
abbrev four_slots : SafeCountingCapAlloc
four_slots = record { items = 129 ∷ 130 ∷ 129 ∷ 0 ∷ []; last = 1; bias = 40 }

alloc_slot-IsAllocated_example : Allocates 4096 four_slots (alloc_slot 4096 four_slots)
alloc_slot-IsAllocated_example = alloc_slot-IsAllocated 4096 (omega arith) four_slots (omega arith)
