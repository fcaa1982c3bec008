-- ===== src/Examples/Tables.antt =====
-- Two threads at an allocator of four slots: liballoc/include/alloc.
use mett_eagle.Base.{ℕ, zero, suc, ◌+◌, ◌≡◌, refl, inl, [], ◌∷◌, arith}
use mett_eagle.CapAlloc.{alloc, f_used, advance}
use mett_eagle.CapAlloc.Counting.{IsCounted}
use mett_eagle.CapAlloc.Table
use mett_eagle.CapAlloc.Table.{
  rests, seeking, recording, User, Memory, Table, act, start_call, try_slot, set_item, held,
}
use mett_eagle.CapAlloc.Slots.{slot_at}
use mett_eagle.CapAlloc.Exclusive.{clearers, Reach-IsCounted, alloc_exclusive}
use mett_eagle.CapAlloc.WaitFree.{AllocEnds, alloc_ends}

abbrev nothing : ℕ → ℕ
nothing k = 0

abbrev all_free : Memory
all_free = record { items = nothing; last = 0 }

abbrev resting : User
resting = record { doing = rests; refs = nothing }

abbrev fresh : Table
fresh = record { memory = all_free; users = resting ∷ resting ∷ [] }

-- Both threads have begun `alloc` at slot 1; the first one got it, and the second one has gone on.
abbrev one_taken : Memory
one_taken = record { items = set_item (set_item nothing 1 129) 1 129; last = 0 }

abbrev winner : User
winner = record { doing = recording 1; refs = set_item nothing 1 1 }

abbrev loser : User
loser = record { doing = seeking 0 2; refs = set_item nothing 1 0 }

abbrev contended : Table
contended = record { memory = one_taken; users = winner ∷ loser ∷ [] }

abbrev at_one : User
at_one = record { doing = seeking 0 1; refs = nothing }

history : Table.Reach 4 fresh contended
unfolding act start_call try_slot advance
history =
    Table.later
      (Table.later
        (Table.later
          (Table.later Table.here (Table.move [] (resting ∷ []) resting alloc 0 all_free tt))
          (Table.move (at_one ∷ []) [] resting alloc 0 all_free tt))
        (Table.move [] (at_one ∷ []) at_one alloc 0 all_free tt))
      (Table.move (winner ∷ []) [] at_one alloc 0
        (record { items = set_item nothing 1 129; last = 0 }) tt)

fresh-IsCounted : (k : ℕ) → IsCounted (slot_at k fresh)
fresh-IsCounted k = inl (refl, refl, refl)

Reach-IsCounted_example : IsCounted (slot_at 1 contended)
Reach-IsCounted_example = Reach-IsCounted 4 fresh-IsCounted history 1

alloc_exclusive_example :
    ((act 4 alloc 0 one_taken loser).1.doing ≡ recording 2)
    × ((act 4 alloc 0 one_taken loser).0.items 2 ≡ f_used + 1)
    × ((act 4 alloc 0 one_taken loser).1.refs 2 ≡ 1)
    × (held 2 (winner ∷ []) + held 2 [] ≡ 0)
    × (clearers 2 (winner ∷ []) + clearers 2 [] ≡ 0)
alloc_exclusive_example =
    alloc_exclusive 4 fresh-IsCounted (winner ∷ []) [] loser one_taken alloc 0 0 2 history refl
      (λ h. ground arith) refl

-- Others take slots 1 and 2 before the thread looks at them.
abbrev views : ℕ → Memory
views zero = all_free
views (suc t) = record { items = set_item (set_item nothing 1 129) 2 129; last = 2 }

alloc_ends_example : AllocEnds 4 views 0 nothing
alloc_ends_example = alloc_ends 4 views 0 nothing (omega arith)
