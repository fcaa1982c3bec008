-- ===== src/CapAlloc/Exclusive.antt =====
-- What `alloc` hands out among threads that use the whole allocator.
use mett_eagle.Base.{ℕ, ◌+◌, ◌≡◌, ◌≢◌, refl, List, [], ◌∷◌, ◌++◌, map, arith}
use mett_eagle.CapAlloc.{f_used, Call, advance}
use mett_eagle.CapAlloc.Counting.{clearings, is_clearing, IsCounted, Runs-IsCounted}
use mett_eagle.CapAlloc.Table
use mett_eagle.CapAlloc.Table.{Doing, seeking, recording, User, Memory, Table, act, try_slot, held}
use mett_eagle.CapAlloc.Slots.{phase_at, thread_at, slot_at, slot-Runs, total_at}

-- The threads that are about to make slot `k` available.
abbrev pub clearers : ℕ → List User → ℕ
clearers k [] = 0
clearers k (u ∷ us) = is_clearing (phase_at k u.doing) + clearers k us

clearings_at : (k : ℕ) (us : List User) → clearings (map (thread_at k) us) ≡ clearers k us
clearings_at k [] = refl
clearings_at k (u ∷ us) = omega (arith, clearings_at k us)

held-append : (k : ℕ) (xs ys : List User) → held k (xs ++ ys) ≡ held k xs + held k ys
held-append k [] ys = omega arith
held-append k (x ∷ xs) ys = omega (arith, held-append k xs ys)

clearers-append :
    (k : ℕ) (xs ys : List User) → clearers k (xs ++ ys) ≡ clearers k xs + clearers k ys
clearers-append k [] ys = omega arith
clearers-append k (x ∷ xs) ys = omega (arith, clearers-append k xs ys)

module _ (capacity : ℕ) {s : Table} (fresh : (k : ℕ) → IsCounted (slot_at k s)) where
  -- However the steps of the threads interleave on all slots, as long as each respects the references:
  -- from a table in which this holds, each slot has counter 0 and nobody holds it, or F_USED while
  -- exactly one thread clears it, or F_USED and the number of references held.
  pub Reach-IsCounted : {t : Table} → Table.Reach capacity s t → (k : ℕ) → IsCounted (slot_at k t)
  Reach-IsCounted p k = Runs-IsCounted (fresh k) (slot-Runs capacity k p)

  -- An `alloc` whose loop meets a counter of 0 is the only one that gets the slot: nobody else holds a
  -- reference to it and nobody is clearing it, and behind the exchange the counter is F_USED and one, which
  -- is the reference of the caller.
  pub alloc_exclusive :
      (before after : List User) (u : User) (m : Memory) (call : Call) (c start i : ℕ)
      → Table.Reach capacity s (record { memory = m; users = before ++ u ∷ after })
      → u.doing ≡ seeking start i
      → i ≢ start
      → m.items i ≡ 0
      → ((act capacity call c m u).1.doing ≡ recording i)
        × ((act capacity call c m u).0.items i ≡ f_used + 1)
        × ((act capacity call c m u).1.refs i ≡ 1)
        × (held i before + held i after ≡ 0)
        × (clearers i before + clearers i after ≡ 0)
  unfolding act try_slot advance
  alloc_exclusive before after u m call c start i p seeks ne free =
      let counted = Reach-IsCounted p i in
      let none_held : held i (before ++ u ∷ after) ≡ 0 =
        omega (arith, total_at i (before ++ u ∷ after)) in
      let none_clears : clearers i (before ++ u ∷ after) ≡ 0 =
        omega (arith, clearings_at i (before ++ u ∷ after)) in
      let own : u.refs i ≡ 0 = omega (arith, held-append i before (u ∷ after)) in
      (
        rw seeks (ground arith),
        rw seeks (ground arith),
        rw seeks (ground (arith, own)),
        omega (arith, held-append i before (u ∷ after)),
        omega (arith, clearers-append i before (u ∷ after)),
      )
