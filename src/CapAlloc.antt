-- ===== src/CapAlloc.antt =====
-- liballoc/include/alloc: the reference-counting allocator of capability slots, with counters of one
-- byte. What a thread does to one counter goes step by step, between which other threads run.
pub mod Counting
pub mod Overlap
pub mod Search
pub mod Table
pub mod Slots
pub mod Exclusive
pub mod WaitFree
use mett_eagle.Base.{
  ℕ, ◌-◌, ◌*◌, ◌%◌, ◌^◌, Bool, true, false, List, [], ◌∷◌, ◌++◌, Option, none, some, leb, ltb,
  length, get_or, zero, suc, ◌/◌, ◌+◌, ◌==◌, if◌then◌else◌,
}

-- F_USED, the top bit of a counter.
abbrev pub f_used : ℕ
f_used = 128

-- The values of COUNTER_TYPE.
abbrev pub modulus : ℕ
modulus = 256

-- `value & F_USED`, and `value & ~F_USED`.
abbrev pub is_used : ℕ → Bool
is_used value = leb f_used value

abbrev pub count_of : ℕ → ℕ
count_of value = value % f_used

-- `(current_value | F_USED) + 1`, cut to the counter's type.
pub taken : ℕ → ℕ
taken value = ((if is_used value then value else value + f_used) + 1) % modulus

-- The guard of `free` and `release`: not in use, or another thread frees the slot.
pub is_over : ℕ → Bool
is_over value = if is_used value then count_of value == 0 else true

-- Where a thread stands: outside; in the loop of `take`, `release` or `free` with the value that it
-- has read; or after it has brought the count to 0 and before it stores 0.
pub data Phase : Type 0 where
  idle clearing : Phase
  taking releasing freeing : ℕ → Phase

-- A call of the allocator on the slot.
pub data Call : Type 0 where
  alloc take release free : Call

-- A thread, and the references that it holds.
pub record Thread : Type 0 where
  pub phase : Phase
  pub refs : ℕ

release_with : ℕ → Thread → Thread
unfolding is_over
release_with value t = record t { phase = if is_over value then idle else releasing value }

free_with : ℕ → Thread → Thread
unfolding is_over
free_with value t = record t { phase = if is_over value then idle else freeing value }

-- A call begins: `alloc` exchanges at once, the others read the counter.
begin_call : Call → ℕ → Thread → ℕ × Thread
unfolding release_with free_with
begin_call alloc counter t =
    if counter == 0 then (f_used + 1, record t { refs = t.refs + 1 }) else (counter, t)
begin_call take counter t = (counter, record t { phase = taking counter })
begin_call release counter t = (counter, release_with counter t)
begin_call free counter t = (counter, free_with counter t)

-- The exchange from 1 to 0 makes the thread clear the slot.
released : ℕ → Thread → ℕ × Thread
released value t = (
  value - 1,
  record { phase = if count_of value == 1 then clearing else idle; refs = t.refs - 1 },
)

-- The next step of a thread on the counter; a failed exchange reads the counter again. The call
-- matters to an idle thread only.
unfoldable pub advance : Call → ℕ → Thread → ℕ × Thread
unfolding begin_call release_with free_with released taken is_over
advance call counter t = elim t.phase [
  | idle ↦ begin_call call counter t
  | clearing ↦ (0, record t { phase = idle })
  | taking value ↦
      if counter == value
      then (taken value, record { phase = idle; refs = t.refs + 1 })
      else (counter, record t { phase = taking counter })
  | releasing value ↦
      if counter == value then released value t else (counter, release_with counter t)
  | freeing value ↦
      if counter == value
      then (f_used, record { phase = clearing; refs = 0 })
      else (counter, free_with counter t)
]

-- The counter of a slot, and the threads that use it.
pub record Slot : Type 0 where
  pub counter : ℕ
  pub threads : List Thread

-- A counter; an index behind the last one is never asked for.
store : List ℕ → ℕ → ℕ → List ℕ
store [] i value = []
store (x ∷ xs) zero value = value ∷ xs
store (x ∷ xs) (suc i) value = x ∷ store xs i value

-- The allocator: its counters, the slot allocated last, and its first capability.
pub record SafeCountingCapAlloc : Type 0 where
  pub items : List ℕ
  pub last : ℕ
  pub bias : ℕ

-- The loop of `alloc`, when no other thread runs, from the slot `i`. The outer `none` is a loop that
-- runs out of fuel.
pub search : ℕ → List ℕ → ℕ → ℕ → Option (Option ℕ)
search zero items start i = none
search (suc fuel) items start i =
    let later = search fuel items start ((i + 1) % length items) in
    if i == start then some none else if get_or items i f_used == 0 then some (some i) else later

-- The successful exchange: the slot is in use with one reference, and its capability is returned.
-- `cap_size` is `1 << L4_CAP_SHIFT`.
acquire : ℕ → SafeCountingCapAlloc → Option ℕ → SafeCountingCapAlloc × Option ℕ
unfolding store
acquire cap_size a none = (a, none)
acquire cap_size a (some i) =
    (record a { items = store a.items i (f_used + 1); last = i }, some ((i + a.bias) * cap_size))

-- `alloc`. It visits every slot once at most, so as much fuel as there are slots is enough.
pub alloc_slot : ℕ → SafeCountingCapAlloc → Option (SafeCountingCapAlloc × Option ℕ)
unfolding search acquire
alloc_slot cap_size a =
    elim (search (length a.items) a.items a.last ((a.last + 1) % length a.items)) [
      | none ↦ none
      | some found ↦ some (acquire cap_size a found)
    ]

-- `range_check_and_get_idx`: the index of a capability of this allocator.
pub range_check_and_get_idx : ℕ → SafeCountingCapAlloc → ℕ → Option ℕ
range_check_and_get_idx cap_size a cap =
    let c = cap / cap_size in
    if ltb c a.bias
    then none
    else if ltb (c - a.bias) (length a.items)
    then some (c - a.bias)
    else none
