-- ===== src/CapAlloc/Table.antt =====
-- liballoc/include/alloc: all slots together. The threads run `alloc`, `take`, `release` and `free` on any
-- slots, and each atomic access to a counter or to `_last` is one step.
use mett_eagle.Base.{ℕ, ◌+◌, ◌%◌, List, [], ◌∷◌, ◌++◌, ◌==◌, if◌then◌else◌}
use mett_eagle.CapAlloc.{
  Phase, idle, clearing, taking, releasing, freeing, Call, alloc, take, release, free, advance,
}
use mett_eagle.CapAlloc.Counting.{Respects}

-- What a thread is doing: nothing; the loop of `alloc`, with `start_end` and the slot that it looks at;
-- the store to `_last`; or a call on a slot.
pub data Doing : Type 0 where
  rests : Doing
  seeking : ℕ → ℕ → Doing
  recording : ℕ → Doing
  working : ℕ → Phase → Doing

-- A thread, and the references that it holds on each slot.
pub record User : Type 0 where
  pub doing : Doing
  pub refs : ℕ → ℕ

-- `_items` and `_last`.
pub record Memory : Type 0 where
  pub items : ℕ → ℕ
  pub last : ℕ

abbrev pub set_item : (ℕ → ℕ) → ℕ → ℕ → ℕ → ℕ
set_item f i value k = if k == i then value else f k

-- A call that goes on, or is over.
abbrev pub going_on : ℕ → Phase → Doing
going_on k idle = rests
going_on k clearing = working k clearing
going_on k (taking v) = working k (taking v)
going_on k (releasing v) = working k (releasing v)
going_on k (freeing v) = working k (freeing v)

-- One access of a call on slot `k`.
unfoldable pub on_slot : Call → ℕ → Phase → Memory → User → Memory × User
on_slot call k phase m u =
    let (value, t) = advance call (m.items k) (record { phase = phase; refs = u.refs k }) in
    (
      record m { items = set_item m.items k value },
      record { doing = going_on k t.phase; refs = set_item u.refs k t.refs },
    )

-- The exchange in the loop of `alloc`.
unfoldable pub try_slot : ℕ → ℕ → ℕ → Memory → User → Memory × User
try_slot capacity start i m u =
    let (value, t) = advance alloc (m.items i) (record { phase = idle; refs = u.refs i }) in
    (
      record m { items = set_item m.items i value },
      record {
        doing = if m.items i == 0 then recording i else seeking start ((i + 1) % capacity);
        refs = set_item u.refs i t.refs;
      },
    )

-- A call begins: `alloc` reads `_last`, the others read the counter of slot `c`.
unfoldable pub start_call : ℕ → Call → ℕ → Memory → User → Memory × User
start_call capacity alloc c m u = (m, record u { doing = seeking m.last ((m.last + 1) % capacity) })
start_call capacity take c m u = on_slot take c idle m u
start_call capacity release c m u = on_slot release c idle m u
start_call capacity free c m u = on_slot free c idle m u

-- The next step of a thread; the call and its slot matter to a thread that rests.
unfoldable pub act : ℕ → Call → ℕ → Memory → User → Memory × User
unfolding start_call try_slot on_slot
act capacity call c m u = elim u.doing [
  | rests ↦ start_call capacity call c m u
  | seeking start i ↦
      if i == start then (m, record u { doing = rests }) else try_slot capacity start i m u
  | recording i ↦ (record m { last = i }, record u { doing = rests })
  | working k phase ↦ on_slot call k phase m u
]

-- The references on slot `k`.
abbrev pub held : ℕ → List User → ℕ
held k [] = 0
held k (u ∷ us) = u.refs k + held k us

-- The calls on a slot respect its references.
abbrev pub Behaves : (ℕ → ℕ) → User → Type 0
Behaves others u = elim u.doing [
  | rests ↦ Unit {0}
  | seeking start i ↦ Unit {0}
  | recording i ↦ Unit {0}
  | working k phase ↦ Respects (others k) (record { phase = phase; refs = u.refs k })
]

pub record Table : Type 0 where
  pub memory : Memory
  pub users : List User

-- One step of one thread, whichever it is.
pub data Step (capacity : ℕ) : Table → Table → Type 0 where
  move :
      (before after : List User) (u : User) (call : Call) (c : ℕ) (m : Memory)
      → Behaves (λ k. held k before + held k after) u
      → Step capacity
          (record { memory = m; users = before ++ u ∷ after })
          (record {
            memory = (act capacity call c m u).0;
            users = before ++ (act capacity call c m u).1 ∷ after;
          })

pub data Reach (capacity : ℕ) (s : Table) : Table → Type 0 where
  here : Reach capacity s s
  later : {t u : Table} → Reach capacity s t → Step capacity t u → Reach capacity s u
