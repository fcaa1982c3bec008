-- ===== src/CapAlloc/Slots.antt =====
-- Each slot of the whole allocator runs as it does alone.
use mett_eagle.Base.{
  ℕ, ◌+◌, ◌≡◌, refl, ap, sym, ◌∙◌, subst, true, List, [], ◌∷◌, ◌++◌, map, arith, ◌==◌,
  if◌then◌else◌, ◌⊎◌, inl, inr, Bool-cases, ==_iff,
}
use mathlib.Core.List.{map-append}
use mett_eagle.CapAlloc.{
  Phase, idle, clearing, taking, releasing, freeing, Call, alloc, take, release, free, Thread, Slot,
  advance,
}
use mett_eagle.CapAlloc.Counting.{Respects, Step, move, Runs, here, later, total}
use mett_eagle.CapAlloc.Table
use mett_eagle.CapAlloc.Table.{
  Doing, rests, seeking, recording, working, User, Memory, Table, act, on_slot, try_slot,
  start_call, set_item, going_on, held, Behaves,
}

-- What a thread does to slot `k`.
abbrev pub phase_at : ℕ → Doing → Phase
phase_at k rests = idle
phase_at k (seeking start i) = idle
phase_at k (recording i) = idle
phase_at k (working c phase) = if k == c then phase else idle

abbrev pub thread_at : ℕ → User → Thread
thread_at k u = record { phase = phase_at k u.doing; refs = u.refs k }

-- Slot `k` and its threads.
abbrev pub slot_at : ℕ → Table → Slot
slot_at k t = record { counter = t.memory.items k; threads = map (thread_at k) t.users }

-- A step of the table is a step of slot `k`, or leaves it alone.
abbrev pub Follows : ℕ → (ℕ → ℕ) → Memory → User → Memory × User → Type 0
Follows k others m u (m', u') =
    ((call : Call) × Respects (others k) (thread_at k u)
      × ((m'.items k, thread_at k u') ≡ advance call (m.items k) (thread_at k u)))
    ⊎ ((m'.items k ≡ m.items k) × (thread_at k u' ≡ thread_at k u))

phase_at-going_on :
    (k c : ℕ) (phase : Phase) → phase_at k (going_on c phase) ≡ (if k == c then phase else idle)
phase_at-going_on k c idle = ground arith
phase_at-going_on k c clearing = refl
phase_at-going_on k c (taking v) = refl
phase_at-going_on k c (releasing v) = refl
phase_at-going_on k c (freeing v) = refl

module _ (others : ℕ → ℕ) (call : Call) (c : ℕ) (phase : Phase) (m : Memory) (u : User)
    (there : (j : ℕ) → phase_at j u.doing ≡ (if j == c then phase else idle))
    (h : Respects (others c) (record { phase = phase; refs = u.refs c })) where
  self : (c == c) ≡ true
  self = (==_iff c c).1 refl

  phase_there : phase_at c u.doing ≡ phase
  phase_there = there c ∙ rw self refl

  on_slot_self : Follows c others m u (on_slot call c phase m u)
  unfolding on_slot
  on_slot_self = inl (
    call,
    rw phase_there h,
    rw
        (
          self,
          phase_at-going_on c c
              (advance call (m.items c) (record { phase = phase; refs = u.refs c })).1.phase,
          phase_there,
          self,
        )
        refl,
  )

  -- An access to slot `c` is a step there, and leaves the others alone.
  on_slot-Follows : (k : ℕ) → Follows k others m u (on_slot call c phase m u)
  unfolding on_slot
  on_slot-Follows k = elim (Bool-cases (k == c)) [
    | inl same ↦
        subst (λ j. Follows j others m u (on_slot call c phase m u)) (sym ((==_iff k c).0 same))
          on_slot_self
    | inr other ↦ inr (
      rw other refl,
      rw
          (
            other,
            phase_at-going_on k c
                (advance call (m.items c) (record { phase = phase; refs = u.refs c })).1.phase,
            there k,
            other,
          )
          refl,
    )
  ]

-- The exchange of `alloc` is the step of a thread that rests.
try_slot-Follows :
    (k : ℕ) (others : ℕ → ℕ) (capacity start i : ℕ) (m : Memory) (u : User)
    → ((j : ℕ) → phase_at j u.doing ≡ idle)
    → Follows k others m u (try_slot capacity start i m u)
unfolding try_slot advance
try_slot-Follows k others capacity start i m u away = elim (Bool-cases (k == i)) [
  | inl same ↦ inl (alloc, rw (away k) tt, ground (arith, away k))
  | inr other ↦ inr (rw other refl, ground (arith, away k))
]

act_by_doing :
    (capacity k : ℕ) (others : ℕ → ℕ) (call : Call) (c : ℕ) (m : Memory) (refs : ℕ → ℕ)
    (doing : Doing)
    → Behaves others (record { doing = doing; refs = refs })
    → Follows k others m
        (record { doing = doing; refs = refs })
        (act capacity call c m (record { doing = doing; refs = refs }))
unfolding act
act_by_doing capacity k others alloc c m refs rests h = inr (refl, refl)
act_by_doing capacity k others take c m refs rests h =
    on_slot-Follows others take c idle m (record { doing = rests; refs = refs }) (λ j. ground arith)
      tt k
act_by_doing capacity k others release c m refs rests h =
    on_slot-Follows others release c idle m (record { doing = rests; refs = refs })
      (λ j. ground arith) tt k
act_by_doing capacity k others free c m refs rests h =
    on_slot-Follows others free c idle m (record { doing = rests; refs = refs }) (λ j. ground arith)
      tt k
act_by_doing capacity k others call c m refs (recording i) h = inr (refl, refl)
act_by_doing capacity k others call c m refs (working i phase) h =
    on_slot-Follows others call i phase m (record { doing = working i phase; refs = refs })
      (λ j. refl) h k
act_by_doing capacity k others call c m refs (seeking start i) h = elim (Bool-cases (i == start)) [
  | inl same ↦ rw same (inr (refl, refl))
  | inr other ↦ rw other (
      try_slot-Follows k others capacity start i m (record { doing = seeking start i; refs = refs })
        (λ j. refl))
]

pub total_at : (k : ℕ) (us : List User) → total (map (thread_at k) us) ≡ held k us
total_at k [] = refl
total_at k (u ∷ us) = ap (λ n. u.refs k + n) (total_at k us)

-- A step of the table, as seen at one slot.
Runs-slot_at :
    (before after : List Thread) (t t' : Thread) (counter counter' : ℕ) (others : ℕ)
    → others ≡ total before + total after
    → ((call : Call) × Respects others t × ((counter', t') ≡ advance call counter t))
      ⊎ ((counter' ≡ counter) × (t' ≡ t))
    → {s : Slot} → Runs s (record { counter = counter; threads = before ++ t ∷ after })
    → Runs s (record { counter = counter'; threads = before ++ t' ∷ after })
Runs-slot_at before after t t' counter counter' others e (inl (call, h, step)) r = later r (
    subst
      (λ (p : ℕ × Thread).
        Step (record { counter = counter; threads = before ++ t ∷ after })
          (record { counter = p.0; threads = before ++ p.1 ∷ after }))
      (sym step) (move before after t call counter (subst (λ n. Respects n t) e h)))
Runs-slot_at before after t t' counter counter' others e (inr (same, still)) r = rw (same, still) r

-- The table refines its slots: what happens to slot `k` in a run of the whole allocator is a run of that
-- slot alone.
pub slot-Runs :
    (capacity k : ℕ) {s t : Table} → Table.Reach capacity s t → Runs (slot_at k s) (slot_at k t)
slot-Runs capacity k Table.here = here
slot-Runs capacity k (Table.later p (Table.move before after u call c m h)) =
    let seen = slot-Runs capacity k p in
    rw (map-append) (
      Runs-slot_at (map (thread_at k) before) (map (thread_at k) after) (thread_at k u)
        (thread_at k (act capacity call c m u).1) (m.items k) ((act capacity call c m u).0.items k)
        (held k before + held k after) (omega (arith, total_at k before, total_at k after))
        (act_by_doing capacity k (λ j. held j before + held j after) call c m u.refs u.doing h)
        (rw map-append at seen))
