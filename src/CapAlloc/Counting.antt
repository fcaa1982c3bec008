-- ===== src/CapAlloc/Counting.antt =====
-- The counter of a slot under all interleavings of threads that respect the references.
use mett_eagle.Base.{ℕ, ◌+◌, ◌≤◌, ◌<◌, ◌≡◌, ◌⊎◌, List, [], ◌∷◌, ◌++◌, arith}
use mett_eagle.CapAlloc.{
  f_used, Phase, idle, clearing, taking, releasing, freeing, Call, alloc, take, release, free,
  Thread, Slot, advance,
}

abbrev pub total : List Thread → ℕ
total [] = 0
total (t ∷ ts) = t.refs + total ts

abbrev pub is_clearing : Phase → ℕ
is_clearing clearing = 1
is_clearing idle = 0
is_clearing (taking v) = 0
is_clearing (releasing v) = 0
is_clearing (freeing v) = 0

-- The threads that are about to make the slot available.
abbrev pub clearings : List Thread → ℕ
clearings [] = 0
clearings (t ∷ ts) = is_clearing t.phase + clearings ts

-- What a thread may do while `others` references are held by other threads: only a holder takes
-- another reference, of 127 at most, or releases one, and only a sole holder frees the slot.
abbrev pub Respects : ℕ → Thread → Type 0
Respects others t = elim t.phase [
  | idle ↦ Unit
  | clearing ↦ Unit
  | taking v ↦ (0 < t.refs) × (t.refs + others < 127)
  | releasing v ↦ 0 < t.refs
  | freeing v ↦ (0 < t.refs) × (others ≡ 0)
]

-- One step of one thread, whichever it is.
pub data Step : Slot → Slot → Type 0 where
  move :
      (before after : List Thread) (t : Thread) (call : Call) (counter : ℕ)
      → Respects (total before + total after) t
      → Step
          (record { counter = counter; threads = before ++ t ∷ after })
          (record {
            counter = (advance call counter t).0;
            threads = before ++ (advance call counter t).1 ∷ after;
          })

pub data Runs (s : Slot) : Slot → Type 0 where
  here : Runs s s
  later : {t u : Slot} → Runs s t → Step t u → Runs s u

-- By the counter, the references held and the threads that clear.
abbrev Agrees : ℕ → ℕ → ℕ → Type 0
Agrees counter held clearers =
    ((counter ≡ 0) × (held ≡ 0) × (clearers ≡ 0))
    ⊎ (((counter ≡ f_used) × (held ≡ 0) × (clearers ≡ 1))
        ⊎ ((counter ≡ f_used + held) × (0 < held) × (held ≤ 127) × (clearers ≡ 0)))

-- The slot is free, or exactly one thread clears it and nobody holds it, or the counter is F_USED
-- and the references that the threads hold.
abbrev pub IsCounted : Slot → Type 0
IsCounted s = Agrees s.counter (total s.threads) (clearings s.threads)

total-append : (xs ys : List Thread) → total (xs ++ ys) ≡ total xs + total ys
total-append [] ys = omega arith
total-append (x ∷ xs) ys = omega (arith, total-append xs ys)

clearings-append : (xs ys : List Thread) → clearings (xs ++ ys) ≡ clearings xs + clearings ys
clearings-append [] ys = omega arith
clearings-append (x ∷ xs) ys = omega (arith, clearings-append xs ys)

abbrev thread : Phase → ℕ → Thread
thread phase refs = record { phase = phase; refs = refs }

advance-Agrees :
    (call : Call) (counter others clearers : ℕ) (phase : Phase) (refs : ℕ)
    → Respects others (thread phase refs)
    → Agrees counter (refs + others) (is_clearing phase + clearers)
    → let (counter', t) = advance call counter (thread phase refs) in
      Agrees counter' (t.refs + others) (is_clearing t.phase + clearers)
unfolding advance
advance-Agrees alloc counter others clearers idle r h a = ground arith
advance-Agrees take counter others clearers idle r h a = ground arith
advance-Agrees release counter others clearers idle r h a = ground arith
advance-Agrees free counter others clearers idle r h a = ground arith
advance-Agrees call counter others clearers clearing r h a = ground arith
advance-Agrees call counter others clearers (taking v) r h a = ground arith
advance-Agrees call counter others clearers (releasing v) r h a = ground arith
advance-Agrees call counter others clearers (freeing v) r h a = ground arith

regroup :
    (counter : ℕ) (before after : List Thread) (t : Thread)
    → (Agrees counter (total (before ++ t ∷ after)) (clearings (before ++ t ∷ after))
        → Agrees counter
            (t.refs + (total before + total after))
            (is_clearing t.phase + (clearings before + clearings after)))
      × (Agrees counter
            (t.refs + (total before + total after))
            (is_clearing t.phase + (clearings before + clearings after))
          → Agrees counter (total (before ++ t ∷ after)) (clearings (before ++ t ∷ after)))
regroup counter before after t = (
  λ a. ground (arith, total-append before (t ∷ after), clearings-append before (t ∷ after)),
  λ a. ground (arith, total-append before (t ∷ after), clearings-append before (t ∷ after)),
)

-- From a slot where this holds, a free one for instance, and however the steps of the threads
-- interleave, as long as each respects the references: the counter is 0 with nobody holding the
-- slot, or F_USED while exactly one thread clears it, or F_USED and the number of references held;
-- so a slot that `alloc` can take is held by nobody and being cleared by nobody.
pub Runs-IsCounted : {s t : Slot} → IsCounted s → Runs s t → IsCounted t
Runs-IsCounted a here = a
Runs-IsCounted a (later p (move before after t call counter h)) =
    (regroup (advance call counter t).0 before after (advance call counter t).1).1 (
      advance-Agrees call counter (total before + total after) (clearings before + clearings after)
        t.phase t.refs h ((regroup counter before after t).0 (Runs-IsCounted a p)))
