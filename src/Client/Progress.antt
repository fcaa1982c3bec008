-- ===== src/Client/Progress.antt =====
-- That the start of the clients goes on.
use mett_eagle.Base.{
  ℕ, ◌+◌, ◌≡◌, ◌≢◌, refl, ap, subst, sym, ◌⊎◌, inl, inr, List, [], ◌∷◌, ◌++◌, arith,
}
use native.Mathlib.Decide.{dec_lt}
use mett_eagle.Client.{
  Phase, registering, failed, waiting, measuring, Clients, no_clients, created, Step, creates,
  registers, passes, Reach,
}
use mett_eagle.Client.Start.{
  is_registering, is_failed, is_measuring, tally, failed_count, measuring_count, IsInStep,
  reach-IsInStep,
}

-- A thread in a phase that the tally counts.
abbrev Found : (Phase → ℕ) → List Phase → Type 0
Found is ps =
    (before : List Phase) × (p : Phase) × (after : List Phase) × (ps ≡ before ++ p ∷ after)
    × (is p ≢ 0)

find : (is : Phase → ℕ) (ps : List Phase) → tally is ps ≢ 0 → Found is ps
find is [] h = absurd (h refl)
find is (p ∷ ps) h = elim (dec_lt 0 (is p)) [
  | yes found ↦ ([], p, ps, refl, ground arith)
  | no none ↦
      let (before, q, after, e, f) = find is ps (ground arith) in
      (p ∷ before, q, after, ap (λ rest. p ∷ rest) e, f)
]

abbrev is_waiting : Phase → ℕ
is_waiting registering = 0
is_waiting failed = 0
is_waiting waiting = 1
is_waiting measuring = 0

all_phases :
    (ps : List Phase)
    → tally is_registering ps + tally is_failed ps + tally is_waiting ps + tally is_measuring ps
      ≡ created ps
all_phases [] = refl
all_phases (registering ∷ ps) = omega (arith, all_phases ps)
all_phases (failed ∷ ps) = omega (arith, all_phases ps)
all_phases (waiting ∷ ps) = omega (arith, all_phases ps)
all_phases (measuring ∷ ps) = omega (arith, all_phases ps)

find_registering :
    (ps : List Phase)
    → tally is_registering ps ≢ 0
    → (before after : List Phase) × (ps ≡ before ++ registering ∷ after)
find_registering ps h = only (find is_registering ps h)
  where
    only :
        Found is_registering ps → (before after : List Phase) × (ps ≡ before ++ registering ∷ after)
    only (before, registering, after, e, f) = (before, after, e)
    only (before, failed, after, e, f) = absurd (f refl)
    only (before, waiting, after, e, f) = absurd (f refl)
    only (before, measuring, after, e, f) = absurd (f refl)

find_waiting :
    (ps : List Phase)
    → tally is_waiting ps ≢ 0
    → (before after : List Phase) × (ps ≡ before ++ waiting ∷ after)
find_waiting ps h = only (find is_waiting ps h)
  where
    only : Found is_waiting ps → (before after : List Phase) × (ps ≡ before ++ waiting ∷ after)
    only (before, waiting, after, e, f) = (before, after, e)
    only (before, failed, after, e, f) = absurd (f refl)
    only (before, registering, after, e, f) = absurd (f refl)
    only (before, measuring, after, e, f) = absurd (f refl)

abbrev CanStep : ℕ → ℕ → List Phase → Type 0
CanStep thread_num count threads =
    (d : Clients) × Step thread_num (record { waiting_count = count; threads = threads }) d

goes_on :
    (thread_num count : ℕ) (threads : List Phase)
    → IsInStep thread_num (record { waiting_count = count; threads = threads })
    → tally is_failed threads ≡ 0
    → (tally is_measuring threads ≡ thread_num) ⊎ CanStep thread_num count threads
goes_on thread_num count threads v none_failed = elim (dec_lt 0 (tally is_registering threads)) [
  | yes some_registering ↦
      let (before, after, e) = find_registering threads (ground arith) in
      inr (subst (CanStep thread_num count) (sym e) (_, registers count before after))
  | no none_registering ↦ elim (dec_lt (created threads) thread_num) [
    | yes more ↦ inr (_, creates count threads more (omega (arith, v.counted)))
    | no all ↦ elim (dec_lt 0 (tally is_waiting threads)) [
      | yes some_waiting ↦
          let (before, after, e) = find_waiting threads (ground arith) in
          inr (
            subst (CanStep thread_num count) (sym e)
              (_, passes count before after (omega (arith, v.counted, v.bounded))))
      | no none_waiting ↦ inl (omega (arith, all_phases threads, v.bounded))
    ]
  ]
]

-- From the start of `main`, as long as no registration has failed, a step is possible until all
-- clients measure.
start_goes_on :
    (thread_num : ℕ) (c : Clients)
    → Reach thread_num no_clients c
    → failed_count c ≡ 0
    → (measuring_count c ≡ thread_num) ⊎ ((d : Clients) × Step thread_num c d)
start_goes_on thread_num c p none_failed =
    goes_on thread_num c.waiting_count c.threads (reach-IsInStep thread_num c p) none_failed
