-- ===== src/Client/Wakeup/Awake.antt =====
-- No wake-up is lost while the clients start.
use mett_eagle.Base.{
  ℕ, ◌+◌, ◌≤◌, ◌≡◌, ◌≢◌, refl, ap, sym, subst, ◌⊎◌, inl, inr, List, [], ◌∷◌, ◌++◌, arith,
}
use native.Mathlib.Decide.{dec_lt}
use mett_eagle.Client.Wakeup.{
  Stage, registering, failed, asleep, woken, passed, measuring, Main, tests, sleeps, creates,
  Threads, no_threads, created, asleep_count, Notified, nobody, somebody, Step, main_goes_on,
  main_falls_asleep, main_creates, registers, registers_last, goes_on, falls_asleep, notifies,
  Reach,
}
use mett_eagle.Client.Wakeup.Counts.{
  Share, share, tally, asleep_count-tally, registering_count, failed_count, awake_count,
  measuring_count,
}
use mett_eagle.Client.Wakeup.Orderly.{IsAwake, reach-IsAwake}

-- A client at a stage that has a share in the tally.
abbrev Found : (Share → ℕ) → List Stage → Type 0
Found of ps =
    (before : List Stage) × (p : Stage) × (after : List Stage) × (ps ≡ before ++ p ∷ after)
    × (1 ≤ of (share p))

find : (of : Share → ℕ) (ps : List Stage) → 1 ≤ tally of ps → Found of ps
find of [] h = absurd (omega arith)
find of (p ∷ ps) h = elim (dec_lt 0 (of (share p))) [
  | yes found ↦ ([], p, ps, refl, omega arith)
  | no none ↦
      let (before, q, after, e, f) = find of ps (omega arith) in
      (p ∷ before, q, after, ap (λ rest. p ∷ rest) e, f)
]

equal? : (a b : ℕ) → (a ≡ b) ⊎ (a ≢ b)
equal? a b = ground arith

-- Someone can be notified, or nobody sleeps.
notify : (ps : List Stage) → (qs : List Stage) × Notified ps qs
notify ps = elim (equal? (asleep_count ps) 0) [
  | inl none_sleeps ↦ (ps, nobody ps none_sleeps)
  | inr some_sleep ↦ only (find (λ s. s.sleep) ps (omega (arith, asleep_count-tally ps)))
]
  where
    only : Found (λ s. s.sleep) ps → (qs : List Stage) × Notified ps qs
    only (before, registering, after, e, f) = absurd (omega arith)
    only (before, failed, after, e, f) = absurd (omega arith)
    only (before, asleep, after, e, f) = (
      before ++ woken ∷ after,
      subst (λ xs. Notified xs (before ++ woken ∷ after)) (sym e) (somebody before after),
    )
    only (before, woken, after, e, f) = absurd (omega arith)
    only (before, passed, after, e, f) = absurd (omega arith)
    only (before, measuring, after, e, f) = absurd (omega arith)

-- Some step that is no spurious wake-up.
abbrev pub Moves : ℕ → Threads → Type 0
Moves n c = (d : Threads) × Step n c d

module _ (n count : ℕ) (m : Main) where
  abbrev at : List Stage → Threads
  at ps = record { waiting_count = count; clients = ps; main = m }

  register-Moves : (ps : List Stage) → 1 ≤ registering_count ps → Moves n (at ps)
  register-Moves ps h = only (find (λ s. s.register) ps h)
    where
      moves : (before after : List Stage) → Moves n (at (before ++ registering ∷ after))
      moves before after = elim (equal? (count + 1) n) [
        | inl last ↦ (_, registers_last count before after m last)
        | inr other ↦ (_, registers count before after m other)
      ]

      only : Found (λ s. s.register) ps → Moves n (at ps)
      only (before, registering, after, e, f) =
          subst (λ xs. Moves n (at xs)) (sym e) (moves before after)
      only (before, failed, after, e, f) = absurd (omega arith)
      only (before, asleep, after, e, f) = absurd (omega arith)
      only (before, woken, after, e, f) = absurd (omega arith)
      only (before, passed, after, e, f) = absurd (omega arith)
      only (before, measuring, after, e, f) = absurd (omega arith)

  awake-Moves : (ps : List Stage) → 1 ≤ awake_count ps → Moves n (at ps)
  awake-Moves ps h = only (find (λ s. s.awake) ps h)
    where
      looks : (before after : List Stage) → Moves n (at (before ++ woken ∷ after))
      looks before after = elim (equal? count n) [
        | inl all ↦ (_, goes_on count before after m all)
        | inr other ↦ (_, falls_asleep count before after m other)
      ]

      tells : (before after : List Stage) → Moves n (at (before ++ passed ∷ after))
      tells before after =
          let (ps', notified) = notify (before ++ measuring ∷ after) in
          (_, notifies count before after ps' m notified)

      only : Found (λ s. s.awake) ps → Moves n (at ps)
      only (before, registering, after, e, f) = absurd (omega arith)
      only (before, failed, after, e, f) = absurd (omega arith)
      only (before, asleep, after, e, f) = absurd (omega arith)
      only (before, woken, after, e, f) = subst (λ xs. Moves n (at xs)) (sym e) (looks before after)
      only (before, passed, after, e, f) =
          subst (λ xs. Moves n (at xs)) (sym e) (tells before after)
      only (before, measuring, after, e, f) = absurd (omega arith)

-- Without a failed client and before all measure.
orderly-Moves :
    (n count : ℕ) (ps : List Stage) (m : Main)
    → IsAwake n (record { waiting_count = count; clients = ps; main = m })
    → failed_count ps ≡ 0
    → measuring_count ps ≢ n
    → Moves n (record { waiting_count = count; clients = ps; main = m })
orderly-Moves n count ps creates v no_fail more = (_, main_creates count ps)
orderly-Moves n count ps sleeps v no_fail more =
    let missing : count ≢ created ps = v.knows in
    register-Moves n count sleeps ps (omega (arith, v.counted))
orderly-Moves n count ps tests v no_fail more = elim (dec_lt (created ps) n) [
  | yes few ↦ (elim (equal? count (created ps)) [
    | inl all ↦ (_, main_goes_on count ps few all)
    | inr other ↦ (_, main_falls_asleep count ps few other)
  ])
  | no complete ↦ (elim (dec_lt 0 (registering_count ps)) [
    | yes some ↦ register-Moves n count tests ps (omega arith)
    | no none ↦
        awake-Moves n count tests ps (omega (arith, v.counted, v.settled, v.bounded, v.watched))
  ])
]

-- From the start of `main`, in every order of steps and whatever threads wake though nobody has
-- notified them: as long as no registration has failed, until all clients measure there is a thread
-- that can go on and need not wake on its own, so no `notify_one` is missing or comes too early.
pub no_lost_wakeup :
    (n : ℕ) (c : Threads)
    → Reach n no_threads c
    → failed_count c.clients ≡ 0
    → (measuring_count c.clients ≡ n) ⊎ Moves n c
no_lost_wakeup n c p no_fail = elim (equal? (measuring_count c.clients) n) [
  | inl all ↦ inl all
  | inr more ↦
      inr (orderly-Moves n c.waiting_count c.clients c.main (reach-IsAwake n c p) no_fail more)
]
