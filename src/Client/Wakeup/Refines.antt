-- ===== src/Client/Wakeup/Refines.antt =====
-- With its condition variables, the start of the clients does what it does when each thread simply
-- waits for its condition.
use mett_eagle.Base.{ℕ, ◌+◌, ◌<◌, ◌≡◌, refl, ap, sym, subst, ◌∙◌, List, [], ◌∷◌, ◌++◌}
use mett_eagle.Client
use mett_eagle.Client.{Phase, Clients, no_clients}
use mett_eagle.Client.Wakeup.{
  Stage, registering, failed, asleep, woken, passed, measuring, Threads, no_threads, created,
  Notified, nobody, somebody, Step, main_goes_on, main_falls_asleep, main_creates, fails, registers,
  registers_last, goes_on, falls_asleep, notifies, Spurious, main_wakes, client_wakes, Reach, here,
  later, wakes,
}
use mett_eagle.Client.Wakeup.Orderly.{IsAwake, reach-IsAwake}

abbrev pub phase : Stage → Phase
phase registering = Phase.registering
phase failed = Phase.failed
phase asleep = Phase.waiting
phase woken = Phase.waiting
phase passed = Phase.measuring
phase measuring = Phase.measuring

abbrev pub phases : List Stage → List Phase
phases [] = []
phases (p ∷ ps) = phase p ∷ phases ps

-- Without what `main` and the clients know of each other.
abbrev pub view : Threads → Clients
view c = record { waiting_count = c.waiting_count; threads = phases c.clients }

phases-append : (xs ys : List Stage) → phases (xs ++ ys) ≡ phases xs ++ phases ys
phases-append [] ys = refl
phases-append (x ∷ xs) ys = ap (λ rest. phase x ∷ rest) (phases-append xs ys)

created-phases : (ps : List Stage) → mett_eagle.Client.created (phases ps) ≡ created ps
created-phases [] = refl
created-phases (p ∷ ps) = ap (λ n. 1 + n) (created-phases ps)

-- Only a thread's own stage changes.
Notified-phases : (xs ps : List Stage) → Notified xs ps → phases ps ≡ phases xs
Notified-phases _ _ (nobody ps none_sleeps) = refl
Notified-phases _ _ (somebody before after) =
    phases-append before (woken ∷ after) ∙ sym (phases-append before (asleep ∷ after))

module _ (n : ℕ) where
  abbrev Reached : ℕ → List Phase → Type 0
  Reached count ps =
      mett_eagle.Client.Reach n no_clients (record { waiting_count = count; threads = ps })

  -- One thread changes its phase by a step.
  moves :
      (count count' : ℕ) (before after : List Stage) (p q : Stage)
      → Reached count (phases (before ++ p ∷ after))
      → mett_eagle.Client.Step n
          (record { waiting_count = count; threads = phases before ++ phase p ∷ phases after })
          (record { waiting_count = count'; threads = phases before ++ phase q ∷ phases after })
      → Reached count' (phases (before ++ q ∷ after))
  moves count count' before after p q r s =
      subst (Reached count') (sym (phases-append before (q ∷ after))) (
        mett_eagle.Client.Reach.later (subst (Reached count) (phases-append before (p ∷ after)) r)
          s)

  -- It changes to a stage of the same phase.
  stays :
      (count : ℕ) (before after : List Stage) (p q : Stage)
      → phase p ≡ phase q
      → Reached count (phases (before ++ p ∷ after))
      → Reached count (phases (before ++ q ∷ after))
  stays count before after p q e r =
      subst (Reached count)
        (phases-append before (p ∷ after)
          ∙ (ap (λ x. phases before ++ x ∷ phases after) e
              ∙ sym (phases-append before (q ∷ after))))
        r

  adds :
      (count : ℕ) (ps : List Stage)
      → count ≡ created ps
      → created ps < n
      → Reached count (phases ps)
      → Reached count (phases (ps ++ registering ∷ []))
  adds count ps all few r = subst (Reached count) (sym (phases-append ps (registering ∷ []))) (
      mett_eagle.Client.Reach.later r (
        mett_eagle.Client.Step.creates count (phases ps)
          (subst (λ k. k < n) (sym (created-phases ps)) few) (all ∙ sym (created-phases ps))))

  follows :
      (c d : Threads)
      → IsAwake n c
      → Step n c d
      → mett_eagle.Client.Reach n no_clients (view c)
      → mett_eagle.Client.Reach n no_clients (view d)
  follows _ _ v (main_goes_on count ps lt e) r = r
  follows _ _ v (main_falls_asleep count ps lt e) r = r
  follows _ _ v (main_creates count ps) r = adds count ps v.knows.0 v.knows.1 r
  follows _ _ v (fails count before after m) r =
      moves count count before after registering failed r
        (mett_eagle.Client.Step.fails count (phases before) (phases after))
  follows _ _ v (registers count before after m other) r =
      moves count (count + 1) before after registering asleep r
        (mett_eagle.Client.Step.registers count (phases before) (phases after))
  follows _ _ v (registers_last count before after m last) r =
      moves (count + 1) (count + 1) before after asleep passed
        (moves count (count + 1) before after registering asleep r
          (mett_eagle.Client.Step.registers count (phases before) (phases after)))
        (mett_eagle.Client.Step.passes (count + 1) (phases before) (phases after) last)
  follows _ _ v (goes_on count before after m all) r =
      moves count count before after woken passed r
        (mett_eagle.Client.Step.passes count (phases before) (phases after) all)
  follows _ _ v (falls_asleep count before after m other) r =
      stays count before after woken asleep refl r
  follows _ _ v (notifies count before after ps m notified) r =
      subst (Reached count) (sym (Notified-phases _ ps notified))
        (stays count before after passed measuring refl r)

  wakes_unseen :
      (c d : Threads)
      → Spurious c d
      → mett_eagle.Client.Reach n no_clients (view c)
      → mett_eagle.Client.Reach n no_clients (view d)
  wakes_unseen _ _ (main_wakes count ps) r = r
  wakes_unseen _ _ (client_wakes count before after m) r =
      stays count before after asleep woken refl r

  -- Whatever the threads do with the condition variables, spurious wake-ups included, the counts and
  -- the clients that they reach from the start of `main` are reached in the specification, in which
  -- each thread simply waits for its condition.
  pub start_refines :
      (c : Threads) → Reach n no_threads c → mett_eagle.Client.Reach n no_clients (view c)
  start_refines _ here = mett_eagle.Client.Reach.here
  start_refines c (later {t = b} p s) = follows b c (reach-IsAwake n b p) s (start_refines b p)
  start_refines c (wakes {t = b} p s) = wakes_unseen b c s (start_refines b p)
