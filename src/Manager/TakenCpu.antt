-- ===== src/Manager/TakenCpu.antt =====
-- Where the CPUs of the manager are: mett-eagle/manager/src/manager_registry.cc, from the start of
-- mett-eagle/manager/src/manager.cc on.
use mett_eagle.Base.{
  ℕ, ◌^◌, ◌≤◌, ◌≡◌, ◌≢◌, sym, subst, ap, ◌∙◌, Bool, true, false, List, [], ◌∷◌, Option, some,
  Outcome, Error, Label, arith, bit_value, All,
}
use mett_eagle.Cpu.Bitset.{Bits, get, bits_of}
use mett_eagle.Cpu.{width}
use mett_eagle.Registry.{Registry}
use mett_eagle.Registry.Ownership.{places, places-handle_irq, here}
use mett_eagle.Registry.Sessions.{word_of}
use mett_eagle.Registry.Assigned.{word_of_held}
use mett_eagle.Registry.Lossless.{IsUntroubled, untroubled_keeps}
use mett_eagle.Startup.{Started, manager_main}
use mett_eagle.Startup.Main.{served-IsExclusive}
use mett_eagle.Worker.{Loader}
use mett_eagle.Manager.{
  Thread, absent, hanging, serving, Manager, Event, registers, asks, gate_deleted, overlaps,
  asks_unprintable, take_irq, step, run,
}
use mett_eagle.Manager.Placement.{IsAlone, is_alive, IsPlaced, AreNew, step-IsPlaced}
use mett_eagle.Manager.OwnCpu.{started, started-IsPlaced}

-- The kernel's calls succeed in every registration.
abbrev pub AreUntroubled : List Event → Type 0
AreUntroubled [] = Unit
AreUntroubled (registers calls ∷ events) = IsUntroubled calls × AreUntroubled events
AreUntroubled (asks gate r ∷ events) = AreUntroubled events
AreUntroubled (gate_deleted valid gate ∷ events) = AreUntroubled events
AreUntroubled (overlaps accesses ∷ events) = AreUntroubled events
AreUntroubled (asks_unprintable gate r ∷ events) = AreUntroubled events

-- Every CPU is in the pool or held as often as it was free at first.
abbrev IsWhole : Bits → Manager → Type 0
IsWhole at_first m = (i : ℕ) → places i m.registry ≡ bit_value (get at_first i)

module _ (at_first : Bits) (m : Manager) (v : IsPlaced at_first m)
    (whole : IsWhole at_first m) where
  take_irq-IsWhole :
      (valid : Bool) (gate : ℕ) (t : Thread) → IsWhole at_first (take_irq valid gate t m)
  unfolding take_irq
  take_irq-IsWhole valid gate absent = whole
  take_irq-IsWhole valid gate hanging = whole
  take_irq-IsWhole valid gate (serving a) =
      λ i. places-handle_irq valid gate m.registry i v.exclusive ∙ whole i

  -- A CPU that is not free belongs to a live thread.
  held_owned :
      (k : ℕ)
      → get at_first k ≡ true
      → get m.registry.available k ≡ false
      → (g : ℕ) × (m.threads g ≢ absent) × (word_of g m.registry.sessions ≡ some (2 ^ k))
  held_owned k first taken =
      let (g, there, word) =
        word_of_held m.registry.sessions k v.one_cpu
          (λ h. rw (v.linked h) (one_at_most (m.threads h))) (ground (arith, whole k)) in
      (g, (λ gone. omega (arith, there, v.linked g, ap is_alive gone)), word)
    where
      one_at_most : (t : Thread) → is_alive t ≤ 1
      one_at_most absent = omega arith
      one_at_most hanging = omega arith
      one_at_most (serving a) = omega arith

module _ {Stack : Type 0} (l : Loader Stack) (on_throw : Error → Outcome Label) where
  run-held_owned :
      (at_first : Bits) (events : List Event) (m : Manager) (k : ℕ)
      → IsPlaced at_first m
      → IsWhole at_first m
      → All IsAlone events
      → AreNew l on_throw events m
      → AreUntroubled events
      → get at_first k ≡ true
      → get (run l on_throw events m).0.registry.available k ≡ false
      → (g : ℕ) × ((run l on_throw events m).0.threads g ≢ absent)
        × (word_of g (run l on_throw events m).0.registry.sessions ≡ some (2 ^ k))
  unfolding run step
  run-held_owned at_first [] m k v whole alone new calm = held_owned at_first m v whole k
  run-held_owned at_first (registers calls ∷ events) m k v whole alone new calm =
      run-held_owned at_first events (step l on_throw (registers calls) m).0 k
        (step-IsPlaced l on_throw at_first (registers calls) m v tt new.0)
        (λ i. untroubled_keeps calls m.registry i calm.0 v.exclusive ∙ whole i) alone.1 new.1 calm.1
  run-held_owned at_first (asks gate r ∷ events) m k v whole alone new calm =
      run-held_owned at_first events (step l on_throw (asks gate r) m).0 k
        (step-IsPlaced l on_throw at_first (asks gate r) m v tt new.0) whole alone.1 new.1 calm
  run-held_owned at_first (gate_deleted valid gate ∷ events) m k v whole alone new calm =
      run-held_owned at_first events (step l on_throw (gate_deleted valid gate) m).0 k
        (step-IsPlaced l on_throw at_first (gate_deleted valid gate) m v tt new.0)
        (take_irq-IsWhole at_first m v whole valid gate (m.threads gate)) alone.1 new.1 calm
  run-held_owned at_first (overlaps accesses ∷ events) m k v whole alone new calm = absurd alone.0
  run-held_owned at_first (asks_unprintable gate r ∷ events) m k v whole alone new calm =
      absurd alone.0

  -- If `main` serves, then after registrations in which the kernel's calls succeed, requests of any
  -- clients and deletion IRQs in any order, where no registration or clean-up overlaps another one, no
  -- log message of an exception throws, and the kernel names no new gate like that of a live client
  -- thread, no CPU is lost: each CPU of the scheduler's map that is not free is the CPU of a client
  -- whose thread is live.
  pub taken_cpu_owned :
      (info : Option Error) (map gate : ℕ) (r : Registry) (events : List Event) (k : ℕ)
      → manager_main info map (some gate) ≡ Started.serving r
      → All IsAlone events
      → AreNew l on_throw events (started r)
      → AreUntroubled events
      → get (bits_of width map) k ≡ true
      → get (run l on_throw events (started r)).0.registry.available k ≡ false
      → (g : ℕ) × ((run l on_throw events (started r)).0.threads g ≢ absent)
        × (word_of g (run l on_throw events (started r)).0.registry.sessions ≡ some (2 ^ k))
  taken_cpu_owned info map gate r events k serves alone new calm =
      run-held_owned (bits_of width map) events (started r) k
        (started-IsPlaced info map gate r serves) whole alone new calm
    where
      whole : IsWhole (bits_of width map) (started r)
      whole =
          subst (λ x. IsWhole (bits_of width map) (started x))
            (sym (served-IsExclusive info map gate r r serves here).0) (λ i. omega arith)
