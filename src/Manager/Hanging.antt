-- ===== src/Manager/Hanging.antt =====
-- A client whose thread hangs in a handler keeps its CPU for ever.
use mett_eagle.Base.{
  ℕ, ◌≡◌, ◌≢◌, refl, ◌∙◌, sym, ap, if◌then◌else◌, Bool, true, false, List, [], ◌∷◌, some, Outcome,
  Label, Error, arith, All, Bool-cases, inl, inr, ◌==◌, ==_iff,
}
use mett_eagle.Cpu.Bitset.{get, bits_of}
use mett_eagle.Cpu.{width}
use mett_eagle.Registry.Ownership.{
  IsExclusive, here, later, register, gate_deleted, Reach-IsExclusive,
}
use mett_eagle.Registry.Sessions.{word_of, word_of-register, word_of-handle_irq, held_not_free}
use mett_eagle.Worker.{Loader}
use mett_eagle.Server.{Request}
use mett_eagle.Manager.{
  Thread, absent, hanging, serving, Manager, Event, registers, asks, overlaps, asks_unprintable,
  update, take_irq, serve_request, step, run,
}
use mett_eagle.Manager.Isolation.{start_thread-other, update-same, update-other}

-- The gate is not handed out again while its object exists, and the event is handled alone and does not
-- end the manager.
abbrev pub IsFresh : ℕ → Event → Type 0
IsFresh g (registers calls) = calls.gate ≢ some g
IsFresh g (asks gate r) = Unit
IsFresh g (Event.gate_deleted valid gate) = Unit
IsFresh g (overlaps accesses) = ⊥
IsFresh g (asks_unprintable gate r) = ⊥

-- The thread hangs, and its session is in the registry.
abbrev Holds : ℕ → ℕ → Manager → Type 0
Holds g w m = (m.threads g ≡ hanging) × (word_of g m.registry.sessions ≡ some w)

take_irq-Holds :
    (valid : Bool) (gate : ℕ) (t : Thread) (m : Manager) (g w : ℕ)
    → m.threads gate ≡ t
    → Holds g w m
    → Holds g w (take_irq valid gate t m)
unfolding take_irq
take_irq-Holds valid gate absent m g w e h = h
take_irq-Holds valid gate hanging m g w e h = h
take_irq-Holds valid gate (serving a) m g w e h =
    (still_hangs valid, word_of-handle_irq valid gate m.registry g other ∙ h.1)
  where
    other : gate ≢ g
    other same = let mixed : serving a ≡ hanging = sym e ∙ ap m.threads same ∙ h.0 in cc

    still_hangs :
        (valid : Bool) → (if valid then m.threads else update m.threads gate absent) g ≡ hanging
    still_hangs true = h.0
    still_hangs false = ground (arith, h.0)

module _ {Stack : Type 0} (l : Loader Stack) (on_throw : Error → Outcome Label) (g w : ℕ) where
  serve_request-Holds :
      (r : Request) (gate : ℕ) (m : Manager)
      → Holds g w m
      → Holds g w (record m {
        threads = update m.threads gate (serve_request l on_throw r (m.threads gate)).0;
      })
  unfolding serve_request
  serve_request-Holds r gate m h = elim (Bool-cases (gate == g)) [
    | inl same ↦ (
      rw (ap m.threads ((==_iff gate g).0 same) ∙ h.0) (update-same m.threads g gate hanging same),
      h.1,
    )
    | inr differs ↦ (update-other m.threads g gate _ differs ∙ h.0, h.1)
  ]

  run-Holds :
      (events : List Event) (m : Manager)
      → Holds g w m
      → All (IsFresh g) events
      → Holds g w (run l on_throw events m).0
  unfolding run step
  run-Holds [] m h fresh = h
  run-Holds (registers calls ∷ events) m h fresh =
      run-Holds events _
        (
          start_thread-other calls m.registry m.threads g fresh.0 ∙ h.0,
          word_of-register calls m.registry g fresh.0 ∙ h.1,
        )
        fresh.1
  run-Holds (asks gate r ∷ events) m h fresh =
      run-Holds events _ (serve_request-Holds r gate m h) fresh.1
  run-Holds (Event.gate_deleted valid gate ∷ events) m h fresh =
      run-Holds events _ (take_irq-Holds valid gate (m.threads gate) m g w refl h) fresh.1
  run-Holds (overlaps accesses ∷ events) m h fresh = absurd fresh.0
  run-Holds (asks_unprintable gate r ∷ events) m h fresh = absurd fresh.0

  take_irq-IsExclusive :
      (valid : Bool) (gate : ℕ) (t : Thread) (m : Manager)
      → IsExclusive m.registry
      → IsExclusive (take_irq valid gate t m).registry
  unfolding take_irq
  take_irq-IsExclusive valid gate absent m v = v
  take_irq-IsExclusive valid gate hanging m v = v
  take_irq-IsExclusive valid gate (serving a) m v =
      Reach-IsExclusive v (later here (gate_deleted valid gate))

  run-IsExclusive :
      (events : List Event) (m : Manager)
      → IsExclusive m.registry
      → All (IsFresh g) events
      → IsExclusive (run l on_throw events m).0.registry
  unfolding run step
  run-IsExclusive [] m v fresh = v
  run-IsExclusive (registers calls ∷ events) m v fresh =
      run-IsExclusive events _ (Reach-IsExclusive v (later here (register calls))) fresh.1
  run-IsExclusive (asks gate r ∷ events) m v fresh = run-IsExclusive events _ v fresh.1
  run-IsExclusive (Event.gate_deleted valid gate ∷ events) m v fresh =
      run-IsExclusive events _ (take_irq-IsExclusive valid gate (m.threads gate) m v) fresh.1
  run-IsExclusive (overlaps accesses ∷ events) m v fresh = absurd fresh.0
  run-IsExclusive (asks_unprintable gate r ∷ events) m v fresh = absurd fresh.0

  -- If the registry's record is exclusive (each CPU in one place at most), the thread of gate `g`
  -- hangs in a handler, waiting for a worker that never ends for instance, its session holds CPU `k`,
  -- and no event hands the gate out again, overlaps another one or ends the manager, then after the
  -- events the thread still hangs and the CPU is not free, even if the client deletes its gate or ends: the deletion IRQ waits for the thread.
  pub hanging_keeps_cpu :
      (events : List Event) (m : Manager) (k : ℕ)
      → IsExclusive m.registry
      → m.threads g ≡ hanging
      → word_of g m.registry.sessions ≡ some w
      → get (bits_of width w) k ≡ true
      → All (IsFresh g) events
      → ((run l on_throw events m).0.threads g ≡ hanging)
        × (get (run l on_throw events m).0.registry.available k ≡ false)
  hanging_keeps_cpu events m k v hangs session held fresh =
      let (still, kept) = run-Holds events m (hangs, session) fresh in
      (still, held_not_free _ g w k (run-IsExclusive events m v fresh) kept held)
