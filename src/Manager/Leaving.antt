-- ===== src/Manager/Leaving.antt =====
-- A client that goes: the deletion IRQ of mett-eagle/manager/src/manager_registry.cc, from the start of
-- mett-eagle/manager/src/manager.cc on.
use mett_eagle.Base.{
  All, ℕ, ◌≡◌, refl, true, false, List, Option, some, ==_iff, Error, Outcome, Label,
}
use mett_eagle.Cpu.Bitset.{Bits, get, bits_of}
use mett_eagle.Cpu.{width}
use mett_eagle.Registry.{Registry, Calls, handle_irq}
use mett_eagle.Registry.Ownership.{handle_irq-IsExclusive}
use mett_eagle.Registry.Lossless.{IsGranted, granted_registers, handle_irq_frees}
use mett_eagle.Startup.{Started, manager_main}
use mett_eagle.Actions.{Actions, no_actions}
use mett_eagle.Worker.{Loader}
use mett_eagle.Manager.{
  absent, serving, Manager, Event, registers, gate_deleted, start_thread, take_irq, step, run,
}
use mett_eagle.Manager.Placement.{IsAlone, IsPlaced, AreNew, run-IsPlaced}
use mett_eagle.Manager.OwnCpu.{started, started-IsPlaced, OwnsCpu, alive-OwnsCpu}

-- What the deletion of its gate does for a client, and a registration after that for the next one.
abbrev pub LeavesRoom : Bits → ℕ → ℕ → Manager → Manager → Manager → Type 0
LeavesRoom at_first g next m left again =
    (k : ℕ) × OwnsCpu at_first m g k
    × (get left.registry.available k ≡ true)
    × (left.threads g ≡ absent)
    × (again.threads next ≡ serving no_actions)

module _ {Stack : Type 0} (l : Loader Stack) (on_throw : Error → Outcome Label) where
  abbrev pub without : ℕ → Manager → Manager
  without g m = (step l on_throw (gate_deleted false g) m).0

  serving-LeavesRoom :
      (at_first : Bits) (m : Manager) (g next : ℕ) (a : Actions) (calls : Calls)
      → IsPlaced at_first m
      → m.threads g ≡ serving a
      → IsGranted calls next
      → LeavesRoom at_first g next m
          (without g m)
          (step l on_throw (registers calls) (without g m)).0
  unfolding step take_irq start_thread
  serving-LeavesRoom at_first m g next a calls v serves granted =
      let (k, owns) = alive-OwnsCpu at_first m v g (λ gone. cc serves) in
      let free = handle_irq_frees g k m.registry owns.0 v.exclusive.wide owns.1 in
      let back =
        granted_registers calls (handle_irq false g m.registry) next k granted
          (handle_irq-IsExclusive false g m.registry v.exclusive).wide free in
      let self = (==_iff g g).1 refl in
      let same = (==_iff next next).1 refl in
      rw (serves, back, self, same) (k, owns, free, refl, refl)

  -- If `main` serves, then after registrations with any outcome, requests and deletion IRQs in any order,
  -- where no registration or clean-up overlaps another one, no log message of an exception throws, and
  -- the kernel names no new gate like that of a live client thread: when a client whose thread
  -- waits for requests deletes its gate and no registration or clean-up overlaps that, the CPU that it owned is free
  -- and its thread is gone, and the
  -- next registration that the kernel grants starts a thread with no actions.
  pub leaving_frees_cpu :
      (info : Option Error) (map gate : ℕ) (r : Registry) (events : List Event) (g next : ℕ)
      (a : Actions) (calls : Calls)
      → manager_main info map (some gate) ≡ Started.serving r
      → All IsAlone events
      → AreNew l on_throw events (started r)
      → (run l on_throw events (started r)).0.threads g ≡ serving a
      → IsGranted calls next
      → let m = (run l on_throw events (started r)).0 in
        LeavesRoom
          (bits_of width map)
          g
          next
          m
          (without g m)
          (step l on_throw (registers calls) (without g m)).0
  leaving_frees_cpu info map gate r events g next a calls serves alone new =
      serving-LeavesRoom (bits_of width map) (run l on_throw events (started r)).0 g next a calls (
        run-IsPlaced l on_throw (bits_of width map) events (started r)
          (started-IsPlaced info map gate r serves) alone new)
