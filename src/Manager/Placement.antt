-- ===== src/Manager/Placement.antt =====
-- The threads of the manager's clients and their CPUs: mett-eagle/manager/src/manager_registry.cc.
use mett_eagle.Base.{
  ℕ, ◌+◌, ◌≤◌, ◌≡◌, refl, ap, ◌∙◌, Bool, true, false, List, [], ◌∷◌, Option, none, some, ◌==◌,
  Outcome, returns, throws, Error, Label, arith, bit_value, All,
}
use mett_eagle.Cpu.Bitset.{Bits, get}
use mett_eagle.Registry.{Registry, Calls, op_register_client}
use mett_eagle.Registry.Ownership.{
  IsExclusive, places, places-op_register_client, places-handle_irq, op_register_client-IsExclusive,
  handle_irq-IsExclusive,
}
use mett_eagle.Registry.Assigned.{
  sessions_at, HasOneCpu, Registered, op_register_client-Registered, handle_irq_sessions,
  handle_irq_valid,
}
use mett_eagle.Actions.{Actions, no_actions}
use mett_eagle.Worker.{Loader}
use mett_eagle.Server.{Request, Answer, handle}
use mett_eagle.Manager.{
  Thread, absent, hanging, serving, Manager, Event, registers, asks, gate_deleted, overlaps,
  asks_unprintable, update, start_thread, take_irq, settled, serve_request, step, run,
}

-- The event is handled alone, and does not end the manager by a log message that throws.
abbrev pub IsAlone : Event → Type 0
IsAlone (registers calls) = Unit
IsAlone (asks gate r) = Unit
IsAlone (gate_deleted valid gate) = Unit
IsAlone (overlaps accesses) = ⊥
IsAlone (asks_unprintable gate r) = ⊥

abbrev pub is_alive : Thread → ℕ
is_alive absent = 0
is_alive hanging = 1
is_alive (serving a) = 1

-- The CPUs are exclusive and those that were free at first, the live threads are those with a session,
-- one for each, and each session has one CPU.
pub record IsPlaced (at_first : Bits) (m : Manager) : Type 0 where
  pub exclusive : IsExclusive m.registry
  pub given : (i : ℕ) → places i m.registry ≤ bit_value (get at_first i)
  pub linked : (g : ℕ) → sessions_at g m.registry.sessions ≡ is_alive (m.threads g)
  pub one_cpu : All HasOneCpu m.registry.sessions

module _ (at_first : Bits) (m : Manager) (v : IsPlaced at_first m) where
  start_thread-IsPlaced :
      (calls : Calls) (r : Registry) (o : Outcome ℕ)
      → ((g : ℕ) → calls.gate ≡ some g → m.threads g ≡ absent)
      → IsExclusive r
      → ((i : ℕ) → places i r ≤ places i m.registry)
      → Registered calls m.registry r o
      → IsPlaced at_first (record { registry = r; threads = start_thread o m.threads })
  unfolding start_thread
  start_thread-IsPlaced calls r (returns gate) fresh x fewer (at, (s, cpu, e)) = record {
    exclusive = x;
    given = λ i. omega (arith, fewer i, v.given i);
    linked = λ g. rw e (linked_new g);
    one_cpu = rw e (cpu, v.one_cpu);
  }
    where
      linked_new :
          (g : ℕ)
          → bit_value (gate == g) + sessions_at g m.registry.sessions
            ≡ is_alive (update m.threads gate (serving no_actions) g)
      linked_new g = ground (arith, fresh gate at, v.linked g, ap is_alive (fresh gate at))
  start_thread-IsPlaced calls r (throws e) fresh x fewer same = record {
    exclusive = x;
    given = λ i. omega (arith, fewer i, v.given i);
    linked = λ g. rw same (v.linked g);
    one_cpu = rw same v.one_cpu;
  }
  start_thread-IsPlaced calls r Outcome.blocks fresh x fewer l = absurd l

  take_irq-IsPlaced :
      (valid : Bool) (gate : ℕ) (t : Thread)
      → m.threads gate ≡ t
      → IsPlaced at_first (take_irq valid gate t m)
  unfolding take_irq
  take_irq-IsPlaced valid gate absent e = v
  take_irq-IsPlaced valid gate hanging e = v
  take_irq-IsPlaced true gate (serving a) e = rw (handle_irq_valid gate m.registry) v
  take_irq-IsPlaced false gate (serving a) e =
      let (counts, kept) = handle_irq_sessions gate m.registry (v.linked gate ∙ ap is_alive e) in
      record {
        exclusive = handle_irq-IsExclusive false gate m.registry v.exclusive;
        given = λ i. rw (places-handle_irq false gate m.registry i v.exclusive) (v.given i);
        linked = λ g. ground (arith, counts g, v.linked g, ap is_alive e);
        one_cpu = kept v.one_cpu;
      }

module _ {Stack : Type 0} (l : Loader Stack) (on_throw : Error → Outcome Label) where
  -- A request neither starts a thread nor ends one.
  is_alive-serve_request :
      (r : Request) (t : Thread) → is_alive (serve_request l on_throw r t).0 ≡ is_alive t
  unfolding serve_request settled
  is_alive-serve_request r absent = refl
  is_alive-serve_request r hanging = refl
  is_alive-serve_request r (serving a) = is_alive-settled (handle l on_throw r a)
    where
      is_alive-settled : (x : Actions × Option Answer) → is_alive (settled x.0 x.1) ≡ 1
      is_alive-settled (a, none) = refl
      is_alive-settled (a, some answer) = refl

  -- A new gate is not one of a live thread; the kernel does not name a new gate like one in use.
  abbrev pub IsNew : Event → Manager → Type 0
  IsNew (registers calls) m = (g : ℕ) → calls.gate ≡ some g → m.threads g ≡ absent
  IsNew (asks gate r) m = Unit
  IsNew (gate_deleted valid gate) m = Unit
  IsNew (overlaps accesses) m = Unit
  IsNew (asks_unprintable gate r) m = Unit

  abbrev pub AreNew : List Event → Manager → Type 0
  AreNew [] m = Unit
  AreNew (e ∷ events) m = IsNew e m × AreNew events (step l on_throw e m).0

  pub step-IsPlaced :
      (at_first : Bits) (e : Event) (m : Manager)
      → IsPlaced at_first m
      → IsAlone e
      → IsNew e m
      → IsPlaced at_first (step l on_throw e m).0
  unfolding step
  step-IsPlaced at_first (registers calls) m v alone fresh =
      start_thread-IsPlaced at_first m v calls (op_register_client calls m.registry).0
        (op_register_client calls m.registry).1 fresh
        (op_register_client-IsExclusive calls m.registry v.exclusive)
        (places-op_register_client calls m.registry v.exclusive).1
        (op_register_client-Registered calls m.registry v.exclusive)
  step-IsPlaced at_first (asks gate r) m v alone fresh = record {
    exclusive = v.exclusive;
    given = v.given;
    linked = λ g. ground (
      arith,
      v.linked g,
      is_alive-serve_request r (m.threads gate),
      ap (λ k. is_alive (m.threads k)),
    );
    one_cpu = v.one_cpu;
  }
  step-IsPlaced at_first (overlaps accesses) m v alone fresh = absurd alone
  step-IsPlaced at_first (asks_unprintable gate r) m v alone fresh = absurd alone
  step-IsPlaced at_first (gate_deleted valid gate) m v alone fresh =
      take_irq-IsPlaced at_first m v valid gate (m.threads gate) refl

  pub run-IsPlaced :
      (at_first : Bits) (events : List Event) (m : Manager)
      → IsPlaced at_first m
      → All IsAlone events
      → AreNew events m
      → IsPlaced at_first (run l on_throw events m).0
  unfolding run
  run-IsPlaced at_first [] m v alone fresh = v
  run-IsPlaced at_first (registers calls ∷ events) m v alone fresh =
      run-IsPlaced at_first events (step l on_throw (registers calls) m).0
        (step-IsPlaced at_first (registers calls) m v tt fresh.0) alone.1 fresh.1
  run-IsPlaced at_first (asks gate r ∷ events) m v alone fresh =
      run-IsPlaced at_first events (step l on_throw (asks gate r) m).0
        (step-IsPlaced at_first (asks gate r) m v tt fresh.0) alone.1 fresh.1
  run-IsPlaced at_first (gate_deleted valid gate ∷ events) m v alone fresh =
      run-IsPlaced at_first events (step l on_throw (gate_deleted valid gate) m).0
        (step-IsPlaced at_first (gate_deleted valid gate) m v tt fresh.0) alone.1 fresh.1
  run-IsPlaced at_first (overlaps accesses ∷ events) m v alone fresh = absurd alone.0
  run-IsPlaced at_first (asks_unprintable gate r ∷ events) m v alone fresh = absurd alone.0
