-- ===== src/System/Connected.antt =====
-- The clients connect one after the other, as long as there are CPUs.
use mett_eagle.Base.{
  ℕ, zero, suc, ◌+◌, ◌<◌, ◌≤◌, ◌≡◌, ◌≢◌, refl, true, false, List, [], ◌∷◌, Option, none, arith,
  length, Error, Label, Outcome, returns, throws, enoent, inl, inr,
}
use mett_eagle.Cpu.Bitset.{ones}
use mett_eagle.Cpu.{width}
use mett_eagle.Registry.{op_register_client}
use mett_eagle.Actions.{Actions, no_actions, binary, op_action_create}
use mett_eagle.Worker.{Loader}
use mett_eagle.Server.{handle}
use mett_eagle.Manager.{
  Manager, Thread, serving, update, step, start_thread, serve_request, settled, tagged,
}
use mett_eagle.System.{
  Participant, action_name, call_result, call_register, call_create, enter, connect, before,
  surroundings_of,
}
use mett_eagle.Client.{Sample, register}
use mett_eagle.Client.Main.{registration, counted}
use mett_eagle.Client.Loops.{compare-cases}
use mett_eagle.Registry.Lossless.{IsGranted}
use mett_eagle.System.Capacity.{granted_takes_one, full_throws}

-- Nothing outside the repository refuses anything to `main` for this client, or to the client up to the
-- barrier, and the kernel names its gate.
pub record IsAdmitted (p : Participant) (gate : ℕ) : Type 0 where
  pub thread : p.thread ≡ none
  pub scheduler : p.scheduler ≡ none
  pub run_thread : p.run_thread ≡ none
  pub registry : p.registry ≢ none
  pub slot : p.slot ≢ none
  pub file : p.file ≢ none
  pub granted : IsGranted p.calls gate
  pub cap_received : p.received.cap_received ≡ true
  pub valid : p.received.valid ≡ true
  pub next_slot : p.received.realloc_failed ≡ false

-- The actions of a client that has connected.
abbrev pub one_action : Participant → Actions
one_action p = (action_name, record { ds = p.received.cap; lang = binary }) ∷ []

module _ {Stack : Type 0} (l : Loader Stack) (on_throw : Error → Outcome Label) where
  register_granted :
      (p : Participant) (gate : ℕ) (m : Manager)
      → (op_register_client p.calls m.registry).1 ≡ returns gate
      → call_register l on_throw p.calls m ≡ (
        record {
          registry = (op_register_client p.calls m.registry).0;
          threads = update m.threads gate (serving no_actions);
        },
        returns gate,
      )
  unfolding call_register step start_thread
  register_granted p gate m e = rw e refl

  create_admitted :
      (p : Participant) (gate : ℕ) (m : Manager)
      → IsAdmitted p gate
      → m.threads gate ≡ serving no_actions
      → call_create l on_throw gate p.file p.received m
        ≡ (record m { threads = update m.threads gate (serving (one_action p)) }, returns tt)
  unfolding call_create call_result step serve_request settled tagged handle op_action_create
  create_admitted p gate m h e = ground arith

  update_self : (threads : ℕ → Thread) (gate : ℕ) (t : Thread) → update threads gate t gate ≡ t
  update_self threads gate t = ground arith

  -- The manager behind such a client.
  abbrev entered : Participant → ℕ → Manager → Manager
  entered p gate m = record {
    registry = (op_register_client p.calls m.registry).0;
    threads = update (update m.threads gate (serving no_actions)) gate (serving (one_action p));
  }

  enter_admitted :
      (p : Participant) (gate : ℕ) (m : Manager)
      → IsAdmitted p gate
      → (op_register_client p.calls m.registry).1 ≡ returns gate
      → enter l on_throw p m ≡ (entered p gate m, returns gate)
  unfolding enter
  enter_admitted p gate m h e =
      let m' : Manager = record {
        registry = (op_register_client p.calls m.registry).0;
        threads = update m.threads gate (serving no_actions);
      } in
      rw
        (
          register_granted p gate m e,
          create_admitted p gate m' h (update_self m.threads gate (serving no_actions)),
        )
        refl

  -- It connects if a CPU is free.
  pub connect_admitted :
      (p : Participant) (gate : ℕ) (m : Manager)
      → IsAdmitted p gate
      → (op_register_client p.calls m.registry).1 ≡ returns gate
      → connect l on_throw p m ≡ (entered p gate m, returns gate)
  unfolding connect
  connect_admitted p gate m h e = ground (arith, enter_admitted p gate m h e)

  -- A client is counted at the barrier if it connects, and not if its registration throws.
  pub counted_admitted :
      (p : Participant) (gate : ℕ) (m : Manager) (invocations : List (Option Sample))
      → IsAdmitted p gate
      → (op_register_client p.calls m.registry).1 ≡ returns gate
      → counted (registration (surroundings_of l on_throw p m invocations)) ≡ 1
  unfolding surroundings_of registration register call_register
  counted_admitted p gate m invocations h e = ground (arith, enter_admitted p gate m h e)

  pub counted_refused :
      (p : Participant) (x : Error) (m : Manager) (invocations : List (Option Sample))
      → (op_register_client p.calls m.registry).1 ≡ throws x
      → counted (registration (surroundings_of l on_throw p m invocations)) ≡ 0
  unfolding surroundings_of registration register call_register
  counted_refused p x m invocations e = ground arith

  module _ (participants : ℕ → Participant) (gate : ℕ → ℕ) (m : Manager)
      (wide : length m.registry.available ≡ width)
      (distinct : (j k : ℕ) → j < k → gate j ≢ gate k) where
    -- The first `n` clients are admitted.
    abbrev pub AllAdmitted : ℕ → Type 0
    AllAdmitted n = (j : ℕ) → j < n → IsAdmitted (participants j) (gate j)

    -- `i` clients have connected: each took a CPU, and has a thread with its action.
    pub record IsConnected (i : ℕ) (s : Manager) : Type 0 where
      pub still_wide : length s.registry.available ≡ width
      pub left : ones s.registry.available + i ≡ ones m.registry.available
      pub serves : (j : ℕ) → j < i → s.threads (gate j) ≡ serving (one_action (participants j))

    -- The next client, if a CPU is left.
    next_takes_one :
        (i : ℕ) (s : Manager)
        → IsConnected i s
        → i < ones m.registry.available
        → IsAdmitted (participants i) (gate i)
        → ((op_register_client (participants i).calls s.registry).1 ≡ returns (gate i))
          × (length (op_register_client (participants i).calls s.registry).0.available ≡ width)
          × (ones s.registry.available
              ≡ suc (ones (op_register_client (participants i).calls s.registry).0.available))
    next_takes_one i s c free h =
        granted_takes_one (participants i).calls s.registry (gate i) h.granted c.still_wide
          (omega (arith, c.left))

    next-IsConnected :
        (i : ℕ) (s : Manager)
        → IsConnected i s
        → i < ones m.registry.available
        → IsAdmitted (participants i) (gate i)
        → IsConnected (suc i) (connect l on_throw (participants i) s).0
    next-IsConnected i s c free h =
        let (answer, wide', fewer) = next_takes_one i s c free h in
        rw (connect_admitted (participants i) (gate i) s h answer) (record {
          still_wide = wide';
          left = omega (arith, c.left);
          serves = λ j lt. elim (compare-cases j i) [
            | inl same ↦ rw same (
                update_self (update s.threads (gate i) (serving no_actions)) (gate i)
                  (serving (one_action (participants i))))
            | inr other ↦ ground (arith, distinct j i (omega arith), c.serves j (omega arith))
          ];
        })

    pub before-IsConnected :
        (i : ℕ)
        → i ≤ ones m.registry.available
        → AllAdmitted i
        → IsConnected i (before l on_throw participants i m)
    unfolding before
    before-IsConnected zero few h = record {
      still_wide = wide;
      left = omega arith;
      serves = λ j lt. absurd (omega arith);
    }
    before-IsConnected (suc i) few h =
        next-IsConnected i (before l on_throw participants i m)
          (before-IsConnected i (omega arith) (λ j lt. h j (omega arith))) (omega arith)
          (h i (omega arith))

    -- The registration of client `i`: it returns as long as there are CPUs, and throws behind the last.
    pub registered_at :
        (i : ℕ)
        → i < ones m.registry.available
        → AllAdmitted (suc i)
        → (op_register_client
            (participants i).calls
            (before l on_throw participants i m).registry).1
          ≡ returns (gate i)
    registered_at i free h =
        (next_takes_one i (before l on_throw participants i m)
          (before-IsConnected i (omega arith) (λ j lt. h j (omega arith))) free
          (h i (omega arith))).0

    pub refused_at :
        (i : ℕ)
        → i ≡ ones m.registry.available
        → AllAdmitted i
        → (op_register_client
            (participants i).calls
            (before l on_throw participants i m).registry).1
          ≡ throws enoent
    refused_at i all h =
        let c = before-IsConnected i (omega arith) h in
        rw
          (full_throws (participants i).calls (before l on_throw participants i m).registry
            c.still_wide (omega (arith, c.left)))
          refl
