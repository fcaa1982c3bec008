-- ===== src/Manager/Isolation.antt =====
-- What a client is answered depends on its own requests only.
use mett_eagle.Base.{
  ℕ, ◌≡◌, ◌≢◌, ◌⊎◌, refl, ap, ◌∙◌, Bool, true, false, List, [], ◌∷◌, ◌++◌, Option, none, some, ◌==◌,
  ==_iff, if◌then◌else◌, Outcome, Label, Error, arith, All, Bool-cases, inl, inr,
}
use mett_eagle.Registry.{Registry, Calls, op_register_client}
use mett_eagle.Actions.{Actions}
use mett_eagle.Worker.{Loader}
use mett_eagle.Server.{Request, Answer, handle, answered, internal_loop}
use mett_eagle.Manager.{
  Thread, absent, hanging, serving, Manager, Event, registers, asks, gate_deleted, overlaps,
  asks_unprintable, idle, update, start_thread, take_irq, settled, tagged, serve_request, step, run,
}
use mett_eagle.Manager.Overlap.{SparesAccess, overlap-Spares}

-- The event neither ends the client of the gate, nor the manager, nor hands the gate out again; the
-- kernel does not name a new gate like one in use.
abbrev pub Spares : ℕ → Event → Type 0
Spares g (registers calls) = calls.gate ≢ some g
Spares g (asks gate r) = Unit
Spares g (gate_deleted valid gate) = (valid ≡ true) ⊎ (gate ≢ g)
Spares g (overlaps accesses) = All (SparesAccess g) accesses
Spares g (asks_unprintable gate r) = ⊥

-- The requests over a gate.
abbrev pub requests_of : ℕ → List Event → List Request
requests_of g [] = []
requests_of g (registers calls ∷ events) = requests_of g events
requests_of g (asks gate r ∷ events) =
    if gate == g then r ∷ requests_of g events else requests_of g events
requests_of g (gate_deleted valid gate ∷ events) = requests_of g events
requests_of g (overlaps accesses ∷ events) = requests_of g events
requests_of g (asks_unprintable gate r ∷ events) =
    if gate == g then r ∷ requests_of g events else requests_of g events

-- The answers over a gate.
abbrev pub answers_of : ℕ → List (ℕ × Answer) → List Answer
answers_of g [] = []
answers_of g ((gate, answer) ∷ answers) =
    if gate == g then answer ∷ answers_of g answers else answers_of g answers

answers_of-append :
    (g : ℕ) (xs ys : List (ℕ × Answer))
    → answers_of g (xs ++ ys) ≡ answers_of g xs ++ answers_of g ys
answers_of-append g [] ys = refl
answers_of-append g ((gate, answer) ∷ xs) ys = ground (arith, answers_of-append g xs ys)

pub start_thread-other :
    (calls : Calls) (r : Registry) (threads : ℕ → Thread) (g : ℕ)
    → calls.gate ≢ some g
    → start_thread (op_register_client calls r).1 threads g ≡ threads g
unfolding start_thread op_register_client
start_thread-other calls r threads g other = ground arith

pub take_irq-Spares :
    (valid : Bool) (gate : ℕ) (t : Thread) (m : Manager) (g : ℕ)
    → Spares g (gate_deleted valid gate)
    → (take_irq valid gate t m).threads g ≡ m.threads g
unfolding take_irq
take_irq-Spares valid gate absent m g spared = refl
take_irq-Spares valid gate hanging m g spared = refl
take_irq-Spares true gate (serving a) m g spared = refl
take_irq-Spares false gate (serving a) m g spared = ground arith

answers_of-other :
    (g gate : ℕ) (o : Option Answer) (more : List (ℕ × Answer))
    → (gate == g) ≡ false
    → answers_of g (tagged gate o ++ more) ≡ answers_of g more
unfolding tagged
answers_of-other g gate none more other = refl
answers_of-other g gate (some x) more other = rw other refl

pub update-same :
    (threads : ℕ → Thread) (g gate : ℕ) (t : Thread)
    → (gate == g) ≡ true
    → update threads gate t g ≡ t
update-same threads g gate t same = ground arith

pub update-other :
    (threads : ℕ → Thread) (g gate : ℕ) (t : Thread)
    → (gate == g) ≡ false
    → update threads gate t g ≡ threads g
update-other threads g gate t other = ground arith

module _ {Stack : Type 0} (l : Loader Stack) (on_throw : Error → Outcome Label) (g : ℕ) where
  -- A thread that hangs answers nothing any more.
  hanging_silent :
      (events : List Event) (m : Manager)
      → m.threads g ≡ hanging
      → All (Spares g) events
      → answers_of g (run l on_throw events m).1 ≡ []
  unfolding run step
  hanging_silent [] m e spared = refl
  hanging_silent (registers calls ∷ events) m e spared =
      hanging_silent events _ (start_thread-other calls m.registry m.threads g spared.0 ∙ e)
        spared.1
  hanging_silent (asks gate r ∷ events) m e spared = elim (Bool-cases (gate == g)) [
    | inl same ↦
        rw (ap m.threads ((==_iff gate g).0 same) ∙ e)
          (hanging_silent events _ (update-same m.threads g gate hanging same) spared.1)
    | inr other ↦
        answers_of-other g gate _ _ other
        ∙ hanging_silent events _ (update-other m.threads g gate _ other ∙ e) spared.1
  ]
  hanging_silent (gate_deleted valid gate ∷ events) m e spared =
      hanging_silent events _ (take_irq-Spares valid gate (m.threads gate) m g spared.0 ∙ e)
        spared.1
  hanging_silent (overlaps accesses ∷ events) m e spared =
      hanging_silent events _ (overlap-Spares g accesses (idle m) spared.0 tt ∙ e) spared.1
  hanging_silent (asks_unprintable gate r ∷ events) m e spared = absurd spared.0

  -- One answer, and those that follow: the loop of the thread goes the same way.
  settled_answers :
      (o : Option Answer) (a' : Actions) (gate : ℕ) (events : List Event) (m : Manager)
      (rest : Actions × List Answer)
      → (gate == g) ≡ true
      → m.threads g ≡ settled a' o
      → All (Spares g) events
      → (m.threads g ≡ serving a' → answers_of g (run l on_throw events m).1 ≡ rest.1)
      → answers_of g (tagged gate o ++ (run l on_throw events m).1) ≡ (answered o a' rest).1
  unfolding settled tagged answered
  settled_answers none a' gate events m rest same e spared ih = hanging_silent events m e spared
  settled_answers (some x) a' gate events m rest same e spared ih =
      rw same (ap (λ xs. x ∷ xs) (ih e))

  -- As long as no log message of an exception throws and so ends the manager, whatever the other
  -- clients ask for and whoever registers or leaves, alone or with their accesses interleaved, a client
  -- whose thread serves and that stays connected is answered as if its thread alone ran on its requests,
  -- if no registration hands out its gate again.
  pub answers_isolated :
      (events : List Event) (m : Manager) (a : Actions)
      → m.threads g ≡ serving a
      → All (Spares g) events
      → answers_of g (run l on_throw events m).1
        ≡ (internal_loop l on_throw (requests_of g events) a).1
  unfolding run step serve_request internal_loop
  answers_isolated [] m a e spared = refl
  answers_isolated (registers calls ∷ events) m a e spared =
      answers_isolated events _ a (start_thread-other calls m.registry m.threads g spared.0 ∙ e)
        spared.1
  answers_isolated (asks gate r ∷ events) m a e spared = elim (Bool-cases (gate == g)) [
    | inl same ↦
        let (a', o) = handle l on_throw r a in
        rw (ap m.threads ((==_iff gate g).0 same) ∙ e, same)
          (settled_answers o a' gate events _ _ same (update-same m.threads g gate _ same) spared.1
            (λ e'. answers_isolated events _ a' e' spared.1))
    | inr other ↦
        answers_of-other g gate _ _ other
        ∙ answers_isolated events _ a (update-other m.threads g gate _ other ∙ e) spared.1
        ∙ rw other refl
  ]
  answers_isolated (gate_deleted valid gate ∷ events) m a e spared =
      answers_isolated events _ a (take_irq-Spares valid gate (m.threads gate) m g spared.0 ∙ e)
        spared.1
  answers_isolated (overlaps accesses ∷ events) m a e spared =
      answers_isolated events _ a (overlap-Spares g accesses (idle m) spared.0 tt ∙ e) spared.1
  answers_isolated (asks_unprintable gate r ∷ events) m a e spared = absurd spared.0
