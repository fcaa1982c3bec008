-- ===== src/Invoke/Serve.antt =====
-- The server loop ends with the first message that ends the worker, and keeps what it said.
use mett_eagle.Base.{
  ℕ, ◌%◌, ◌^◌, ◌≡◌, refl, sym, ◌∙◌, subst, inl, inr, Bool, true, false, Option, none, some, arith,
  ◌==◌, if◌then◌else◌, Bytes, c_string, Outcome, returns, Error, Label, >>=-eq-returns, Bool-cases,
}
use mett_eagle.Actions.{Actions}
use mett_eagle.Worker.{Loader, exit_with_value, exit_with_error}
use mett_eagle.Invoke.{
  Config, WorkerMetadata, Message, signal, exit, invoke, Script, quiet, fails, sends, Session,
  op_signal, op_exit, receive_timeout, log_wait, answer_of, invoke_with, dispatch, serve,
  op_action_invoke,
}

-- How a worker ended: with a value and its measurements, or with an error code.
pub data Verdict : Type 0 where
  value : Bytes → WorkerMetadata → Verdict
  error : ℕ → Verdict

-- The messages that end a worker: `exit`, and signal 0.
abbrev pub final? : Message → Option Verdict
final? (signal sig val) = if sig == 0 then some (error (val % 2 ^ 32)) else none
final? (exit v d) = some (value (c_string v) d)
final? (invoke name arg ret_length cfg setup script) = none

abbrev pub or_else : Option Verdict → Option Verdict → Option Verdict
or_else (some v) other = some v
or_else none other = other

-- The first message of a script that ends the worker.
abbrev pub verdict : Script → Option Verdict
verdict (quiet now) = none
verdict (fails now e) = none
verdict (sends now m rest) = or_else (final? m) (verdict rest)

-- The worker's epiface shows a verdict.
abbrev pub Shows : Session → Verdict → Type 0
Shows s (value v d) =
    (s.worker.alive ≡ false)
    × (s.worker.error_exit ≡ false)
    × (s.worker.exit_value ≡ v)
    × (s.metadata ≡ d)
Shows s (error c) =
    (s.worker.alive ≡ false) × (s.worker.error_exit ≡ true) × (s.worker.exit_error ≡ some c)

abbrev pub IsRunning : Session → Type 0
IsRunning s = (s.worker.alive ≡ true) × (s.worker.error_exit ≡ false)

-- What a dispatch does to the session.
abbrev pub Handled : Option Verdict → Session → Session → Type 0
Handled none s s' = s' ≡ s
Handled (some v) s s' = Shows s' v × (s'.waits ≡ s.waits)

module _ {Stack : Type 0} (l : Loader Stack) (on_throw : Error → Outcome Label)
    (actions : Actions) where
  pub dispatch-Handled :
      (m : Message) (s : Session) {s' : Session} {label : Label}
      → IsRunning s
      → dispatch l on_throw actions m s ≡ returns (s', label)
      → Handled (final? m) s s'
  unfolding dispatch op_signal op_exit exit_with_value exit_with_error
  dispatch-Handled (signal sig val) s r h = ground arith
  dispatch-Handled (exit v d) s r h = ground arith
  dispatch-Handled (invoke name arg ret_length cfg setup script) s r h =
      let (answered, _, e) =
        >>=-eq-returns
          (answer_of l on_throw actions (
            invoke_with l (serve l on_throw actions script cfg setup.start_worker true) actions name
              arg ret_length cfg setup))
          _ h in
      cc

  -- The rest of the loop, by what the dispatch did.
  after_dispatch :
      (o w : Option Verdict) (more : Outcome Session) (s s1 s' : Session)
      → IsRunning s
      → Handled o s s1
      → (elim s1.worker.alive [ true ↦ more | false ↦ returns s1 ]) ≡ returns s'
      → (IsRunning s1 → more ≡ returns s' → (v : Verdict) × (w ≡ some v) × Shows s' v)
      → (v : Verdict) × (or_else o w ≡ some v) × Shows s' v
  after_dispatch none w more s s1 s' r e h ih = ih (subst IsRunning (sym e) r) (ground arith)
  after_dispatch (some (value x d)) w more s s1 s' r k h ih = (value x d, refl, ground arith)
  after_dispatch (some (error c)) w more s s1 s' r k h ih = (error c, refl, ground arith)

  -- A loop that returns has ended at the verdict of the script.
  pub serve-Shows :
      (script : Script) (cfg : Config) (start : ℕ) (first : Bool) (s s' : Session)
      → IsRunning s
      → serve l on_throw actions script cfg start first s ≡ returns s'
      → (v : Verdict) × (verdict script ≡ some v) × Shows s' v
  unfolding serve
  serve-Shows (quiet now) cfg start first s s' r h =
      let (t, _, stop) = >>=-eq-returns (receive_timeout cfg start now) _ h in cc
  serve-Shows (fails now e) cfg start first s s' r h =
      let (t, _, stop) = >>=-eq-returns (receive_timeout cfg start now) _ h in cc
  serve-Shows (sends now m rest) cfg start first s s' r h =
      let (t, _, h1) = >>=-eq-returns (receive_timeout cfg start now) _ h in
      let ((s1, label), d, h2) =
        >>=-eq-returns (dispatch l on_throw actions m (log_wait first t s)) _ h1 in
      after_dispatch (final? m) (verdict rest) (serve l on_throw actions rest cfg start false s1)
        (log_wait first t s) s1 s' (unfold log_wait in r)
        (dispatch-Handled m (log_wait first t s) (unfold log_wait in r) d) h2
        (λ r1. serve-Shows rest cfg start false s1 s' r1)

module _ {Stack : Type 0} (l : Loader Stack) (on_throw : Error → Outcome Label)
    (actions : Actions) where
  -- Every invocation that the worker makes is answered: it neither blocks nor stops the loop.
  abbrev pub IsAnswered : Script → Type 0
  IsAnswered (quiet now) = Unit
  IsAnswered (fails now e) = Unit
  IsAnswered (sends now (invoke name arg ret_length cfg setup script) rest) =
      ((label : Label) × (answer_of l on_throw actions
            (op_action_invoke l on_throw actions name arg ret_length cfg setup script)
          ≡ returns label))
      × IsAnswered rest
  IsAnswered (sends now (signal sig val) rest) = IsAnswered rest
  IsAnswered (sends now (exit v d) rest) = IsAnswered rest

  pub while_alive :
      {alive : Bool} {more : Outcome Session} (stopped : Outcome Session)
      → alive ≡ true
      → (elim alive [ true ↦ more | false ↦ stopped ]) ≡ more
  while_alive stopped e = ground arith

  -- With no time limit, the loop returns as soon as a worker ends whose own invocations are answered.
  pub serve_returns :
      (script : Script) (cfg : Config) (start : ℕ) (first : Bool) (s : Session) (v : Verdict)
      → cfg.timeout_us ≡ 0
      → IsRunning s
      → IsAnswered script
      → verdict script ≡ some v
      → (s' : Session) × (serve l on_throw actions script cfg start first s ≡ returns s')
  unfolding serve dispatch op_signal op_exit exit_with_value exit_with_error receive_timeout
      log_wait op_action_invoke
  serve_returns (quiet now) cfg start first s v z r p e = cc
  serve_returns (fails now x) cfg start first s v z r p e = cc
  serve_returns (sends now (invoke a b c d f g) rest) cfg start first s v z r p e =
      let (s', h) = serve_returns rest cfg start false (log_wait first none s) v z r p.1 e in
      (s', rw (p.0.1, z) (while_alive _ r.0 ∙ h))
  serve_returns (sends now (exit x d) rest) cfg start first s v z r p e =
      ((op_exit x d (log_wait first none s)).0, ground arith)
  serve_returns (sends now (signal sig val) rest) cfg start first s v z r p e =
      elim (Bool-cases (sig == 0)) [
        | inl stop ↦ ((op_signal sig val (log_wait first none s)).0, ground arith)
        | inr more ↦
            let (s', h) =
              serve_returns rest cfg start false (log_wait first none s) v z r p (ground arith) in
            (s', ground arith)
      ]
