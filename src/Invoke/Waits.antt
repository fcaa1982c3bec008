-- ===== src/Invoke/Waits.antt =====
-- The receive timeouts that the server loop gives to the kernel.
use mett_eagle.Base.{
  ℕ, ◌≡◌, refl, sym, ◌∙◌, ap, subst, Bool, true, false, List, [], ◌∷◌, ◌++◌, Option, none, arith,
  if◌then◌else◌, Outcome, returns, Error, Label, >>=-eq-returns, All, All-append,
}
use mathlib.Core.List.{append_assoc}
use mett_eagle.Actions.{Actions}
use mett_eagle.Worker.{Loader}
use mett_eagle.Invoke.{
  Config, Message, signal, exit, invoke, Script, quiet, fails, sends, Session, op_signal, op_exit,
  receive_timeout, log_wait, answer_of, invoke_with, dispatch, serve,
}

-- The clock at the first wait.
abbrev pub first_clock : Script → ℕ
first_clock (quiet now) = now
first_clock (fails now e) = now
first_clock (sends now m rest) = now

abbrev pub IsNever : Option ℕ → Type 0
IsNever t = t ≡ none

-- Some timeouts were added in front, each L4_IPC_TIMEOUT_NEVER.
abbrev pub AddsNever : List (Option ℕ) → List (Option ℕ) → Type 0
AddsNever old new = (ws : List (Option ℕ)) × (new ≡ ws ++ old) × All IsNever ws

module _ {Stack : Type 0} (l : Loader Stack) (on_throw : Error → Outcome Label)
    (actions : Actions) where
  dispatch-waits :
      (m : Message) (s s' : Session) {label : Label}
      → dispatch l on_throw actions m s ≡ returns (s', label)
      → s'.waits ≡ s.waits
  unfolding dispatch op_signal op_exit
  dispatch-waits (signal sig val) s s' h = ground arith
  dispatch-waits (exit v d) s s' h = ground arith
  dispatch-waits (invoke name arg ret_length cfg setup script) s s' h =
      let (answered, _, e) =
        >>=-eq-returns
          (answer_of l on_throw actions (
            invoke_with l (serve l on_throw actions script cfg setup.start_worker true) actions name
              arg ret_length cfg setup))
          _ h in
      cc

  -- One round, then the rest of the loop.
  adds_round :
      (alive : Bool) (more : Outcome Session) (s1 s' : Session) (old : List (Option ℕ))
      → s1.waits ≡ old
      → (elim alive [ true ↦ more | false ↦ returns s1 ]) ≡ returns s'
      → (more ≡ returns s' → AddsNever s1.waits s'.waits)
      → AddsNever old s'.waits
  adds_round true more s1 s' old e h ih = subst (λ w. AddsNever w s'.waits) e (ih h)
  adds_round false more s1 s' old e h ih = ([], ground arith, tt)

  serve_round :
      (now : ℕ) (m : Message) (rest : Script) (cfg : Config) (start : ℕ) (first : Bool)
      (s s' : Session)
      → ((s1 : Session)
          → serve l on_throw actions rest cfg start false s1 ≡ returns s'
          → AddsNever s1.waits s'.waits)
      → serve l on_throw actions (sends now m rest) cfg start first s ≡ returns s'
      → (t : Option ℕ) × (receive_timeout cfg start now ≡ returns t)
        × AddsNever ((if first then t else none) ∷ s.waits) s'.waits
  unfolding serve log_wait
  serve_round now m rest cfg start first s s' ih h =
      let (t, et, h1) = >>=-eq-returns (receive_timeout cfg start now) _ h in
      let ((s1, label), d, h2) =
        >>=-eq-returns (dispatch l on_throw actions m (log_wait first t s)) _ h1 in
      (
        t,
        et,
        adds_round s1.worker.alive (serve l on_throw actions rest cfg start false s1) s1 s' _
            (dispatch-waits m (log_wait first t s) s1 d) h2 (ih s1),
      )

  later_waits :
      (script : Script) (cfg : Config) (start : ℕ) (s s' : Session)
      → serve l on_throw actions script cfg start false s ≡ returns s'
      → AddsNever s.waits s'.waits
  unfolding serve
  later_waits (quiet now) cfg start s s' h =
      let (t, _, stop) = >>=-eq-returns (receive_timeout cfg start now) _ h in cc
  later_waits (fails now e) cfg start s s' h =
      let (t, _, stop) = >>=-eq-returns (receive_timeout cfg start now) _ h in cc
  later_waits (sends now m rest) cfg start s s' h =
      let (t, _, (ws, e, all)) =
        serve_round now m rest cfg start false s s' (λ s1. later_waits rest cfg start s1 s') h in
      (
        ws ++ none ∷ [],
        e ∙ sym (append_assoc ws (none ∷ []) s.waits),
        All-append IsNever ws (none ∷ []) all (refl, tt),
      )

  -- However the caller limits the time, a loop that returns has given the kernel, for its first wait,
  -- the timeout that was computed at the clock of that wait, and for all later waits
  -- L4_IPC_TIMEOUT_NEVER.
  pub only_first_wait_limited :
      (script : Script) (cfg : Config) (start : ℕ) (s s' : Session)
      → s.waits ≡ []
      → serve l on_throw actions script cfg start true s ≡ returns s'
      → (ws : List (Option ℕ)) × (t : Option ℕ) × (receive_timeout cfg start (first_clock script)
          ≡ returns t)
        × (s'.waits ≡ ws ++ t ∷ [])
        × All IsNever ws
  unfolding serve
  only_first_wait_limited (quiet now) cfg start s s' z h =
      let (t, _, stop) = >>=-eq-returns (receive_timeout cfg start now) _ h in cc
  only_first_wait_limited (fails now e) cfg start s s' z h =
      let (t, _, stop) = >>=-eq-returns (receive_timeout cfg start now) _ h in cc
  only_first_wait_limited (sends now m rest) cfg start s s' z h =
      let (t, computed, (ws, e, all)) =
        serve_round now m rest cfg start true s s' (λ s1. later_waits rest cfg start s1 s') h in
      (ws, t, computed, e ∙ ap (λ old. ws ++ t ∷ old) z, all)
