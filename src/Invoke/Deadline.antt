-- ===== src/Invoke/Deadline.antt =====
-- The time limit of a whole invocation.
use mett_eagle.Base.{
  ℕ, ◌+◌, ◌*◌, ◌-◌, ◌/◌, ◌%◌, ◌^◌, ◌≡◌, ◌≢◌, refl, sym, ◌∙◌, Bool, true, false, ◌||◌, ◌==◌, List,
  [], ◌∷◌, Option, none, some, arith, leb, Bytes, Outcome, returns, throws, efault, Error, Label,
  >>=-eq-returns, Bool-cases, inl, inr, subst,
}
use mett_eagle.Actions.{Actions}
use mett_eagle.Worker.{Loader, exit_with_value, exit_with_error}
use mett_eagle.Invoke.{
  Config, signal, exit, invoke, Setup, Script, quiet, fails, sends, Session, Reply, Prepared,
  prepare, begin, check_timeout, receive_timeout, log_wait, invoke_with, op_signal, op_exit,
  dispatch, serve, op_action_invoke,
}
use mett_eagle.Invoke.Serve.{
  Verdict, final?, Handled, IsRunning, IsAnswered, dispatch-Handled, while_alive,
}
use mett_eagle.Invoke.Answer.{prepare-IsRunning}

abbrev pub until_final : Option Verdict → List ℕ → List ℕ
until_final (some v) later = []
until_final none later = later

-- The times at which the manager waits, up to the wait that receives the message that ends the worker.
abbrev pub wait_times : Script → List ℕ
wait_times (quiet now) = now ∷ []
wait_times (fails now e) = now ∷ []
wait_times (sends now m rest) = now ∷ until_final (final? m) (wait_times rest)

-- One of these times is a microsecond or more behind the deadline.
abbrev pub any_late : ℕ → List ℕ → Bool
any_late deadline [] = false
any_late deadline (now ∷ times) = leb (deadline + 1000) now || any_late deadline times

-- A wait begins in time, or its timeout throws.
receive_timeout-late :
    (cfg : Config) (start now : ℕ)
    → cfg.timeout_us ≢ 0
    → leb (start + 1000 * cfg.timeout_us + 1000) now ≡ true
    → receive_timeout cfg start now ≡ throws efault
unfolding receive_timeout check_timeout
receive_timeout-late cfg start now limited late = ground arith

receive_timeout-returns :
    (cfg : Config) (start now : ℕ)
    → cfg.timeout_us ≢ 0
    → leb (start + 1000 * cfg.timeout_us + 1000) now ≡ false
    → (t : Option ℕ) × (receive_timeout cfg start now ≡ returns t)
unfolding receive_timeout check_timeout
receive_timeout-returns cfg start now limited early = elim (Bool-cases (leb start now)) [
  | inl forwards ↦ (some ((cfg.timeout_us - (now - start) / 1000) % 2 ^ 32), ground arith)
  | inr backwards ↦ (some ((cfg.timeout_us + (start - now) / 1000) % 2 ^ 32), ground arith)
]

late_or_later :
    (deadline now : ℕ) (times : List ℕ)
    → leb (deadline + 1000) now ≡ false
    → any_late deadline (now ∷ times) ≡ true
    → any_late deadline times ≡ true
late_or_later deadline now times early late = cc

only_late :
    (deadline now : ℕ) → any_late deadline (now ∷ []) ≡ true → leb (deadline + 1000) now ≡ true
only_late deadline now late = ground arith

module _ {Stack : Type 0} (l : Loader Stack) (on_throw : Error → Outcome Label)
    (actions : Actions) where
  serve-late :
      (script : Script) (cfg : Config) (start : ℕ) (first : Bool) (s : Session)
      → cfg.timeout_us ≢ 0
      → IsRunning s
      → IsAnswered l on_throw actions script
      → any_late (start + 1000 * cfg.timeout_us) (wait_times script) ≡ true
      → serve l on_throw actions script cfg start first s ≡ throws efault
  unfolding serve dispatch op_signal op_exit exit_with_value exit_with_error log_wait
      op_action_invoke
  serve-late (quiet now) cfg start first s limited r p late =
      rw (receive_timeout-late cfg start now limited (only_late _ now late)) refl
  serve-late (fails now e) cfg start first s limited r p late =
      rw (receive_timeout-late cfg start now limited (only_late _ now late)) refl
  serve-late (sends now (exit x d) rest) cfg start first s limited r p late =
      rw (receive_timeout-late cfg start now limited (only_late _ now late)) refl
  serve-late (sends now (signal sig val) rest) cfg start first s limited r p late =
      elim (Bool-cases (leb (start + 1000 * cfg.timeout_us + 1000) now)) [
        | inl now_late ↦ rw (receive_timeout-late cfg start now limited now_late) refl
        | inr early ↦
            let (t, e) = receive_timeout-returns cfg start now limited early in
            elim (Bool-cases (sig == 0)) [
              | inl stop ↦ absurd (ground arith)
              | inr more ↦
                  let ih =
                    serve-late rest cfg start false (log_wait first t s) limited r p
                      (late_or_later _ now (wait_times rest) early (ground arith)) in
                  rw (e, more) (while_alive l on_throw actions _ r.0 ∙ ih)
            ]
      ]
  serve-late (sends now (invoke a b c d f g) rest) cfg start first s limited r p late =
      elim (Bool-cases (leb (start + 1000 * cfg.timeout_us + 1000) now)) [
        | inl now_late ↦ rw (receive_timeout-late cfg start now limited now_late) refl
        | inr early ↦
            let (t, e) = receive_timeout-returns cfg start now limited early in
            let ih =
              serve-late rest cfg start false (log_wait first t s) limited r p.1
                (late_or_later _ now (wait_times rest) early late) in
            rw (e, p.0.1) (while_alive l on_throw actions _ r.0 ∙ ih)
      ]

  after_timely :
      (o : Option Verdict) (deadline : ℕ) (times : List ℕ) (more : Outcome Session)
      (s s1 s' : Session)
      → IsRunning s
      → Handled o s s1
      → (elim s1.worker.alive [ true ↦ more | false ↦ returns s1 ]) ≡ returns s'
      → (IsRunning s1 → more ≡ returns s' → any_late deadline times ≡ false)
      → any_late deadline (until_final o times) ≡ false
  after_timely (some v) deadline times more s s1 s' r k h ih = refl
  after_timely none deadline times more s s1 s' r e h ih =
      ih (subst IsRunning (sym e) r) (ground arith)

  timely_or_throws :
      (cfg : Config) (start now : ℕ) {t : Option ℕ}
      → cfg.timeout_us ≢ 0
      → receive_timeout cfg start now ≡ returns t
      → leb (start + 1000 * cfg.timeout_us + 1000) now ≡ false
  timely_or_throws cfg start now limited e =
      elim (Bool-cases (leb (start + 1000 * cfg.timeout_us + 1000) now)) [
        | inl late ↦ let thrown = receive_timeout-late cfg start now limited late in cc
        | inr early ↦ early
      ]

  serve-timely :
      (script : Script) (cfg : Config) (start : ℕ) (first : Bool) (s s' : Session)
      → cfg.timeout_us ≢ 0
      → IsRunning s
      → serve l on_throw actions script cfg start first s ≡ returns s'
      → any_late (start + 1000 * cfg.timeout_us) (wait_times script) ≡ false
  unfolding serve
  serve-timely (quiet now) cfg start first s s' limited r h =
      let (t, _, stop) = >>=-eq-returns (receive_timeout cfg start now) _ h in cc
  serve-timely (fails now e) cfg start first s s' limited r h =
      let (t, _, stop) = >>=-eq-returns (receive_timeout cfg start now) _ h in cc
  serve-timely (sends now m rest) cfg start first s s' limited r h =
      let (t, e, h1) = >>=-eq-returns (receive_timeout cfg start now) _ h in
      let ((s1, label), d, h2) =
        >>=-eq-returns (dispatch l on_throw actions m (log_wait first t s)) _ h1 in
      let later =
        after_timely (final? m) (start + 1000 * cfg.timeout_us) (wait_times rest)
          (serve l on_throw actions rest cfg start false s1) (log_wait first t s) s1 s'
          (unfold log_wait in r)
          (dispatch-Handled l on_throw actions m (log_wait first t s) (unfold log_wait in r) d) h2
          (λ r1. serve-timely rest cfg start false s1 s' limited r1) in
      rw (timely_or_throws cfg start now limited e) later

module _ {Stack : Type 0} (l : Loader Stack) (on_throw : Error → Outcome Label) (actions : Actions)
    (name arg : Bytes) (ret_length : ℕ) (cfg : Config) (setup : Setup) (script : Script) where
  abbrev pub is_late : Bool
  is_late = any_late (setup.start_worker + 1000 * cfg.timeout_us) (wait_times script)

  -- If the caller sets a time limit, an invocation that returns has begun every wait for its worker,
  -- up to the one that received the final message, less than a microsecond after the deadline, the
  -- start of the worker plus the limit. If one of these waits begins later, and the worker could be
  -- started and each invocation that it makes itself is answered, the invocation throws -L4_EFAULT.
  pub deadline :
      (limited : cfg.timeout_us ≢ 0)
      → ((reply : Reply)
          → op_action_invoke l on_throw actions name arg ret_length cfg setup script ≡ returns reply
          → is_late ≡ false)
        × ((p : Prepared)
            → prepare l actions name arg cfg setup ≡ returns p
            → IsAnswered l on_throw actions script
            → is_late ≡ true
            → op_action_invoke l on_throw actions name arg ret_length cfg setup script
              ≡ throws efault)
  unfolding op_action_invoke invoke_with
  deadline limited = (
    λ reply h.
        let (p, ep, h1) = >>=-eq-returns (prepare l actions name arg cfg setup) _ h in
        let (s, es, h2) =
          >>=-eq-returns (serve l on_throw actions script cfg setup.start_worker true (begin l p)) _
            h1 in
        serve-timely l on_throw actions script cfg setup.start_worker true (begin l p) s limited
          (prepare-IsRunning l actions name arg cfg setup p ep) es,
    λ p ep plain late.
        rw
          (
            ep,
            serve-late l on_throw actions script cfg setup.start_worker true (begin l p) limited
                (prepare-IsRunning l actions name arg cfg setup p ep) plain late,
          )
          refl,
  )
