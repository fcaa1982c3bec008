-- ===== src/Faas/Delivery.antt =====
-- From the function in the worker to the client: the wrapper, the manager's server loop, and the
-- client's call together.
use mett_eagle.Base.{
  ℕ, ◌%◌, ◌^◌, ◌≡◌, ◌<◌, refl, ◌∙◌, [], ◌∷◌, ◌++◌, Option, none, some, arith, length, Bytes,
  c_string, c_string-IsCString, c_string_of_IsCString, IsCString, Error, efault, Label, Outcome,
  returns, throws, blocks,
}
use mett_eagle.Actions.{Actions}
use mett_eagle.Worker.{Loader}
use mett_eagle.Invoke.{Config, Setup, Prepared, prepare, op_action_invoke}
use mett_eagle.Invoke.Serve.{Verdict, value, error, verdict, IsAnswered}
use mett_eagle.Invoke.Answer.{reply_for, told, invoke_told}
use mett_eagle.Faas.{
  Thrown, Body, answers, raises, Code, dead, catch_code, Run, native_times, native_main, script_of,
  read_answer,
}

-- What the manager makes of a run.
abbrev pub outcome_of : (Code → ℕ) → Run → Option Verdict
outcome_of word run = elim run.exit_call [
  | some (v, times) ↦ some (value (c_string v) times)
  | none ↦ elim run.code [ none ↦ none | some c ↦ some (error (word c % 2 ^ 32)) ]
]

pub verdict-script_of :
    (word : Code → ℕ) (now : ℕ) (run : Run) → verdict (script_of word now run) ≡ outcome_of word run
unfolding script_of
verdict-script_of word now run = ground arith

pub script_of-IsAnswered :
    {Stack : Type 0} (l : Loader Stack) (on_throw : Error → Outcome Label) (actions : Actions)
    (word : Code → ℕ) (now : ℕ) (run : Run)
    → IsAnswered l on_throw actions (script_of word now run)
unfolding script_of
script_of-IsAnswered l on_throw actions word now run = ground arith

-- A text behind which a zero byte is put reads back as it is.
pub c_string-append_zero : (s : Bytes) → IsCString s → c_string (s ++ 0 ∷ []) ≡ s
c_string-append_zero [] h = refl
c_string-append_zero (x ∷ xs) h = ground (arith, c_string-append_zero xs h.1)

pub c_string-c_string : (s : Bytes) → c_string (c_string s) ≡ c_string s
c_string-c_string s = c_string_of_IsCString (c_string s) (c_string-IsCString s)

module _ {Stack : Type 0} (l : Loader Stack) (on_throw : Error → Outcome Label) (actions : Actions)
    (name arg : Bytes) (ret_length : ℕ) (cfg : Config) (setup : Setup) (p : Prepared)
    (ready : prepare l actions name arg cfg setup ≡ returns p) (unlimited : cfg.timeout_us ≡ 0)
    (word : Code → ℕ) (now : ℕ) where
  pub run_told :
      (run : Run) (v : Verdict)
      → outcome_of word run ≡ some v
      → op_action_invoke l on_throw actions name arg ret_length cfg setup (script_of word now run)
        ≡ told ret_length setup v
  run_told run v e =
      invoke_told l on_throw actions name arg ret_length cfg setup (script_of word now run) p v
        ready unlimited (script_of-IsAnswered l on_throw actions word now run)
        (verdict-script_of word now run ∙ e)

  -- Round trip: without a time limit, if the worker could be started and the text that the function
  -- returns fits, the client's call of an action written in C++ returns that text, up to its first
  -- zero byte.
  pub native_answer_delivered :
      (function : Bytes → Body) (before after : ℕ) (ret : Bytes)
      → function (c_string arg) ≡ answers ret
      → length (c_string ret) < ret_length
      → (op_action_invoke l on_throw actions name arg ret_length cfg setup
            (script_of word now (native_main function 1 (c_string arg) before after blocks))
          ≡ returns (reply_for setup (c_string ret) (native_times before after)))
        × (read_answer (c_string ret) 0 ≡ returns (c_string ret))
  unfolding native_main read_answer
  native_answer_delivered function before after ret e fits = (
    run_told (native_main function 1 (c_string arg) before after blocks)
          (value (c_string (c_string ret)) (native_times before after)) (rw (e, native_main) refl)
        ∙ ground (arith, c_string-c_string ret),
    ground (arith, c_string-append_zero (c_string ret) (c_string-IsCString ret)),
  )

  -- Without a time limit, if the worker could be started, a function written in C++ that throws,
  -- whatever it throws, fails the invocation with -L4_EFAULT; its own error number does not reach
  -- the client.
  pub native_error_fails :
      (function : Bytes → Body) (before after : ℕ) (t : Thrown) (exit_rpc : Outcome (Unit {0}))
      → function (c_string arg) ≡ raises t
      → op_action_invoke l on_throw actions name arg ret_length cfg setup
          (script_of word now (native_main function 1 (c_string arg) before after exit_rpc))
        ≡ throws efault
  unfolding native_main
  native_error_fails function before after t exit_rpc e =
      run_told (native_main function 1 (c_string arg) before after exit_rpc)
        (error (word (catch_code dead t) % 2 ^ 32)) (rw (e, native_main) refl)
      ∙ refl
