-- ===== src/Faas/Python.antt =====
-- From a Python function in the worker to the client.
use mett_eagle.Base.{
  ℕ, ◌≡◌, ◌<◌, refl, ◌∙◌, true, [], none, arith, length, Bytes, c_string, Error, Label, Outcome,
  returns,
}
use mett_eagle.Actions.{Actions}
use mett_eagle.Worker.{Loader}
use mett_eagle.Invoke.{Config, WorkerMetadata, Setup, Prepared, prepare, op_action_invoke}
use mett_eagle.Invoke.Serve.{value}
use mett_eagle.Invoke.Answer.{reply_for}
use mett_eagle.Faas.{
  Called, failed, no_string, string, Code, Run, Interpreter, script_of, invoke_python_main,
  python2_main,
}
use mett_eagle.Faas.Delivery.{run_told, c_string-c_string}

-- The script was interpreted, and its `main` can be called.
pub record IsCallable (py : Interpreter) : Type 0 where
  pub module_made : py.module_made ≡ true
  pub main_found : py.main_found ≡ true
  pub main_callable : py.main_callable ≡ true
  pub arg_converted : py.arg_converted ≡ true

-- The text that the client gets, by how the call ends.
abbrev pub returned : Called → Bytes
returned failed = []
returned no_string = []
returned (string made read) = c_string made

-- The call fails, or gives a string that is not freed before it is sent.
abbrev pub IsKept : Called → Type 0
IsKept failed = Unit
IsKept no_string = ⊥
IsKept (string made read) = read ≡ made

module _ {Stack : Type 0} (l : Loader Stack) (on_throw : Error → Outcome Label) (actions : Actions)
    (name arg : Bytes) (ret_length : ℕ) (cfg : Config) (setup : Setup) (p : Prepared)
    (ready : prepare l actions name arg cfg setup ≡ returns p) (unlimited : cfg.timeout_us ≡ 0)
    (word : Code → ℕ) (now : ℕ) (py : Interpreter) (on_null : Run) where
  delivered :
      (times : WorkerMetadata) (called : Called)
      → IsCallable py
      → py.call ≡ called
      → IsKept called
      → length (returned called) < ret_length
      → op_action_invoke l on_throw actions name arg ret_length cfg setup
          (script_of word now (python2_main 1 true py times none on_null))
        ≡ returns (reply_for setup (returned called) times)
  unfolding python2_main invoke_python_main
  delivered times failed c e kept room =
      run_told l on_throw actions name arg ret_length cfg setup p ready unlimited word now
        (python2_main 1 true py times none on_null) (value [] times)
        (rw
          (
            c.module_made, c.main_found, c.main_callable, c.arg_converted, e, python2_main,
            invoke_python_main,
          )
          refl)
      ∙ ground arith
  delivered times no_string c e kept room = absurd kept
  delivered times (string made read) c e kept fits =
      run_told l on_throw actions name arg ret_length cfg setup p ready unlimited word now
        (python2_main 1 true py times none on_null) (value (c_string (c_string made)) times)
        (rw
          (
            c.module_made, c.main_found, c.main_callable, c.arg_converted, e, kept, python2_main,
            invoke_python_main,
          )
          refl)
      ∙ ground (arith, c_string-c_string made)

  -- Without a time limit, if the worker could be started, the script has a `main` that can be called,
  -- its call fails or gives a string that is not freed before it is sent, and the text fits, the
  -- manager answers the client with the worker's times and with a text: the string that the function
  -- returned, up to its first zero byte, and the empty text if the call failed, by an exception for
  -- instance, so that the client cannot tell a failure from a function that returned an empty string.
  pub python2_delivered :
      (times : WorkerMetadata)
      → IsCallable py
      → IsKept py.call
      → length (returned py.call) < ret_length
      → op_action_invoke l on_throw actions name arg ret_length cfg setup
          (script_of word now (python2_main 1 true py times none on_null))
        ≡ returns (reply_for setup (returned py.call) times)
  python2_delivered times c kept fits = delivered times py.call c refl kept fits
