-- ===== src/Faas.antt =====
-- libfaas: the wrappers that run a serverless function inside a worker (lib/src/wrapper.cc,
-- python2.7/src/wrapper.cc, python3/src/wrapper.cc), its client calls (include/faas,
-- python2.7/src/py-faas-lib.cc) and the utility of mett-eagle/include/base that they use.
-- The interpreter of Python is a parameter, by what its calls return.
pub mod Functions
pub mod Delivery
pub mod Python
pub mod Chain
use mett_eagle.Base.{
  ℕ, ◌-◌, ◌/◌, Bool, true, false, not, ◌++◌, List, [], ◌∷◌, Option, none, some, ◌==◌, if◌then◌else◌,
  Bytes, bytes, c_string, Error, einval, efault, enomem, emsgtoolong, Outcome, returns, throws,
  blocks, throw_if, ◌>>=◌, ◌>>◌,
}
use mett_eagle.Invoke.{WorkerMetadata, no_metadata, Message, signal, exit, Script, sends, quiet}

-- What code throws: the exceptions with an error number, or anything else.
pub data Thrown : Type 0 where
  loggable runtime : Error → Thrown
  unknown : Thrown

-- How a function ends.
pub data Body : Type 0 where
  answers : Bytes → Body
  raises : Thrown → Body

-- What `main` returns: an error number, or -0xDEAD.
pub data Code : Type 0 where
  number : Error → Code
  dead : Code

-- A run of the wrapper: the exit call that it makes, and the code that `main` returns, if it does.
pub record Run : Type 0 where
  pub exit_call : Option (Bytes × WorkerMetadata)
  pub code : Option Code

-- The catch blocks of `main`; the last one differs between the wrappers.
pub catch_code : Code → Thrown → Code
catch_code otherwise (loggable e) = number e
catch_code otherwise (runtime e) = number e
catch_code otherwise unknown = otherwise

-- After `exit`: no answer comes if the manager has taken the value; an error is thrown; and what
-- stands behind the call is not meant to be reached.
after_exit : Code → Outcome (Unit {0}) → Option Code
after_exit reached blocks = none
after_exit reached (throws e) = some (number e)
after_exit reached (returns _) = some reached

-- The same where what stands behind the call is undefined: the manager never answers `exit`.
after_exit_only : Option Error → Option Code
after_exit_only none = none
after_exit_only (some e) = some (number e)

pub native_times : ℕ → ℕ → WorkerMetadata
native_times before after = record {
  start_runtime = before;
  start_function = before;
  end_function = after;
  end_runtime = after;
}

run_body : WorkerMetadata → Outcome (Unit {0}) → Body → Run
run_body times exit_rpc (answers ret) = record {
  exit_call = some (c_string ret, times);
  code = after_exit (number efault) exit_rpc;
}
run_body times exit_rpc (raises t) = record { exit_call = none; code = some (catch_code dead t) }

-- `main` of lib/src/wrapper.cc, around the function `Main`.
unfoldable pub native_main : (Bytes → Body) → ℕ → Bytes → ℕ → ℕ → Outcome (Unit {0}) → Run
unfolding run_body after_exit catch_code native_times
native_main function argc arg before after exit_rpc =
    if argc == 1
    then run_body (native_times before after) exit_rpc (function arg)
    else record { exit_call = none; code = some (number einval) }

-- How the call of the Python function ends: it fails with NULL, its result is no string, for which
-- PyString_AsString gives NULL, or it is a string: the text that stands behind the pointer to it, and
-- the text that stands there when the pointer is read after Py_XDECREF.
pub data Called : Type 0 where
  failed no_string : Called
  string : Bytes → Bytes → Called

-- What the interpreter of Python returns.
pub record Interpreter : Type 0 where
  pub module_made : Bool
  pub main_found : Bool
  pub main_callable : Bool
  pub arg_converted : Bool
  pub call : Called

-- `none` is NULL; otherwise the text that the pointer leads to when it is read.
unfoldable pub invoke_python_main : Interpreter → Outcome (Option Bytes)
invoke_python_main py = do
  throw_if (not py.module_made) einval
  throw_if (not py.main_found) einval
  throw_if (not py.main_callable) einval
  throw_if (not py.arg_converted) einval
  returns (elim py.call [ failed ↦ some [] | no_string ↦ none | string made read ↦ some read ])

-- `on_null` is what becomes of `exit (nullptr, ...)`, which the framework marshals.
python_answer : WorkerMetadata → Option Error → Run → Outcome (Option Bytes) → Run
python_answer times exit_rpc on_null (returns none) = on_null
python_answer times exit_rpc on_null (returns (some answer)) = record {
  exit_call = some (c_string answer, times);
  code = after_exit_only exit_rpc;
}
python_answer times exit_rpc on_null (throws e) = record {
  exit_call = none;
  code = some (number e);
}
python_answer times exit_rpc on_null blocks = record { exit_call = none; code = none }

-- `main` of python2.7/src/wrapper.cc; `function_cap` tells whether the script was passed.
unfoldable pub python2_main : ℕ → Bool → Interpreter → WorkerMetadata → Option Error → Run → Run
unfolding python_answer after_exit_only invoke_python_main
python2_main argc function_cap py times exit_rpc on_null =
    if not (argc == 1)
    then record { exit_call = none; code = some (number einval) }
    else if not function_cap
    then record { exit_call = none; code = some (number enomem) }
    else python_answer times exit_rpc on_null (invoke_python_main py)

-- What `invoke_python_main` of python3/src/wrapper.cc prints; it returns nothing.
pub data Printed : Type 0 where
  failed_to_load cannot_find_function call_failed result_of_null : Printed
  result_of_call : Bytes → Printed

unfoldable pub invoke_python3_main : Interpreter → Printed
invoke_python3_main py =
    if not py.module_made
    then failed_to_load
    else if not py.main_found
    then cannot_find_function
    else if not py.main_callable
    then cannot_find_function
    else (elim py.call [
      | failed ↦ call_failed
      | no_string ↦ result_of_null
      | string made read ↦ result_of_call made
    ])

-- `main` of python3/src/wrapper.cc: what is printed, and the run.
unfoldable pub python3_main : ℕ → Bool → Interpreter → Option Error → Option Printed × Run
unfolding after_exit_only invoke_python3_main
python3_main argc function_cap py exit_rpc =
    if not (argc == 1)
    then (none, record { exit_call = none; code = some (number einval) })
    else if not function_cap
    then (none, record { exit_call = none; code = some (number enomem) })
    else (
      some (invoke_python3_main py),
      record {
        exit_call = some (bytes "some return string", no_metadata);
        code = after_exit_only exit_rpc;
      },
    )

-- What the manager sees of a run: the exit call, and the signal 0 that the C library sends when `main`
-- returns. `word` is the code as an unsigned word.
last_message : (Code → ℕ) → ℕ → Option Code → Script
last_message word now none = quiet now
last_message word now (some c) = sends now (signal 0 (word c)) (quiet now)

unfoldable pub script_of : (Code → ℕ) → ℕ → Run → Script
unfolding last_message
script_of word now run = elim run.exit_call [
  | some (value, times) ↦ sends now (exit value times) (last_message word now run.code)
  | none ↦ last_message word now run.code
]

-- The check of `Manager_Base::action_invoke` on the answer, given by its last byte and those before.
unfoldable pub read_answer : Bytes → ℕ → Outcome Bytes
read_answer front last = do
  throw_if (not (last == 0)) emsgtoolong
  returns (c_string (front ++ last ∷ []))

-- `L4Re::Faas::invoke`, by the answer of the manager: its bytes, or the error.
unfoldable pub invoke : Outcome (Bytes × ℕ) → Outcome Bytes
unfolding read_answer
invoke answer = do received ← answer; read_answer received.0 received.1

-- `faas_action_invoke`: `none` is NULL. The arguments have to be two strings.
unfoldable pub faas_action_invoke :
    Option (Bytes × Bytes) → (Bytes → Bytes → Outcome (Bytes × ℕ)) → Outcome (Option Bytes)
unfolding invoke
faas_action_invoke none call = returns none
faas_action_invoke (some (name, arg)) call = do
  ret ← invoke (call name arg)
  returns (some (c_string ret))
