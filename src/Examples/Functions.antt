-- ===== src/Examples/Functions.antt =====
-- Functions from the worker to the client: libfaas and the manager.
use mett_eagle.Base.{
  ℕ, ◌≡◌, refl, true, false, ◌∷◌, [], none, some, arith, Bytes, bytes, returns, blocks,
}
use mett_eagle.Invoke.{
  Prepared, prepare, sends, unlimited, op_action_invoke, invoke_with, finish, serve,
  receive_timeout, log_wait, no_metadata,
}
use mett_eagle.Invoke.Answer.{reply_for}
use mett_eagle.Faas.{
  Body, answers, raises, Run, Code, failed, string, Interpreter, unknown, native_times, native_main,
  script_of, read_answer, python2_main, python3_main,
}
use mett_eagle.Faas.Functions.{faults, function2, function3, function11}
use mett_eagle.Actions.{Actions, binary}
use mett_eagle.Faas.Chain.{call_function1, function2_delivered}
use mett_eagle.Faas.Delivery.{native_answer_delivered}
use mett_eagle.Faas.Python.{IsCallable, python2_delivered}
use mett_eagle.Examples.Workers.{list_loader}
use mett_eagle.Examples.Invocations.{
  all_good, registered, no_limits, times, through, started_f2, prepare_f2_free,
}

-- Every error is the word 1.
abbrev one : Code → ℕ
one c = 1

abbrev greet : Bytes → Body
greet arg = answers (bytes "hi")

native_answer_delivered_example :
    (op_action_invoke list_loader through registered
        (bytes "f2")
        (bytes "x")
        4
        no_limits
        all_good
        (script_of one 9000 (native_main greet 1 (bytes "x") 2000 3000 blocks))
      ≡ returns (reply_for all_good (bytes "hi") (native_times 2000 3000)))
    × (read_answer (bytes "hi") 0 ≡ returns (bytes "hi"))
native_answer_delivered_example =
    native_answer_delivered list_loader through registered (bytes "f2") (bytes "x") 4 no_limits
      all_good (record started_f2 { allocator = unlimited }) prepare_f2_free refl one 9000 greet
      2000 3000 (bytes "hi") refl (omega arith)

-- Scripts whose `main` returns "ok", and raises an exception.
abbrev good_script : Interpreter
good_script = record {
  module_made = true;
  main_found = true;
  main_callable = true;
  arg_converted = true;
  call = string (bytes "ok") (bytes "ok");
}

abbrev nothing_sent : Run
nothing_sent = record { exit_call = none; code = none }

abbrev raising_script : Interpreter
raising_script = record good_script { call = failed }

good_script-IsCallable : IsCallable good_script
good_script-IsCallable = record {
  module_made = refl;
  main_found = refl;
  main_callable = refl;
  arg_converted = refl;
}

python2_delivered_example :
    op_action_invoke list_loader through registered
      (bytes "f2")
      (bytes "x")
      4
      no_limits
      all_good
      (script_of one 9000 (python2_main 1 true good_script times none nothing_sent))
    ≡ returns (reply_for all_good (bytes "ok") times)
python2_delivered_example =
    python2_delivered list_loader through registered (bytes "f2") (bytes "x") 4 no_limits all_good
      (record started_f2 { allocator = unlimited }) prepare_f2_free refl one 9000 good_script
      nothing_sent times good_script-IsCallable refl (omega arith)

python2_raises :
    op_action_invoke list_loader through registered
      (bytes "f2")
      (bytes "x")
      4
      no_limits
      all_good
      (script_of one 9000 (python2_main 1 true raising_script times none nothing_sent))
    ≡ returns (reply_for all_good [] times)
unfolding op_action_invoke invoke_with prepare finish serve receive_timeout log_wait python2_main
    script_of
python2_raises = refl

-- A third `malloc` that gives no memory.
function3_faults : function3 (true ∷ true ∷ false ∷ []) 0 ≡ faults 16384
unfolding function3
function3_faults = refl

-- What the Python 3 wrapper answers does not depend on the script.
python3_fixed :
    op_action_invoke list_loader through registered
      (bytes "f2")
      (bytes "x")
      19
      no_limits
      all_good
      (script_of one 9000 (python3_main 1 true raising_script none).1)
    ≡ returns (reply_for all_good (bytes "some return string") no_metadata)
unfolding op_action_invoke invoke_with prepare finish serve receive_timeout log_wait python3_main
    script_of
python3_fixed = refl

abbrev two_functions : Actions
two_functions =
    (bytes "function1", record { ds = 8; lang = binary })
    ∷ (bytes "function2", record { ds = 9; lang = binary })
    ∷ []

-- A worker of a binary, from its dataspace and argument.
abbrev worker_of : ℕ → Bytes → Prepared
worker_of ds arg = record {
  worker = record {
    argv = arg ∷ [];
    envp = bytes "PKGNAME=Worker    " ∷ bytes "LOG_LEVEL=31" ∷ [];
    initial_capabilities =
        record { capability = 3; name = bytes "rom"; rights = 5; flags = 0 } ∷ [];
    alive = true;
    exit_value = [];
    exit_error = none;
    error_exit = false;
    bin = some ds;
  };
  allocator = unlimited;
}

prepare_function1 :
    prepare list_loader two_functions (bytes "function1") (bytes "50") no_limits all_good
    ≡ returns (worker_of 8 (bytes "50"))
unfolding prepare
prepare_function1 = refl

prepare_function2 :
    prepare list_loader two_functions (bytes "function2") (bytes "x") no_limits all_good
    ≡ returns (worker_of 9 (bytes "x"))
unfolding prepare
prepare_function2 = refl

function2_delivered_example :
    op_action_invoke list_loader through two_functions
      (bytes "function2")
      (bytes "x")
      20
      no_limits
      all_good
      (sends 1500
        (call_function1 list_loader through two_functions 512
          (omega arith)
          one
          all_good
          100
          200
          300)
        (script_of one 9000 (native_main (function2 none) 1 (bytes "x") 2000 3000 blocks)))
    ≡ returns (reply_for all_good (bytes "function2 long name") (native_times 2000 3000))
function2_delivered_example =
    function2_delivered list_loader through two_functions 512 (omega arith) one all_good all_good
      (worker_of 8 (bytes "50")) (worker_of 9 (bytes "x")) no_limits (bytes "x") 20 1500 2000 3000
      9000 100 200 300 prepare_function1 prepare_function2 refl (omega arith)

function11_fails : function11 (λ args. none) (λ n. []) 0 1000 (bytes "x") ≡ raises unknown
unfolding function11
function11_fails = refl
