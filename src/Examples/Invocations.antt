-- ===== src/Examples/Invocations.antt =====
-- Invocations: mett-eagle/manager/src/manager_base.cc and manager_worker.cc.
use mett_eagle.Base.{
  ℕ, ◌≤◌, ◌≡◌, refl, true, false, List, [], ◌∷◌, ◌++◌, Option, none, some, arith, Bytes, bytes, All,
  Outcome, returns, throws, einval, efault, Label, failed, Error,
}
use mett_eagle.Actions.{Actions, binary, python}
use mett_eagle.Invoke.{
  Config, WorkerMetadata, Setup, signal, exit, invoke, Script, quiet, sends, Session, Prepared,
  Reply, unlimited, limited, prepare, begin, finish, receive_timeout, invoke_with, serve, log_wait,
  check_timeout, op_action_invoke,
}
use mett_eagle.Invoke.Deadline.{is_late, deadline}
use mett_eagle.Invoke.Serve.{IsAnswered, value, verdict}
use mett_eagle.Invoke.Waits.{first_clock, IsNever, only_first_wait_limited}
use mett_eagle.Invoke.Answer.{told, reply_for, invoke_answer, invoke_told}
use mett_eagle.Invoke.Nested.{nested_unknown_throws}
use mett_eagle.Examples.Workers.{list_loader}

check_timeout_value : check_timeout 5000 65700 75000 ≡ returns 74940
unfolding check_timeout
check_timeout_value = refl

abbrev pub all_good : Setup
all_good = record {
  dataspace_valid = true;
  parent_cap = some 4;
  create_allocator = none;
  python_ds = some 6;
  construct = none;
  create_gate = none;
  rom = 3;
  start_worker = 1000;
  launch = none;
  end_worker = 9000;
}

abbrev pub registered : Actions
registered =
    (bytes "f1", record { ds = 8; lang = binary })
    ∷ (bytes "f2", record { ds = 9; lang = python })
    ∷ []

abbrev pub no_limits : Config
no_limits = record { memory_limit = 0; timeout_us = 0 }

abbrev limits : Config
limits = record { memory_limit = 4096; timeout_us = 75000 }

abbrev pub times : WorkerMetadata
times = record {
  start_runtime = 2000;
  start_function = 3000;
  end_function = 4000;
  end_runtime = 5000;
}

-- An unknown signal, then the value "ok".
abbrev script : Script
script = sends 1500 (signal 5 0) (sends 2500 (exit (bytes "ok") times) (quiet 9000))

abbrev pub through : Error → Outcome Label
through e = throws e

abbrev labels : Error → Outcome Label
labels e = returns (failed e)

abbrev pub started_f2 : Prepared
started_f2 = record {
  worker = record {
    argv = bytes "x" ∷ [];
    envp = bytes "PKGNAME=Worker    " ∷ bytes "LOG_LEVEL=31" ∷ [];
    initial_capabilities =
        record { capability = 3; name = bytes "rom"; rights = 5; flags = 0 }
        ∷ record { capability = 9; name = bytes "function"; rights = 5; flags = 0 }
        ∷ [];
    alive = true;
    exit_value = [];
    exit_error = none;
    error_exit = false;
    bin = some 6;
  };
  allocator = limited 4096;
}

prepare_f2 :
    prepare list_loader registered (bytes "f2") (bytes "x") limits all_good ≡ returns started_f2
unfolding prepare
prepare_f2 = refl

-- With no limits.
pub prepare_f2_free :
    prepare list_loader registered (bytes "f2") (bytes "x") no_limits all_good
    ≡ returns (record started_f2 { allocator = unlimited })
unfolding prepare
prepare_f2_free = refl

-- The worker after the script, and the timeouts of its two waits.
abbrev ended : Session
ended = record {
  worker = record started_f2.worker { alive = false; exit_value = bytes "ok" };
  metadata = times;
  waits = none ∷ some 75000 ∷ [];
}

run_script :
    serve list_loader through registered script limits 1000 true (begin list_loader started_f2)
    ≡ returns ended
unfolding serve receive_timeout log_wait
run_script = refl

only_first_wait_limited_example :
    (ws : List (Option ℕ)) × (t : Option ℕ) × (receive_timeout limits 1000 (first_clock script)
      ≡ returns t)
    × (ended.waits ≡ ws ++ t ∷ [])
    × All IsNever ws
only_first_wait_limited_example =
    only_first_wait_limited list_loader through registered script limits 1000
      (begin list_loader started_f2) ended refl run_script

invoke_told_example :
    op_action_invoke list_loader through registered
      (bytes "f2")
      (bytes "x")
      3
      no_limits
      all_good
      script
    ≡ told 3 all_good (value (bytes "ok") times)
invoke_told_example =
    invoke_told list_loader through registered (bytes "f2") (bytes "x") 3 no_limits all_good script
      (record started_f2 { allocator = unlimited }) (value (bytes "ok") times) prepare_f2_free refl
      tt refl

answered :
    op_action_invoke list_loader through registered
      (bytes "f2")
      (bytes "x")
      3
      no_limits
      all_good
      script
    ≡ returns (reply_for all_good (bytes "ok") times)
unfolding op_action_invoke invoke_with prepare finish serve receive_timeout log_wait
answered = refl

invoke_answer_example :
    (v : Bytes) × (d : WorkerMetadata) × (verdict script ≡ some (value v d))
    × (reply_for all_good (bytes "ok") times ≡ reply_for all_good v d)
    × (3 ≤ 3)
invoke_answer_example =
    invoke_answer list_loader through registered (bytes "f2") (bytes "x") 3 no_limits all_good
      script (reply_for all_good (bytes "ok") times) answered

-- The worker of f2 invokes f3, which nobody has created.
nested_unknown_throws_example :
    op_action_invoke list_loader through registered
      (bytes "f2")
      (bytes "x")
      3
      no_limits
      all_good
      (sends 1500 (invoke (bytes "f3") [] 100 no_limits all_good (quiet 0)) script)
    ≡ throws einval
nested_unknown_throws_example =
    nested_unknown_throws list_loader through registered (bytes "f3") [] 100 no_limits all_good
      (quiet 0) (bytes "f2") (bytes "x") 3 1500 no_limits all_good script
      (record started_f2 { allocator = unlimited }) refl refl prepare_f2_free refl

-- The second wait begins 150 milliseconds after the start, with a limit of 75.
abbrev slow : Script
slow = sends 1500 (signal 5 0) (sends 150001000 (exit (bytes "ok") times) (quiet 0))

deadline_example :
    ((reply : Reply)
      → op_action_invoke list_loader through registered
          (bytes "f2")
          (bytes "x")
          3
          limits
          all_good
          slow
        ≡ returns reply
      → is_late list_loader through registered (bytes "f2") (bytes "x") 3 limits all_good slow
        ≡ false)
    × ((p : Prepared)
        → prepare list_loader registered (bytes "f2") (bytes "x") limits all_good ≡ returns p
        → IsAnswered list_loader through registered slow
        → is_late list_loader through registered (bytes "f2") (bytes "x") 3 limits all_good slow
          ≡ true
        → op_action_invoke list_loader through registered
            (bytes "f2")
            (bytes "x")
            3
            limits
            all_good
            slow
          ≡ throws efault)
deadline_example =
    deadline list_loader through registered (bytes "f2") (bytes "x") 3 limits all_good slow
      (λ h. ground arith)

-- The loop throws at that wait.
slow_throws :
    op_action_invoke list_loader through registered (bytes "f2") (bytes "x") 3 limits all_good slow
    ≡ throws efault
unfolding op_action_invoke invoke_with prepare finish serve receive_timeout log_wait
slow_throws = refl
