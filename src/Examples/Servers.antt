-- ===== src/Examples/Servers.antt =====
-- A client's requests: the server loop of its thread.
use mett_eagle.Base.{
  ◌≡◌, refl, true, false, List, [], ◌∷◌, some, arith, bytes, eok, eexist, failed, returns,
}
use mett_eagle.Actions.{Received, op_action_create, op_action_delete, no_actions, binary, python}
use mett_eagle.Invoke.{
  Prepared, prepare, exit, sends, quiet, unlimited, op_action_invoke, invoke_with, finish, serve,
  receive_timeout, log_wait,
}
use mett_eagle.Invoke.Answer.{reply_for}
use mett_eagle.Invoke.Prepare.{IsSetUp}
use mett_eagle.Server.{Request, create, delete, invoke, label, result, handle, internal_loop}
use mett_eagle.Server.Stay.{created_is_invoked}
use mett_eagle.Examples.Workers.{list_loader}
use mett_eagle.Examples.Invocations.{all_good, no_limits, times, through, started_f2}

abbrev sent : Received
sent = record { cap_received = true; cap = 9; valid = true; realloc_failed = false }

-- Between the creation of f2 and its invocation.
abbrev between : List Request
between =
    create (bytes "f1") sent binary ∷ delete (bytes "f1") ∷ create (bytes "f2") sent binary ∷ []

abbrev requests : List Request
requests =
    create (bytes "f2") sent python
    ∷ create (bytes "f2") sent binary
    ∷ invoke (bytes "f2") (bytes "x") 3 no_limits all_good
        (sends 1500 (exit (bytes "ok") times) (quiet 9000))
    ∷ delete (bytes "f2")
    ∷ []

-- An exception of a handler becomes the label of an answer, and the loop goes on.
loop_answers :
    (internal_loop list_loader through requests no_actions).1
    ≡ label eok
      ∷ label (failed eexist)
      ∷ result (reply_for all_good (bytes "ok") times)
      ∷ label eok
      ∷ []
unfolding internal_loop op_action_create op_action_delete op_action_invoke invoke_with prepare
    finish serve receive_timeout log_wait
loop_answers = refl

abbrev started : Prepared
started = record started_f2 { allocator = unlimited }

created_ok :
    (handle list_loader through (create (bytes "f2") sent python) no_actions).1 ≡ some (label eok)
unfolding handle op_action_create
created_ok = refl

prepared :
    prepare list_loader
      (internal_loop list_loader through (create (bytes "f2") sent python ∷ between) no_actions).0
      (bytes "f2")
      (bytes "x")
      no_limits
      all_good
    ≡ returns started
unfolding prepare internal_loop op_action_create op_action_delete
prepared = refl

created_is_invoked_example :
    IsSetUp 5 3 (some 6) (bytes "x") (record { ds = 9; lang = python }) started.worker
created_is_invoked_example =
    created_is_invoked list_loader through refl refl (bytes "f2") sent python between no_actions
      (bytes "f2") (bytes "x") no_limits all_good started created_ok
      (tt, ((λ h. ground arith), (tt, tt))) refl prepared
