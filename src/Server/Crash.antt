-- ===== src/Server/Crash.antt =====
-- `Exc_log_dispatch` with the log message that it writes: liblog/include/exc_log_dispatch around
-- `op_action_invoke` of mett-eagle/manager/src/manager_base.cc.
use mett_eagle.Base.{
  ℕ, ◌≡◌, refl, ap, ◌∙◌, Bool, false, ◌∷◌, ◌++◌, Option, none, some, ◌==◌, if◌then◌else◌, Bytes,
  bytes, c_string, count, count_of_lookup-none, lookup, Outcome, returns, throws, blocks, Error,
  einval, Label, failed,
}
use mathlib.Core.List.{append_assoc}
use mett_eagle.Actions.{Actions}
use mett_eagle.Worker.{Loader}
use mett_eagle.Log.{Severity, error, silence, Synchronizer}
use mett_eagle.Log.Exceptions.{Place, Exception, loggable, describe}
use mett_eagle.Invoke.{Config, Setup, Script, op_action_invoke, invoke_with}
use mett_eagle.Invoke.Prepare.{prepare_unknown}
use mett_eagle.Server.{label, result}
use mett_eagle.Server.Dispatch.{
  Dispatched, answers, terminates, Handled, finishes, raises, never, caught, dispatch_logged,
}
use mett_eagle.Server.Caught.{IsPlain, literal-IsPlain, append-IsPlain, caught_dispatched}

-- The message of the exception that the handler throws for a name that is not there; `other` is the
-- text of its other exceptions.
pub message : Actions → Bytes → Bytes → Bytes
message actions name other =
    if count (c_string name) actions == 0
    then bytes "Action '" ++ (c_string name ++ bytes "' doesn't exist")
    else other

-- A handler that throws liblog's exceptions only, and gives a place and a message with its error.
unfoldable pub handled : {A : Type 0} → Place → Bytes → Outcome A → Handled A
handled place msg (returns a) = finishes a
handled place msg (throws e) = raises (loggable (record { err_no = e; place = place; msg = msg }))
handled place msg blocks = never

module _ {Stack : Type 0} (l : Loader Stack) (on_throw : Error → Outcome Label) (actions : Actions)
    (arg : Bytes) (ret_length : ℕ) (cfg : Config) (setup : Setup) (script : Script) where
  unknown_throws :
      (name : Bytes)
      → lookup (c_string name) actions ≡ none
      → op_action_invoke l on_throw actions name arg ret_length cfg setup script ≡ throws einval
  unfolding op_action_invoke invoke_with
  unknown_throws name unknown = rw (prepare_unknown l actions name arg cfg setup unknown) refl

  module _ (atoi : Bytes → ℕ) (format : Bytes → Option Bytes) (errtostr : Error → Bytes)
      (verbose : Place → Severity → Bytes → Bytes) (here : Place) (env : Option Bytes)
      (sync : Synchronizer) (sema : Bool) (place : Place) (other name : Bytes) where
    abbrev pub answer : Dispatched
    answer = dispatch_logged atoi format errtostr verbose here env sync sema result (
        handled place (message actions name other)
          (op_action_invoke l on_throw actions name arg ret_length cfg setup script))

    module _ (plain_is_kept : (s : Bytes) → IsPlain s → format s ≡ some s)
        (lone_brace_throws : (s t : Bytes) → IsPlain s → IsPlain t → format (s ++ 123 ∷ t) ≡ none)
        (plain_errtostr : IsPlain (errtostr einval))
        (unknown : lookup (c_string name) actions ≡ none) where
      abbrev said : Bytes
      said = bytes "Action '" ++ (c_string name ++ bytes "' doesn't exist")

      abbrev thrown : Exception
      thrown = loggable (record { err_no = einval; place = place; msg = said })

      answer-caught : answer ≡ caught atoi format errtostr verbose here env sync sema thrown
      unfolding dispatch_logged handled message
      answer-caught =
          rw (count_of_lookup-none (c_string name) actions unknown, unknown_throws name unknown)
            refl

      plain_answered : IsPlain (c_string name) → answer ≡ answers (label (failed einval))
      unfolding describe
      plain_answered plain =
          answer-caught
          ∙ (caught_dispatched atoi format errtostr verbose here env sync sema plain_is_kept
                lone_brace_throws thrown).0
              _ refl
              (append-IsPlain (errtostr einval) _ plain_errtostr (
                append-IsPlain (bytes ": Action '") _ (literal-IsPlain (bytes ": Action '") refl) (
                  append-IsPlain (c_string name) _ plain
                    (literal-IsPlain (bytes "' doesn't exist") refl))))

      brace_terminates :
          (before after : Bytes)
          → c_string name ≡ before ++ 123 ∷ after
          → IsPlain before
          → IsPlain after
          → silence atoi env error ≡ false
          → answer ≡ terminates
      unfolding describe
      brace_terminates before after e plain_before plain_after printed =
          answer-caught
          ∙ (caught_dispatched atoi format errtostr verbose here env sync sema plain_is_kept
                lone_brace_throws thrown).1
              (errtostr einval ++ (bytes ": Action '" ++ before)) (after ++ bytes "' doesn't exist")
              (ap some (rw e (simp append_assoc)))
              (append-IsPlain (errtostr einval) _ plain_errtostr (
                append-IsPlain (bytes ": Action '") before
                  (literal-IsPlain (bytes ": Action '") refl) plain_before))
              (append-IsPlain after _ plain_after (literal-IsPlain (bytes "' doesn't exist") refl))
              printed

      -- If fmt keeps texts without braces and rejects those with a lone opening brace, and the name of
      -- -L4_EINVAL has no brace, a client that invokes a name which is not there is answered with
      -- -L4_EINVAL if the name has no brace; if the name has one opening brace and no other, and error
      -- messages are printed, the log message throws once more inside the catch block, and the manager
      -- ends.
      pub unknown_name_dispatched :
          (IsPlain (c_string name) → answer ≡ answers (label (failed einval)))
          × ((before after : Bytes)
              → c_string name ≡ before ++ 123 ∷ after
              → IsPlain before
              → IsPlain after
              → silence atoi env error ≡ false
              → answer ≡ terminates)
      unknown_name_dispatched = (plain_answered, brace_terminates)
