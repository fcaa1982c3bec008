-- ===== src/Server/Dispatch.antt =====
-- liblog/include/exc_log_dispatch: the dispatcher with its catch blocks, and the log messages that they
-- write. `log_error` is `log<ERROR>` for a single object or an exception, of which fmt writes the given
-- text; it is `none` where fmt throws once more.
use mett_eagle.Base.{ℕ, Bool, List, Option, none, some, Bytes, Error, einval, failed}
use mett_eagle.Log.{Severity, error, Effect, Synchronizer}
use mett_eagle.Log.Exceptions.{
  Place, Exception, loggable, runtime_error, base_exception, number, other, describe,
  describe_runtime_error, describe_base_exception, log_object, log_exception,
}
use mett_eagle.Server.{Answer, label}

-- How a dispatch ends: with an answer, never, or with an exception that nothing catches and that ends
-- the program.
pub data Dispatched : Type 0 where
  answers : Answer → Dispatched
  hangs terminates : Dispatched

-- How the handler ends.
pub data Handled (A : Type 0) : Type 0 where
  finishes : A → Handled A
  raises : Exception → Handled A
  never : Handled A

-- The answer behind the log message, if that could be written.
unfoldable pub answer_logged : Error → Option (List Effect) → Dispatched
answer_logged e none = terminates
answer_logged e (some effects) = answers (label (failed e))

module _ (atoi : Bytes → ℕ) (format : Bytes → Option Bytes) (errtostr : Error → Bytes)
    (verbose : Place → Severity → Bytes → Bytes) (here : Place) (env : Option Bytes)
    (sync : Synchronizer) (sema : Bool) where
  -- The catch blocks, in their order.
  unfoldable pub caught : Exception → Dispatched
  unfolding answer_logged log_exception log_object
  caught (loggable e) =
      answer_logged e.err_no (log_exception atoi format verbose env sync sema errtostr error e)
  caught (runtime_error e str extra_str) = answer_logged e (
      log_object atoi format verbose env sync sema error here
        (describe_runtime_error str extra_str))
  caught (base_exception str) =
      answer_logged einval
        (log_object atoi format verbose env sync sema error here (describe_base_exception str))
  caught (number e) =
      answer_logged e (log_object atoi format verbose env sync sema error here (errtostr e))
  caught other = terminates

  -- The dispatcher around a handler, whose result the framework turns into an answer.
  unfoldable pub dispatch_logged : {A : Type 0} → (A → Answer) → Handled A → Dispatched
  unfolding caught
  dispatch_logged reply (finishes a) = answers (reply a)
  dispatch_logged reply (raises x) = caught x
  dispatch_logged reply never = hangs

-- The text of an exception, if a catch block takes it.
abbrev pub description : (Error → Bytes) → Exception → Option Bytes
description errtostr (loggable e) = some (describe errtostr e)
description errtostr (runtime_error e str extra_str) = some (describe_runtime_error str extra_str)
description errtostr (base_exception str) = some (describe_base_exception str)
description errtostr (number e) = some (errtostr e)
description errtostr other = none

-- The number that an exception stands for.
abbrev pub error_number : Exception → Error
error_number (loggable e) = e.err_no
error_number (runtime_error e str extra_str) = e
error_number (base_exception str) = einval
error_number (number e) = e
error_number other = einval

-- The place that the log message names: that of the throw for liblog's exceptions, else the dispatcher's.
abbrev pub place_of : Place → Exception → Place
place_of here (loggable e) = e.place
place_of here (runtime_error e str extra_str) = here
place_of here (base_exception str) = here
place_of here (number e) = here
place_of here other = here
