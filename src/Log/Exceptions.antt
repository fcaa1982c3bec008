-- ===== src/Log/Exceptions.antt =====
-- liblog/include/loggable-exception and the `log` for single objects and exceptions of
-- liblog/include/log. `format` is `fmt::format` of a text with no arguments, `none` where it throws;
-- `errtostr` is `l4sys_errtostr`; `verbose` is the line for the text of a message, as Log.Fields puts it
-- together.
use mett_eagle.Base.{
  Bool, List, [], ◌++◌, Option, none, some, if◌then◌else◌, Bytes, bytes, Error, ℕ,
}
use mett_eagle.Log.{Severity, silence, Synchronizer, Effect, log}

-- A place in the source, as `ArgWithLocation` carries it.
pub record Place : Type 0 where
  pub file : Bytes
  pub function : Bytes
  pub line : ℕ

-- `place` is that of the throw.
pub record LoggableException : Type 0 where
  pub err_no : Error
  pub place : Place
  pub msg : Bytes

-- An exception as a catch block takes it: liblog's own, those of L4 with what `str` and `extra_str`
-- return, an error number, or any other.
pub data Exception : Type 0 where
  loggable : LoggableException → Exception
  runtime_error : Error → Bytes → Bytes → Exception
  base_exception : Bytes → Exception
  number : Error → Exception
  other : Exception

-- The formatter: the name of the error number, and the message.
unfoldable pub describe : (Error → Bytes) → LoggableException → Bytes
describe errtostr e = errtostr e.err_no ++ (bytes ": " ++ e.msg)

-- The formatters of L4's exceptions.
unfoldable pub describe_runtime_error : Bytes → Bytes → Bytes
describe_runtime_error str extra_str = str ++ (bytes ": " ++ extra_str)

unfoldable pub describe_base_exception : Bytes → Bytes
describe_base_exception str = str

-- What `log` does with the formatted message.
unfoldable pub logged : (Bytes → List Effect) → Option Bytes → Option (List Effect)
logged line none = none
logged line (some text) = some (line text)

module _ (atoi : Bytes → ℕ) (format : Bytes → Option Bytes)
    (verbose : Place → Severity → Bytes → Bytes) (env : Option Bytes) (sync : Synchronizer)
    (sema : Bool) where
  -- `log` for a format string with no arguments, which is formatted unless the message is silenced.
  -- `none` is an exception of fmt.
  unfoldable pub log_format : Severity → Place → Bytes → Option (List Effect)
  unfolding silence logged log
  log_format s place text =
      if silence atoi env s
      then some []
      else logged (λ line. log atoi env sync sema s (verbose place s line)) (format text)

  -- `log` for a single object, of which fmt writes the given text: the text is taken as a format string,
  -- with the place of the call.
  unfoldable pub log_object : Severity → Place → Bytes → Option (List Effect)
  unfolding log_format
  log_object s place text = log_format s place text

  -- `log` for an exception of liblog: the same with its description, from the place of the throw.
  unfoldable pub log_exception :
      (Error → Bytes) → Severity → LoggableException → Option (List Effect)
  unfolding describe log_format
  log_exception errtostr s e = log_format s e.place (describe errtostr e)
