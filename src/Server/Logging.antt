-- ===== src/Server/Logging.antt =====
-- The dispatcher of liblog/include/exc_log_dispatch with its log messages against `exc_log_dispatch` of
-- Server, which leaves them out.
use mett_eagle.Base.{
  ℕ, ◌≡◌, refl, Bool, ◌∷◌, ◌++◌, Option, none, some, Bytes, Error, Outcome, returns, throws, blocks,
}
use mett_eagle.Log.{Severity, Synchronizer}
use mett_eagle.Log.Exceptions.{Place, describe, loggable}
use mett_eagle.Server.{Answer, exc_log_dispatch}
use mett_eagle.Server.Dispatch.{Dispatched, answers, hangs, dispatch_logged}
use mett_eagle.Server.Caught.{IsPlain, caught_dispatched}
use mett_eagle.Server.Crash.{handled}

abbrev pub dispatched : Option Answer → Dispatched
dispatched none = hangs
dispatched (some a) = answers a

module _ (atoi : Bytes → ℕ) (format : Bytes → Option Bytes) (errtostr : Error → Bytes)
    (verbose : Place → Severity → Bytes → Bytes) (here : Place) (env : Option Bytes)
    (sync : Synchronizer) (sema : Bool) where
  -- If fmt keeps texts without braces and rejects those with a lone opening brace, and the text of what
  -- the handler throws has no brace, the log message changes nothing of the answer: the client is
  -- answered as by `exc_log_dispatch`, and is not answered if the handler never returns.
  pub dispatch_logged_agrees :
      ((s : Bytes) → IsPlain s → format s ≡ some s)
      → ((s t : Bytes) → IsPlain s → IsPlain t → format (s ++ 123 ∷ t) ≡ none)
      → {A : Type 0} (reply : A → Answer) (place : Place) (msg : Bytes) (o : Outcome A)
      → ((e : Error)
          → o ≡ throws e
          → IsPlain (describe errtostr (record { err_no = e; place = place; msg = msg })))
      → dispatch_logged atoi format errtostr verbose here env sync sema reply (handled place msg o)
        ≡ dispatched (exc_log_dispatch reply o)
  unfolding dispatch_logged handled exc_log_dispatch
  dispatch_logged_agrees keeps rejects reply place msg (returns a) plain = refl
  dispatch_logged_agrees keeps rejects reply place msg (throws e) plain =
      (caught_dispatched atoi format errtostr verbose here env sync sema keeps rejects
          (loggable (record { err_no = e; place = place; msg = msg }))).0
        _ refl (plain e refl)
  dispatch_logged_agrees keeps rejects reply place msg blocks plain = refl
