-- ===== src/Server/Caught.antt =====
-- What a client receives for an exception: liblog/include/exc_log_dispatch over what fmt does with the
-- text of the log message.
use mett_eagle.Base.{
  ℕ, ◌≡◌, ◌≢◌, refl, Bool, true, false, [], ◌∷◌, ◌++◌, Option, none, some, ◌==◌, Bytes, not, ◌&&◌,
  Bool-cases, inl, inr, Error, failed, arith, All, All-append,
}
use mett_eagle.Log.{Severity, error, silence, Synchronizer}
use mett_eagle.Log.Exceptions.{
  Place, Exception, loggable, runtime_error, base_exception, number, other, logged, log_format,
  log_object, log_exception,
}
use mett_eagle.Server.{label}
use mett_eagle.Server.Dispatch.{
  answers, terminates, answer_logged, caught, description, error_number, place_of,
}

-- No brace.
abbrev pub IsPlain : Bytes → Type 0
IsPlain = All (λ c. (c ≢ 123) × (c ≢ 125))

abbrev pub plain? : Bytes → Bool
plain? [] = true
plain? (c ∷ cs) = not (c == 123) && (not (c == 125) && plain? cs)

pub literal-IsPlain : (s : Bytes) → plain? s ≡ true → IsPlain s
literal-IsPlain [] h = tt
literal-IsPlain (c ∷ cs) h = ground (arith, literal-IsPlain cs)

pub append-IsPlain : (s t : Bytes) → IsPlain s → IsPlain t → IsPlain (s ++ t)
append-IsPlain s t plain_s plain_t = All-append (λ c. (c ≢ 123) × (c ≢ 125)) s t plain_s plain_t

module _ (atoi : Bytes → ℕ) (format : Bytes → Option Bytes) (errtostr : Error → Bytes)
    (verbose : Place → Severity → Bytes → Bytes) (here : Place) (env : Option Bytes)
    (sync : Synchronizer) (sema : Bool) where
  -- All catch blocks log the description of their exception, with its place, and answer with its number.
  pub caught_logs :
      (x : Exception) (text : Bytes)
      → description errtostr x ≡ some text
      → caught atoi format errtostr verbose here env sync sema x
        ≡ answer_logged
            (error_number x)
            (log_format atoi format verbose env sync sema error (place_of here x) text)
  unfolding caught log_exception log_object
  caught_logs (loggable e) text shown = cc
  caught_logs (runtime_error e str extra_str) text shown = cc
  caught_logs (base_exception str) text shown = cc
  caught_logs (number e) text shown = cc
  caught_logs other text shown = cc

  module _ (plain_is_kept : (s : Bytes) → IsPlain s → format s ≡ some s)
      (lone_brace_throws : (s t : Bytes) → IsPlain s → IsPlain t → format (s ++ 123 ∷ t) ≡ none)
      (x : Exception) where
    plain_answered :
        (text : Bytes)
        → description errtostr x ≡ some text
        → IsPlain text
        → caught atoi format errtostr verbose here env sync sema x
          ≡ answers (label (failed (error_number x)))
    unfolding answer_logged log_format logged
    plain_answered text shown plain = elim (Bool-cases (silence atoi env error)) [
      | inl silent ↦ rw (caught_logs x text shown, silent) refl
      | inr printed ↦ rw (caught_logs x text shown, printed, plain_is_kept text plain) refl
    ]

    brace_terminates :
        (before after : Bytes)
        → description errtostr x ≡ some (before ++ 123 ∷ after)
        → IsPlain before
        → IsPlain after
        → silence atoi env error ≡ false
        → caught atoi format errtostr verbose here env sync sema x ≡ terminates
    unfolding answer_logged log_format logged
    brace_terminates before after shown plain_before plain_after printed =
        rw
          (
            caught_logs x (before ++ 123 ∷ after) shown,
            printed,
            lone_brace_throws before after plain_before plain_after,
          )
          refl

    -- If fmt keeps texts without braces and rejects those with a lone opening brace: an exception that
    -- a catch block takes and whose description has no brace is answered with its error number (with
    -- -L4_EINVAL where it has none), whether errors are printed or not; one whose description has one
    -- opening brace and no other ends the program if errors are printed.
    pub caught_dispatched :
        ((text : Bytes)
          → description errtostr x ≡ some text
          → IsPlain text
          → caught atoi format errtostr verbose here env sync sema x
            ≡ answers (label (failed (error_number x))))
        × ((before after : Bytes)
            → description errtostr x ≡ some (before ++ 123 ∷ after)
            → IsPlain before
            → IsPlain after
            → silence atoi env error ≡ false
            → caught atoi format errtostr verbose here env sync sema x ≡ terminates)
    caught_dispatched = (plain_answered, brace_terminates)
