-- ===== src/Examples/Crashes.antt =====
-- An exception that is logged: liblog and the dispatcher of a client's thread.
use mett_eagle.Base.{
  ℕ, ◌≡◌, refl, true, false, [], ◌∷◌, ◌++◌, Option, none, some, if◌then◌else◌, Bytes, bytes, Error,
  einval, kernel, failed, arith,
}
use mett_eagle.Log.Fields.{line_of, base_name, find_last_of}
use mett_eagle.Log.{Severity, error, silence, semaphore_sync}
use mett_eagle.Invoke.{quiet}
use mett_eagle.Server.{label}
use mett_eagle.Log.Exceptions.{Place, Exception, runtime_error}
use mett_eagle.Server.Dispatch.{answers, terminates, caught, description}
use mett_eagle.Server.Caught.{IsPlain, plain?, caught_dispatched}
use mett_eagle.Server.Crash.{answer, unknown_name_dispatched}
use mett_eagle.Examples.Workers.{list_loader}
use mett_eagle.Examples.Invocations.{all_good, no_limits, registered, through}

-- Every text with a brace is rejected.
abbrev format : Bytes → Option Bytes
format s = if plain? s then some s else none

plain_is_kept : (s : Bytes) → IsPlain s → format s ≡ some s
plain_is_kept s plain = rw (plain_passes s plain) refl
  where
    plain_passes : (s : Bytes) → IsPlain s → plain? s ≡ true
    plain_passes [] h = refl
    plain_passes (c ∷ cs) h = ground (arith, plain_passes cs h.1)

lone_brace_throws : (s t : Bytes) → IsPlain s → IsPlain t → format (s ++ 123 ∷ t) ≡ none
lone_brace_throws s t plain_s plain_t = rw (brace_found s) refl
  where
    brace_found : (s : Bytes) → plain? (s ++ 123 ∷ t) ≡ false
    brace_found [] = refl
    brace_found (c ∷ cs) = ground (arith, brace_found cs)

abbrev errtostr : Error → Bytes
errtostr e = bytes "E"

errtostr-IsPlain : IsPlain (errtostr einval)
errtostr-IsPlain = (((λ h. ground arith), (λ h. ground arith)), tt)

-- fmt writes the file and the text only.
abbrev line : Place → Severity → Bytes → Bytes
line = line_of (λ fields. fields.file ++ (bytes ": " ++ fields.msg)) 5 100 (some (bytes "manager"))

abbrev in_dispatcher : Place
in_dispatcher = record { file = bytes "exc_log_dispatch"; function = bytes "operator()"; line = 53 }

abbrev in_handler : Place
in_handler = record {
  file = bytes "src/manager_base.cc";
  function = bytes "op_action_invoke";
  line = 51;
}

-- The level is 31 whatever the environment says.
abbrev atoi : Bytes → ℕ
atoi text = 31

unknown_name_dispatched_example :
    let ends =
      answer list_loader through registered [] 100 no_limits all_good
        (quiet 0)
        atoi
        format
        errtostr
        line
        in_dispatcher
        none
        semaphore_sync
        true
        in_handler
        []
        (bytes "f{3") in
    (IsPlain (bytes "f{3") → ends ≡ answers (label (failed einval)))
    × ((before after : Bytes)
        → bytes "f{3" ≡ before ++ 123 ∷ after
        → IsPlain before
        → IsPlain after
        → silence atoi none error ≡ false
        → ends ≡ terminates)
unknown_name_dispatched_example =
    unknown_name_dispatched list_loader through registered [] 100 no_limits all_good (quiet 0) atoi
      format errtostr line in_dispatcher none semaphore_sync true in_handler [] (bytes "f{3")
      plain_is_kept lone_brace_throws errtostr-IsPlain refl

-- A failed mapping of the kernel's, as L4's own checks throw it, with a place in braces.
abbrev mapping_failed : Exception
mapping_failed = runtime_error (kernel 22) (bytes "E") (bytes "map {3")

caught_dispatched_example :
    let ends =
      caught atoi format errtostr line in_dispatcher none semaphore_sync true mapping_failed in
    ((text : Bytes)
      → description errtostr mapping_failed ≡ some text
      → IsPlain text
      → ends ≡ answers (label (failed (kernel 22))))
    × ((before after : Bytes)
        → description errtostr mapping_failed ≡ some (before ++ 123 ∷ after)
        → IsPlain before
        → IsPlain after
        → silence atoi none error ≡ false
        → ends ≡ terminates)
caught_dispatched_example =
    caught_dispatched atoi format errtostr line in_dispatcher none semaphore_sync true plain_is_kept
      lone_brace_throws mapping_failed

line_names_file : line in_handler error (bytes "no") ≡ bytes "manager_base.cc: no"
unfolding line_of base_name find_last_of
line_names_file = refl
