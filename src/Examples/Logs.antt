-- ===== src/Examples/Logs.antt =====
-- Log output: liblog/include/log.
use mett_eagle.Base.{
  ℕ, ◌+◌, ◌-◌, ◌^◌, ◌≤◌, ◌≡◌, refl, true, [], ◌∷◌, ◌++◌, Option, none, arith, Bytes, bytes, get_or,
  ltb, if◌then◌else◌,
}
use mett_eagle.Log.{
  info, log, set_level, Effect, semaphore_sync, Registers, perform, outside, printing, Console,
  raises, enters, prints, Reach, here, later,
}
use mett_eagle.Log.Fields.{base_name, find_last_of}
use mett_eagle.Log.Levels.{rank, printed, log_threshold}
use mett_eagle.Log.Lines.{printing_count, raise_count, quiet, unprinted, text, lines_whole}

-- A number below 10 is written as its digit.
abbrev digit : ℕ → Bytes
digit n = (48 + n) ∷ []

abbrev of_digit : Bytes → ℕ
of_digit text = get_or text 0 48 - 48

log_threshold_example :
    (log of_digit (set_level digit (2 ^ 3 - 1)) semaphore_sync true info (bytes "hi")
      ≡ (if ltb (rank info) 3 then printed semaphore_sync true (bytes "hi") else []))
    × (log of_digit none semaphore_sync true info (bytes "hi") ≡ [])
    × ((env : Option Bytes) (ipc : Effect → ℕ → ℕ) (r : Registers)
        → (perform ipc (log of_digit env semaphore_sync true info (bytes "hi")) r).mr ≡ r.mr)
log_threshold_example =
    log_threshold of_digit semaphore_sync true info (bytes "hi") digit 3 (omega arith) refl refl

-- Two processes; the first one has printed half of its line when the second one waits.
abbrev half : Console
half = record {
  semaphore = 0;
  processes = printing (bytes "b\n" ∷ []) ∷ outside ∷ [];
  output = bytes "a";
  begun = (bytes "a" ∷ bytes "b\n" ∷ []) ∷ [];
}

abbrev half_reached : Reach (quiet (outside ∷ outside ∷ [])) half
half_reached =
    later
      (later (later here (raises 0 (outside ∷ outside ∷ []) [] []))
        (enters 0 [] (outside ∷ []) [] [] (bytes "a" ∷ bytes "b\n" ∷ [])))
      (prints 0 [] (outside ∷ []) [] ((bytes "a" ∷ bytes "b\n" ∷ []) ∷ []) (bytes "a")
        (bytes "b\n" ∷ []))

lines_whole_example :
    (raise_count half_reached ≡ 0 → half.begun ≡ [])
    × (raise_count half_reached ≤ 1
        → (printing_count half.processes ≤ 1)
          × (half.output ++ unprinted half.processes ≡ text half.begun))
lines_whole_example = lines_whole (outside ∷ outside ∷ []) refl half half_reached refl

base_name_of_path : base_name (bytes "src/manager_base.cc") ≡ bytes "manager_base.cc"
unfolding base_name find_last_of
base_name_of_path = refl

base_name_of_name : base_name (bytes "client.cc") ≡ bytes "client.cc"
unfolding base_name find_last_of
base_name_of_name = refl
