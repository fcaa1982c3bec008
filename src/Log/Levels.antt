-- ===== src/Log/Levels.antt =====
-- Which messages a log level prints.
use mett_eagle.Base.{
  ℕ, ◌-◌, ◌/◌, ◌%◌, ◌^◌, ◌≤◌, ◌≡◌, refl, zero, suc, true, false, Bool, [], ◌∷◌, ◌++◌, List, Option,
  none, Bool-cases, inl, inr, arith, ltb, ◌==◌, if◌then◌else◌, Bytes, bytes,
}
use mett_eagle.Log.{
  Severity, debug, info, warn, error, fatal, severity_to_mask, get_level, set_level, silence,
  Effect, save, restore, down, up, print, Synchronizer, no_sync, semaphore_sync, start, end_sync,
  log, Registers, perform,
}

-- How far a severity stands from the gravest.
abbrev pub rank : Severity → ℕ
rank fatal = 0
rank error = 1
rank warn = 2
rank info = 3
rank debug = 4

-- The message, between the operations of the synchronizer.
abbrev pub printed : Synchronizer → Bool → Bytes → List Effect
printed no_sync sema line = print line ∷ []
printed semaphore_sync true line = save ∷ down ∷ print line ∷ up ∷ restore ∷ []
printed semaphore_sync false line = save ∷ print line ∷ restore ∷ []

-- The bit of a severity in a level of `k` ones.
threshold :
    (k : ℕ) (s : Severity)
    → k ≤ 5
    → ((2 ^ k - 1) / severity_to_mask s % 2 == 0) ≡ (if ltb (rank s) k then false else true)
threshold zero debug few = refl
threshold zero info few = refl
threshold zero warn few = refl
threshold zero error few = refl
threshold zero fatal few = refl
threshold (suc zero) debug few = refl
threshold (suc zero) info few = refl
threshold (suc zero) warn few = refl
threshold (suc zero) error few = refl
threshold (suc zero) fatal few = refl
threshold (suc (suc zero)) debug few = refl
threshold (suc (suc zero)) info few = refl
threshold (suc (suc zero)) warn few = refl
threshold (suc (suc zero)) error few = refl
threshold (suc (suc zero)) fatal few = refl
threshold (suc (suc (suc zero))) debug few = refl
threshold (suc (suc (suc zero))) info few = refl
threshold (suc (suc (suc zero))) warn few = refl
threshold (suc (suc (suc zero))) error few = refl
threshold (suc (suc (suc zero))) fatal few = refl
threshold (suc (suc (suc (suc zero)))) debug few = refl
threshold (suc (suc (suc (suc zero)))) info few = refl
threshold (suc (suc (suc (suc zero)))) warn few = refl
threshold (suc (suc (suc (suc zero)))) error few = refl
threshold (suc (suc (suc (suc zero)))) fatal few = refl
threshold (suc (suc (suc (suc (suc zero))))) debug few = refl
threshold (suc (suc (suc (suc (suc zero))))) info few = refl
threshold (suc (suc (suc (suc (suc zero))))) warn few = refl
threshold (suc (suc (suc (suc (suc zero))))) error few = refl
threshold (suc (suc (suc (suc (suc zero))))) fatal few = refl
threshold (suc (suc (suc (suc (suc (suc k)))))) s few = absurd (omega arith)

-- A level of 0.
zero_level : (s : Severity) → (0 / severity_to_mask s % 2 == 0) ≡ true
zero_level debug = refl
zero_level info = refl
zero_level warn = refl
zero_level error = refl
zero_level fatal = refl

chosen :
    (b : Bool) (sync : Synchronizer) (sema : Bool) (line : Bytes)
    → (if (if b then false else true)
        then []
        else start sync sema ++ (print line ∷ end_sync sync sema))
      ≡ (if b then printed sync sema line else [])
unfolding start end_sync
chosen true no_sync sema line = refl
chosen true semaphore_sync true line = refl
chosen true semaphore_sync false line = refl
chosen false sync sema line = refl

module _ (ipc : Effect → ℕ → ℕ) (line : Bytes) (r : Registers) where
  -- `end` puts back what `start` saved.
  synchronized_keeps :
      (sema : Bool)
      → (perform ipc
          (start semaphore_sync sema ++ (print line ∷ end_sync semaphore_sync sema))
          r).mr
        ≡ r.mr
  unfolding perform start end_sync
  synchronized_keeps true = refl
  synchronized_keeps false = refl

  log_keeps_register :
      (atoi : Bytes → ℕ) (env : Option Bytes) (sema : Bool) (s : Severity)
      → (perform ipc (log atoi env semaphore_sync sema s line) r).mr ≡ r.mr
  unfolding log perform
  log_keeps_register atoi env sema s = elim (Bool-cases (silence atoi env s)) [
    | inl silent ↦ rw silent refl
    | inr loud ↦ rw loud (synchronized_keeps sema)
  ]

module _ (atoi : Bytes → ℕ) (sync : Synchronizer) (sema : Bool) (s : Severity) (line : Bytes) where
  -- With the level 2 ^ k - 1 the k gravest of the five severities are printed, each in one piece
  -- between the operations of the synchronizer, and all others have no effect at all, if `atoi` reads
  -- what `to_string` wrote. With no level set, and if `atoi` reads "0" as 0, nothing is printed. With
  -- the semaphore's synchronizer a call of `log` leaves the first message register as it was, at every
  -- level, in a process with or without the semaphore, and whatever the IPCs leave in the register.
  pub log_threshold :
      (to_string : ℕ → Bytes) (k : ℕ)
      → k ≤ 5
      → atoi (to_string (2 ^ k - 1)) ≡ 2 ^ k - 1
      → atoi (bytes "0") ≡ 0
      → (log atoi (set_level to_string (2 ^ k - 1)) sync sema s line
          ≡ (if ltb (rank s) k then printed sync sema line else []))
        × (log atoi none sync sema s line ≡ [])
        × ((env : Option Bytes) (ipc : Effect → ℕ → ℕ) (r : Registers)
            → (perform ipc (log atoi env semaphore_sync sema s line) r).mr ≡ r.mr)
  unfolding log set_level silence get_level start end_sync
  log_threshold to_string k few reads zero_reads = (
    rw (reads, threshold k s few) (chosen (ltb (rank s) k) sync sema line),
    rw (zero_reads, zero_level s) refl,
    λ env ipc r. log_keeps_register ipc line r atoi env sema s,
  )
