-- ===== src/Faas/Functions.antt =====
-- mett-eagle-client/faas-functions: function1.cc, function2.cc, function3.cc and function11.cc.
use mett_eagle.Base.{
  ℕ, ◌+◌, ◌-◌, ◌/◌, ◌%◌, ◌^◌, Bool, true, false, List, [], ◌∷◌, Option, none, some, Bytes, bytes,
  Error,
}
use mett_eagle.Faas.{Body, answers, raises, loggable, unknown}

-- `Main` of mett-eagle-client/faas-functions/function1.cc.
unfoldable pub function1 : Bytes → Body
function1 args = answers []

-- `Main` of function2.cc, once `L4Re::Faas::invoke ("function1", "50")` has ended, by the exception that
-- the call throws, which is not caught; its value is not used.
unfoldable pub function2 : Option Error → Bytes → Body
function2 none args = answers (bytes "function2 long name")
function2 (some e) args = raises (loggable e)

-- `Main` of function11.cc, a busy loop: `stoi` reads the number of iterations, where it throws
-- (`none`) the wrapper meets an unknown exception; the sum is not used, and the text is the time
-- between the two readings of the clock, in microseconds.
unfoldable pub function11 : (Bytes → Option ℕ) → (ℕ → Bytes) → ℕ → ℕ → Bytes → Body
function11 stoi print start end args = elim (stoi args) [
  | none ↦ raises unknown
  | some iterations ↦ answers (print ((end - start) / 1000))
]

-- How far `Main` of function3.cc comes: it goes on, or `memset` faults at a null pointer; and the
-- number `size` that it has logged last.
pub data Filling : Type 0 where
  goes_on faults : ℕ → Filling

-- `chunk_size`.
abbrev pub chunk_size : ℕ
chunk_size = 8192

-- `Main` of function3.cc, by the answers of `malloc`: whether it gives memory. `size` is an `int`,
-- here as the word that it stands in. The loop has no end.
unfoldable pub function3 : List Bool → ℕ → Filling
function3 [] size = goes_on size
function3 (true ∷ mallocs) size = function3 mallocs ((size + chunk_size) % 2 ^ 32)
function3 (false ∷ mallocs) size = faults size
