-- ===== src/Registry/Sessions.antt =====
-- The CPU of one client through the calls for other clients.
use mett_eagle.Base.{
  ℕ, ◌≤◌, ◌≡◌, ◌≢◌, refl, Bool, true, false, List, [], ◌∷◌, Option, none, some, ◌==◌, if◌then◌else◌,
  arith,
}
use mett_eagle.Cpu.Bitset.{get, bits_of}
use mett_eagle.Cpu.{width}
use mett_eagle.Registry.{
  Session, Registry, Calls, op_register_client, take_session, keep_session, clean_up, handle_irq,
}
use mett_eagle.Registry.Ownership.{IsExclusive, holders}

-- The word of the client of a gate.
abbrev pub word_of : ℕ → List Session → Option ℕ
word_of g [] = none
word_of g (s ∷ ss) = if s.gate == g then some s.bitmap else word_of g ss

pub word_of-register :
    (calls : Calls) (r : Registry) (g : ℕ)
    → calls.gate ≢ some g
    → word_of g (op_register_client calls r).0.sessions ≡ word_of g r.sessions
unfolding op_register_client
word_of-register calls r g other = ground arith

-- What is left when the session of another gate is taken out.
abbrev Keeps : ℕ → List Session → Option (Session × List Session) → Type 0
Keeps g ss none = Unit
Keeps g ss (some (s, others)) = word_of g others ≡ word_of g ss

Keeps-keep_session :
    (g : ℕ) (s : Session) (ss : List Session) (o : Option (Session × List Session))
    → Keeps g ss o
    → Keeps g (s ∷ ss) (keep_session s o)
unfolding keep_session
Keeps-keep_session g s ss none h = tt
Keeps-keep_session g s ss (some (t, others)) h = rw h refl

take_session-Keeps : (g gate : ℕ) (ss : List Session) → gate ≢ g → Keeps g ss (take_session gate ss)
unfolding take_session
take_session-Keeps g gate [] other = tt
take_session-Keeps g gate (s ∷ ss) other =
    ground
      (arith, Keeps-keep_session g s ss (take_session gate ss) (take_session-Keeps g gate ss other))

word_of-clean_up :
    (g : ℕ) (r : Registry) (o : Option (Session × List Session))
    → Keeps g r.sessions o
    → word_of g (clean_up r o).sessions ≡ word_of g r.sessions
unfolding clean_up
word_of-clean_up g r none h = refl
word_of-clean_up g r (some (s, others)) h = h

pub word_of-handle_irq :
    (valid : Bool) (gate : ℕ) (r : Registry) (g : ℕ)
    → gate ≢ g
    → word_of g (handle_irq valid gate r).sessions ≡ word_of g r.sessions
unfolding handle_irq
word_of-handle_irq true gate r g other = refl
word_of-handle_irq false gate r g other =
    word_of-clean_up g r (take_session gate r.sessions) (take_session-Keeps g gate r.sessions other)

pub holders-word_of :
    (ss : List Session) (g w k : ℕ)
    → word_of g ss ≡ some w
    → get (bits_of width w) k ≡ true
    → 1 ≤ holders k ss
holders-word_of [] g w k e held = cc
holders-word_of (s ∷ ss) g w k e held = ground (arith, holders-word_of ss g w k)

-- The CPU of a client is not free.
pub held_not_free :
    (r : Registry) (g w k : ℕ)
    → IsExclusive r
    → word_of g r.sessions ≡ some w
    → get (bits_of width w) k ≡ true
    → get r.available k ≡ false
held_not_free r g w k v e held = ground (arith, v.single k, holders-word_of r.sessions g w k e held)
