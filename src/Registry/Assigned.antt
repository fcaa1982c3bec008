-- ===== src/Registry/Assigned.antt =====
-- The sessions of each gate, and the one CPU of each session.
use mett_eagle.Base.{
  ℕ, ◌+◌, ◌^◌, ◌≤◌, ◌<◌, ◌≡◌, ◌≢◌, refl, sym, ap, ◌∙◌, true, false, List, [], ◌∷◌, Option, none,
  some, ◌==◌, ==_iff, Outcome, returns, throws, arith, bit_value, All, inl, inr, Bool-cases,
}
use mett_eagle.Cpu.Bitset.{Bits, get, bits_of, get-bits_of-two_pow}
use mett_eagle.Cpu.{width}
use mett_eagle.Cpu.Select.{select_lowest_free}
use mett_eagle.Registry.{
  Session, Registry, Calls, op_register_client, take_session, keep_session, clean_up, handle_irq,
}
use mett_eagle.Registry.Ownership.{
  IsExclusive, Leaves, op_register_client-Leaves, op_register_client_full, holders,
}
use mett_eagle.Registry.Sessions.{word_of, holders-word_of}

-- How many sessions a gate has.
abbrev pub sessions_at : ℕ → List Session → ℕ
sessions_at g [] = 0
sessions_at g (s ∷ ss) = bit_value (s.gate == g) + sessions_at g ss

-- The word of a session has one bit, which is a CPU of the manager's.
abbrev pub HasOneCpu : Session → Type 0
HasOneCpu s = (k : ℕ) × (k < width) × (s.bitmap ≡ 2 ^ k)

-- What a registration does to the sessions.
abbrev pub Registered : Calls → Registry → Registry → Outcome ℕ → Type 0
Registered calls r r' (returns g) =
    (calls.gate ≡ some g)
    × ((s : ℕ) × HasOneCpu (record { gate = g; bitmap = s })
        × (r'.sessions ≡ record { gate = g; bitmap = s } ∷ r.sessions))
Registered calls r r' (throws e) = r'.sessions ≡ r.sessions
Registered calls r r' Outcome.blocks = ⊥

returned_gate :
    (calls : Calls) (r : Registry) (g : ℕ)
    → (op_register_client calls r).1 ≡ returns g
    → calls.gate ≡ some g
unfolding op_register_client
returned_gate calls r g h = ground arith

Registered-Leaves :
    (calls : Calls) (r r' : Registry) (o : Outcome ℕ) (s k : ℕ) (new : Bits)
    → s ≡ 2 ^ k
    → k < width
    → ((g : ℕ) → o ≡ returns g → calls.gate ≡ some g)
    → Leaves r s new r' o
    → Registered calls r r' o
Registered-Leaves calls r r' (returns g) s k new word lt at (a, e) =
    (at g refl, (s, (k, lt, word), e))
Registered-Leaves calls r r' (throws x) s k new word lt at (a, e) = e
Registered-Leaves calls r r' Outcome.blocks s k new word lt at l = absurd l

pub op_register_client-Registered :
    (calls : Calls) (r : Registry)
    → IsExclusive r
    → Registered calls r (op_register_client calls r).0 (op_register_client calls r).1
op_register_client-Registered calls r v = elim (select_lowest_free r.available v.wide) [
  | inl (_, full) ↦ rw (op_register_client_full calls r full) refl
  | inr (s, new, k, e, p) ↦
      Registered-Leaves calls r (op_register_client calls r).0 (op_register_client calls r).1 s k
        new p.word p.in_range (returned_gate calls r) (op_register_client-Leaves calls r s new e)
]

-- What `take_session` finds.
abbrev Took : ℕ → List Session → Option (Session × List Session) → Type 0
Took g ss none = sessions_at g ss ≡ 0
Took g ss (some (s, others)) =
    (s.gate ≡ g)
    × ((h : ℕ) → sessions_at h ss ≡ bit_value (s.gate == h) + sessions_at h others)
    × (All HasOneCpu ss → All HasOneCpu others)

Took-keep_session :
    (g : ℕ) (t : Session) (ss : List Session) (o : Option (Session × List Session))
    → (t.gate == g) ≡ false
    → Took g ss o
    → Took g (t ∷ ss) (keep_session t o)
unfolding keep_session
Took-keep_session g t ss none differs h = rw differs (omega (arith, h))
Took-keep_session g t ss (some (s, others)) differs (same, counts, kept) =
    (same, (λ h. omega (arith, counts h)), λ all. (all.0, kept all.1))

take_session-Took : (g : ℕ) (ss : List Session) → Took g ss (take_session g ss)
unfolding take_session
take_session-Took g [] = refl
take_session-Took g (t ∷ ss) = elim (Bool-cases (t.gate == g)) [
  | inl same ↦ rw same ((==_iff t.gate g).0 same, (λ h. refl), λ all. all.1)
  | inr differs ↦
      rw differs (Took-keep_session g t ss (take_session g ss) differs (take_session-Took g ss))
]

clean_up-Took :
    (g : ℕ) (r : Registry) (o : Option (Session × List Session))
    → sessions_at g r.sessions ≡ 1
    → Took g r.sessions o
    → ((h : ℕ)
        → sessions_at h (clean_up r o).sessions + bit_value (g == h) ≡ sessions_at h r.sessions)
      × (All HasOneCpu r.sessions → All HasOneCpu (clean_up r o).sessions)
unfolding clean_up
clean_up-Took g r none one h = absurd (omega (arith, one, h))
clean_up-Took g r (some (s, others)) one (same, counts, kept) =
    (λ h. omega (arith, counts h, ap (λ x. bit_value (x == h)) same), kept)

-- The deletion of a gate with one session takes that session away and no other.
pub handle_irq_sessions :
    (g : ℕ) (r : Registry)
    → sessions_at g r.sessions ≡ 1
    → ((h : ℕ)
        → sessions_at h (handle_irq false g r).sessions + bit_value (g == h)
          ≡ sessions_at h r.sessions)
      × (All HasOneCpu r.sessions → All HasOneCpu (handle_irq false g r).sessions)
unfolding handle_irq
handle_irq_sessions g r one =
    clean_up-Took g r (take_session g r.sessions) one (take_session-Took g r.sessions)

pub handle_irq_valid : (g : ℕ) (r : Registry) → handle_irq true g r ≡ r
unfolding handle_irq
handle_irq_valid g r = refl

-- A gate with a session has a word.
pub word_of_session :
    (g : ℕ) (ss : List Session)
    → All HasOneCpu ss
    → 1 ≤ sessions_at g ss
    → (k : ℕ) × (k < width) × (word_of g ss ≡ some (2 ^ k))
word_of_session g [] all there = absurd (omega arith)
word_of_session g (s ∷ ss) all there = elim (Bool-cases (s.gate == g)) [
  | inl same ↦ let (k, lt, word) = all.0 in (k, lt, rw same (ap some word))
  | inr differs ↦
      let (k, lt, found) = word_of_session g ss all.1 (ground arith) in (k, lt, rw differs found)
]

-- A CPU in the words of two gates is held twice.
pub held_twice :
    (ss : List Session) (g h w v k : ℕ)
    → g ≢ h
    → word_of g ss ≡ some w
    → word_of h ss ≡ some v
    → get (bits_of width w) k ≡ true
    → get (bits_of width v) k ≡ true
    → 2 ≤ holders k ss
held_twice [] g h w v k other eg eh bg bh = cc
held_twice (s ∷ ss) g h w v k other eg eh bg bh =
    ground
      (arith, holders-word_of ss g w k, holders-word_of ss h v k, held_twice ss g h w v k other)

-- If each session has one CPU and no gate has two sessions, a CPU that is held is the word of a gate.
pub word_of_held :
    (ss : List Session) (k : ℕ)
    → All HasOneCpu ss
    → ((g : ℕ) → sessions_at g ss ≤ 1)
    → 1 ≤ holders k ss
    → (g : ℕ) × (1 ≤ sessions_at g ss) × (word_of g ss ≡ some (2 ^ k))
word_of_held [] k all single held = absurd (omega arith)
word_of_held (s ∷ ss) k all single held = elim (Bool-cases (get (bits_of width s.bitmap) k)) [
  | inl here ↦
      let (j, lt, word) = all.0 in
      let bit =
        sym (ap (λ w. get (bits_of width w) k) word ∙ get-bits_of-two_pow width j k lt) ∙ here in
      (
        s.gate,
        omega (arith, ap bit_value ((==_iff s.gate s.gate).1 refl)),
        rw ((==_iff s.gate s.gate).1 refl)
            (ap some (word ∙ ap (λ x. 2 ^ x) (sym ((==_iff k j).0 bit)))),
      )
  | inr elsewhere ↦
      let (g, there, word) =
        word_of_held ss k all.1 (λ g. omega (arith, single g)) (ground (arith, held)) in
      (g, omega (arith, there), ground (arith, single g))
]
