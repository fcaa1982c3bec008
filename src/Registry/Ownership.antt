-- ===== src/Registry/Ownership.antt =====
-- Who holds which CPU: each is free or held by one client, through every registration and every
-- deletion of a gate.
use mett_eagle.Base.{
  ℕ, ◌+◌, ◌≤◌, ◌≡◌, refl, ◌∙◌, subst, Bool, true, false, List, [], ◌∷◌, some, arith, Outcome,
  returns, throws, enoent, bit_value, length, inl, inr, Option-cases,
}
use mett_eagle.Cpu.Bitset.{Bits, get, bits_of}
use mett_eagle.Cpu.{width, select_client_cpu}
use mett_eagle.Cpu.Select.{
  Picks, select_lowest_free, get-Picks, get-free_client_cpu, length-free_client_cpu,
}
use mett_eagle.Registry.{
  Session, Registry, Calls, op_register_client, take_session, handle_irq, clean_up,
}

-- How many clients hold CPU `i`.
abbrev pub holders : ℕ → List Session → ℕ
holders i [] = 0
holders i (s ∷ ss) = bit_value (get (bits_of width s.bitmap) i) + holders i ss

-- CPU `i` counted where it is: in the pool of free CPUs, and with each client that holds it.
abbrev pub places : ℕ → Registry → ℕ
places i r = bit_value (get r.available i) + holders i r.sessions

-- What a registration that selected a CPU leaves behind, on success and after a throw.
abbrev pub Leaves : Registry → ℕ → Bits → Registry → Outcome ℕ → Type 0
Leaves r s new r' (returns g) =
    (r'.available ≡ new) × (r'.sessions ≡ record { gate = g; bitmap = s } ∷ r.sessions)
Leaves r s new r' (throws e) = (r'.available ≡ new) × (r'.sessions ≡ r.sessions)
Leaves r s new r' Outcome.blocks = ⊥

pub op_register_client-Leaves :
    (calls : Calls) (r : Registry) (s : ℕ) (new : Bits)
    → select_client_cpu r.available ≡ returns (s, new)
    → Leaves r s new (op_register_client calls r).0 (op_register_client calls r).1
unfolding op_register_client
op_register_client-Leaves calls r s new e = ground arith

pub op_register_client_full :
    (calls : Calls) (r : Registry)
    → select_client_cpu r.available ≡ throws enoent
    → op_register_client calls r ≡ (r, throws enoent)
unfolding op_register_client
op_register_client_full calls r e = rw (e, op_register_client)

-- The free CPUs keep the manager's width, and each CPU is in one place at most.
pub record IsExclusive (r : Registry) : Type 0 where
  pub wide : length r.available ≡ width
  pub single : (i : ℕ) → places i r ≤ 1

pub bit_value_select :
    (old new : Bits) (s k i : ℕ)
    → Picks old s new k
    → bit_value (get new i) + bit_value (get (bits_of width s) i) ≡ bit_value (get old i)
bit_value_select old new s k i p =
    ground (arith, get-Picks old new s k i p, p.now_taken, p.was_free, p.others_kept i)

module _ (calls : Calls) (r : Registry) (v : IsExclusive r) where
  after : Registry
  after = (op_register_client calls r).0

  answer : Outcome ℕ
  answer = (op_register_client calls r).1

  places-Leaves :
      (s : ℕ) (new : Bits) (k : ℕ) (r' : Registry) (o : Outcome ℕ)
      → Picks r.available s new k
      → Leaves r s new r' o
      → (length r'.available ≡ width) × ((i : ℕ) → places i r' ≤ places i r)
  places-Leaves s new k r' (returns g) p (a, e) = (
    rw a (p.same_width ∙ v.wide),
    λ i. rw (a, e) (omega (arith, bit_value_select r.available new s k i p)),
  )
  places-Leaves s new k r' (throws x) p (a, e) = (
    rw a (p.same_width ∙ v.wide),
    λ i. rw (a, e) (omega (arith, bit_value_select r.available new s k i p)),
  )
  places-Leaves s new k r' Outcome.blocks p l = absurd l

-- A registration puts no CPU into a second place.
pub places-op_register_client :
    (calls : Calls) (r : Registry)
    → IsExclusive r
    → (length (op_register_client calls r).0.available ≡ width)
      × ((i : ℕ) → places i (op_register_client calls r).0 ≤ places i r)
places-op_register_client calls r v = elim (select_lowest_free r.available v.wide) [
  | inl (_, full) ↦ rw (op_register_client_full calls r full) (v.wide, λ i. omega arith)
  | inr (s, new, k, e, p) ↦
      places-Leaves calls r v s new k (op_register_client calls r).0 (op_register_client calls r).1
        p (op_register_client-Leaves calls r s new e)
]

-- A registration keeps the CPUs exclusive, whether it succeeds or throws.
pub op_register_client-IsExclusive :
    (calls : Calls) (r : Registry) → IsExclusive r → IsExclusive (op_register_client calls r).0
op_register_client-IsExclusive calls r v =
    let (wide, fewer) = places-op_register_client calls r v in
    record { wide = wide; single = λ i. omega (arith, fewer i, v.single i) }

holders-take_session :
    (gate i : ℕ) (ss : List Session) (s : Session) (others : List Session)
    → take_session gate ss ≡ some (s, others)
    → holders i ss ≡ bit_value (get (bits_of width s.bitmap) i) + holders i others
unfolding take_session
holders-take_session gate i [] s others e = cc
holders-take_session gate i (t ∷ ss) s others e = elim (Option-cases (take_session gate ss)) [
  | inl f ↦ ground arith
  | inr ((u, rest), f) ↦ ground (arith, holders-take_session gate i ss u rest f)
]

places-clean_up :
    (r : Registry) (i : ℕ) (s : Session) (others : List Session)
    → IsExclusive r
    → holders i r.sessions ≡ bit_value (get (bits_of width s.bitmap) i) + holders i others
    → places i (clean_up r (some (s, others))) ≡ places i r
unfolding clean_up
places-clean_up r i s others v e =
    ground (arith, get-free_client_cpu s.bitmap r.available i v.wide, v.single i)

-- A deleted gate moves the CPUs of its client to the pool: no CPU is lost and none is made up.
pub places-handle_irq :
    (gate_valid : Bool) (gate : ℕ) (r : Registry) (i : ℕ)
    → IsExclusive r
    → places i (handle_irq gate_valid gate r) ≡ places i r
unfolding handle_irq
places-handle_irq true gate r i v = refl
places-handle_irq false gate r i v = elim (Option-cases (take_session gate r.sessions)) [
  | inl e ↦ rw (e, clean_up) refl
  | inr ((s, others), e) ↦
      rw e (places-clean_up r i s others v (holders-take_session gate i r.sessions s others e))
]

handle_irq-wide :
    (gate_valid : Bool) (gate : ℕ) (r : Registry)
    → length r.available ≡ width
    → length (handle_irq gate_valid gate r).available ≡ width
unfolding handle_irq
handle_irq-wide true gate r w = w
handle_irq-wide false gate r w = elim (Option-cases (take_session gate r.sessions)) [
  | inl e ↦ rw (e, clean_up) w
  | inr ((s, others), e) ↦ rw (e, clean_up) (length-free_client_cpu s.bitmap r.available w)
]

pub handle_irq-IsExclusive :
    (gate_valid : Bool) (gate : ℕ) (r : Registry)
    → IsExclusive r
    → IsExclusive (handle_irq gate_valid gate r)
handle_irq-IsExclusive gate_valid gate r v = record {
  wide = handle_irq-wide gate_valid gate r v.wide;
  single = λ i. rw (places-handle_irq gate_valid gate r i v) (v.single i);
}

-- What happens to the registry: registrations with any outcome, and IRQs for any gate.
pub data Step (r : Registry) : Registry → Type 0 where
  register : (calls : Calls) → Step r (op_register_client calls r).0
  gate_deleted : (gate_valid : Bool) (gate : ℕ) → Step r (handle_irq gate_valid gate r)

pub data Reach (r : Registry) : Registry → Type 0 where
  here : Reach r r
  later : {s t : Registry} → Reach r s → Step s t → Reach r t

-- In every registry that is reached from one with exclusive CPUs, no CPU is free and assigned at
-- once, and none is assigned to two clients.
pub Reach-IsExclusive : {r s : Registry} → IsExclusive r → Reach r s → IsExclusive s
Reach-IsExclusive v here = v
Reach-IsExclusive v (later p (register calls)) =
    op_register_client-IsExclusive calls _ (Reach-IsExclusive v p)
Reach-IsExclusive v (later p (gate_deleted valid gate)) =
    handle_irq-IsExclusive valid gate _ (Reach-IsExclusive v p)

-- A registration that succeeds puts the lowest free CPU into one new session and moves no other.
register_assigns_lowest :
    (calls : Calls) (r : Registry) (g : ℕ)
    → IsExclusive r
    → (op_register_client calls r).1 ≡ returns g
    → (s : ℕ) × (k : ℕ) × (new : Bits) × Picks r.available s new k
      × ((op_register_client calls r).0.available ≡ new)
      × ((op_register_client calls r).0.sessions ≡ record { gate = g; bitmap = s } ∷ r.sessions)
register_assigns_lowest calls r g v h = elim (select_lowest_free r.available v.wide) [
  | inl (_, full) ↦ cc (op_register_client_full calls r full)
  | inr (s, new, k, e, p) ↦
      let l =
        subst (Leaves r s new (op_register_client calls r).0) h
          (op_register_client-Leaves calls r s new e) in
      (s, k, new, p, l.0, l.1)
]
