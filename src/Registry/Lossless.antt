-- ===== src/Registry/Lossless.antt =====
-- Registrations during which the kernel's calls succeed, and the CPU of a client that goes.
use mett_eagle.Base.{
  ℕ, ◌-◌, zero, suc, ◌^◌, ◌<◌, ◌≡◌, refl, ◌∙◌, subst, true, false, List, [], ◌∷◌, none, some, ◌==◌,
  ==_iff, returns, length, arith, inl, inr, Bool-cases,
}
use mett_eagle.Cpu.Bitset.{Bits, get, is_none, get-bits_of-two_pow}
use mett_eagle.Cpu.{width, select_client_cpu, free_client_cpu}
use mett_eagle.Cpu.Select.{select_lowest_free, get-free_client_cpu}
use mett_eagle.Registry.{
  Session, Registry, Calls, op_register_client, take_session, keep_session, clean_up, handle_irq,
}
use mett_eagle.Registry.Sessions.{word_of}
use mett_eagle.Registry.Ownership.{
  IsExclusive, Leaves, op_register_client-Leaves, op_register_client_full, places, bit_value_select,
}

-- The kernel refuses nothing of a registration, and names the new gate.
pub record IsGranted (calls : Calls) (gate : ℕ) : Type 0 where
  pub scheduler : calls.create_scheduler ≡ none
  pub named : calls.gate ≡ some gate
  pub counted : calls.dec_refcnt ≡ none
  pub irq : calls.register_irq ≡ none
  pub runs : calls.run_thread ≡ none

-- Every call succeeds that the registration makes after it has selected a CPU.
abbrev pub IsUntroubled : Calls → Type 0
IsUntroubled calls = (gate : ℕ) × IsGranted calls gate

pub granted_returns :
    (calls : Calls) (r : Registry) (gate s : ℕ) (new : Bits)
    → IsGranted calls gate
    → select_client_cpu r.available ≡ returns (s, new)
    → ((op_register_client calls r).1 ≡ returns gate)
      × ((op_register_client calls r).0.available ≡ new)
unfolding op_register_client
granted_returns calls r gate s new g e = ground arith

-- Such a registration loses no CPU, whether it finds a free one or throws.
pub untroubled_keeps :
    (calls : Calls) (r : Registry) (i : ℕ)
    → IsUntroubled calls
    → IsExclusive r
    → places i (op_register_client calls r).0 ≡ places i r
untroubled_keeps calls r i (gate, granted) v = elim (select_lowest_free r.available v.wide) [
  | inl (_, full) ↦ rw (op_register_client_full calls r full) refl
  | inr (s, new, k, e, p) ↦
      let back = (granted_returns calls r gate s new granted e).0 in
      let l =
        subst (Leaves r s new (op_register_client calls r).0) back
          (op_register_client-Leaves calls r s new e) in
      rw (l.0, l.1) (omega (arith, bit_value_select r.available new s k i p))
]

get_of_is_none : (bs : Bits) (k : ℕ) → is_none bs ≡ true → get bs k ≡ false
get_of_is_none [] k h = refl
get_of_is_none (b ∷ bs) zero h = ground arith
get_of_is_none (b ∷ bs) (suc k) h = ground (arith, get_of_is_none bs k)

-- With a free CPU it returns its gate.
pub granted_registers :
    (calls : Calls) (r : Registry) (gate k : ℕ)
    → IsGranted calls gate
    → length r.available ≡ width
    → get r.available k ≡ true
    → (op_register_client calls r).1 ≡ returns gate
granted_registers calls r gate k granted wide free = elim (select_lowest_free r.available wide) [
  | inl (empty, _) ↦ cc (get_of_is_none r.available k empty)
  | inr (s, new, j, e, p) ↦ (granted_returns calls r gate s new granted e).0
]

-- `take_session` finds the session of the word of a gate.
take_session-found :
    (g w : ℕ) (ss : List Session)
    → word_of g ss ≡ some w
    → (s : Session) × (others : List Session) × (take_session g ss ≡ some (s, others))
      × (s.bitmap ≡ w)
unfolding take_session keep_session
take_session-found g w [] found = cc
take_session-found g w (t ∷ ss) found = elim (Bool-cases (t.gate == g)) [
  | inl same ↦ (t, ss, rw same refl, ground (arith, found))
  | inr differs ↦
      let (s, others, e, bitmap) = take_session-found g w ss (ground (arith, found)) in
      (s, t ∷ others, rw (differs, e) refl, bitmap)
]

pub handle_irq_taken :
    (g : ℕ) (r : Registry) (s : Session) (others : List Session)
    → take_session g r.sessions ≡ some (s, others)
    → handle_irq false g r ≡ record r {
      available = free_client_cpu s.bitmap r.available;
      sessions = others;
      threads = r.threads - 1;
    }
unfolding handle_irq clean_up
handle_irq_taken g r s others e = rw e refl

-- When a client deletes its gate, its CPU is free again.
pub handle_irq_frees :
    (g k : ℕ) (r : Registry)
    → k < width
    → length r.available ≡ width
    → word_of g r.sessions ≡ some (2 ^ k)
    → get (handle_irq false g r).available k ≡ true
unfolding handle_irq clean_up
handle_irq_frees g k r lt wide word =
    let (s, others, e, bitmap) = take_session-found g (2 ^ k) r.sessions word in
    let bit = get-bits_of-two_pow width k k lt ∙ (==_iff k k).1 refl in
    rw (e, bitmap) (ground (arith, get-free_client_cpu (2 ^ k) r.available k wide, bit))
