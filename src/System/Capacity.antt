-- ===== src/System/Capacity.antt =====
-- How many CPUs are free: a registration that succeeds takes one of them.
use mett_eagle.Base.{
  ℕ, zero, suc, ◌<◌, ◌≡◌, refl, ◌∙◌, true, false, [], ◌∷◌, arith, ◌==◌, length, returns, throws,
  enoent, inl, inr,
}
use mett_eagle.Cpu.Bitset.{Bits, get, is_none, ones, ones_of_is_none}
use mett_eagle.Cpu.{width}
use mett_eagle.Cpu.Select.{select_lowest_free}
use mett_eagle.Registry.{Registry, Calls, op_register_client}
use mett_eagle.Registry.Lossless.{IsGranted, granted_returns}
use mett_eagle.Registry.Ownership.{op_register_client_full}

is_none_of_ones : (bs : Bits) → ones bs ≡ 0 → is_none bs ≡ true
is_none_of_ones [] h = refl
is_none_of_ones (b ∷ bs) h = ground (arith, is_none_of_ones bs)

ones_same :
    (old new : Bits)
    → length new ≡ length old
    → ((j : ℕ) → get new j ≡ get old j)
    → ones new ≡ ones old
ones_same [] [] e h = refl
ones_same [] (b ∷ bs) e h = absurd (omega arith)
ones_same (a ∷ as') [] e h = absurd (omega arith)
ones_same (a ∷ as') (b ∷ bs) e h =
    ground (arith, h 0, ones_same as' bs (omega arith) (λ j. h (suc j)))

-- Two bitsets of one length that differ in one place.
ones_taken :
    (old new : Bits) (k : ℕ)
    → length new ≡ length old
    → get old k ≡ true
    → get new k ≡ false
    → ((j : ℕ) → (j == k) ≡ false → get new j ≡ get old j)
    → ones old ≡ suc (ones new)
ones_taken [] new k e was now others = cc
ones_taken (a ∷ as') [] k e was now others = absurd (omega arith)
ones_taken (a ∷ as') (b ∷ bs) zero e was now others =
    ground (arith, ones_same as' bs (omega arith) (λ j. others (suc j) (ground arith)))
ones_taken (a ∷ as') (b ∷ bs) (suc k) e was now others = ground (
  arith,
  others 0 (ground arith),
  ones_taken as' bs k (omega arith) was now (λ j ne. others (suc j) (ground arith)),
)

-- With a free CPU, a registration that the kernel grants returns the gate and leaves one CPU less.
pub granted_takes_one :
    (calls : Calls) (r : Registry) (gate : ℕ)
    → IsGranted calls gate
    → length r.available ≡ width
    → 0 < ones r.available
    → ((op_register_client calls r).1 ≡ returns gate)
      × (length (op_register_client calls r).0.available ≡ width)
      × (ones r.available ≡ suc (ones (op_register_client calls r).0.available))
granted_takes_one calls r gate g wide free = elim (select_lowest_free r.available wide) [
  | inl (empty, _) ↦ absurd (omega (arith, ones_of_is_none r.available empty))
  | inr (s, new, k, e, p) ↦
      let (answer, left) = granted_returns calls r gate s new g e in
      let fewer = ones_taken r.available new k p.same_width p.was_free p.now_taken p.others_kept in
      (answer, rw left (p.same_width ∙ wide), rw left fewer)
]

-- With none, a registration throws -L4_ENOENT, whatever the kernel would answer.
pub full_throws :
    (calls : Calls) (r : Registry)
    → length r.available ≡ width
    → ones r.available ≡ 0
    → op_register_client calls r ≡ (r, throws enoent)
full_throws calls r wide none_free = elim (select_lowest_free r.available wide) [
  | inl (_, full) ↦ op_register_client_full calls r full
  | inr (s, new, k, e, p) ↦ absurd (
      omega (arith, ones_taken r.available new k p.same_width p.was_free p.now_taken p.others_kept))
]
