-- ===== src/Registry/Failure.antt =====
-- What a registration that fails leaves behind.
use mett_eagle.Base.{ℕ, ◌<◌, ◌≡◌, subst, true, false, arith, throws, Error, inl, inr}
use mett_eagle.Cpu.Bitset.{get, is_none}
use mett_eagle.Cpu.Select.{select_lowest_free}
use mett_eagle.Registry.{Registry, Calls, op_register_client}
use mett_eagle.Registry.Ownership.{IsExclusive, Leaves, places, op_register_client-Leaves}

-- If the pool has the manager's width and each CPU is free or held once at most, a registration that
-- throws although a CPU was free loses a CPU: the lowest free CPU is no longer in the pool, the sessions
-- are as before, and so that CPU is in no place.
pub failed_register_loses_cpu :
    (calls : Calls) (r : Registry) (x : Error)
    → IsExclusive r
    → is_none r.available ≡ false
    → (op_register_client calls r).1 ≡ throws x
    → (k : ℕ) × (get r.available k ≡ true)
      × ((j : ℕ) → j < k → get r.available j ≡ false)
      × ((op_register_client calls r).0.sessions ≡ r.sessions)
      × (places k (op_register_client calls r).0 ≡ 0)
failed_register_loses_cpu calls r x v free h = elim (select_lowest_free r.available v.wide) [
  | inl (empty, _) ↦ cc
  | inr (s, new, k, e, p) ↦
      let l =
        subst (Leaves r s new (op_register_client calls r).0) h
          (op_register_client-Leaves calls r s new e) in
      (
        k,
        p.was_free,
        p.is_lowest,
        l.1,
        rw (l.0, l.1) (ground (arith, p.now_taken, p.was_free, v.single k)),
      )
]
