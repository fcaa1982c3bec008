-- ===== src/Examples/Cpus.antt =====
-- CPUs and registrations: mett-eagle/manager/src/manager_registry.cc.
use mett_eagle.Base.{
  ℕ, subst, ◌<◌, ◌≡◌, refl, ◌⊎◌, true, false, [], ◌∷◌, none, some, arith, replicate, returns,
  throws, enoent, kernel,
}
use mett_eagle.Cpu.Bitset.{Bits, get, is_none, to_ullong, bits_of, ffsll}
use mett_eagle.Cpu.{select_client_cpu}
use mett_eagle.Cpu.Select.{Picks, select_lowest_free}
use mett_eagle.Registry.{Registry, Calls, op_register_client}
use mett_eagle.Registry.Ownership.{IsExclusive, places, op_register_client-IsExclusive}
use mett_eagle.Registry.Failure.{failed_register_loses_cpu}

-- CPUs 2 and 3 are free.
abbrev two_free : Bits
two_free = false ∷ false ∷ true ∷ true ∷ replicate 60 false

abbrev one_free : Bits
one_free = false ∷ false ∷ false ∷ true ∷ replicate 60 false

abbrev none_free : Bits
none_free = replicate 64 false

select_lowest_free_example :
    ((is_none two_free ≡ true) × (select_client_cpu two_free ≡ throws enoent))
    ⊎ ((s : ℕ) × (new : Bits) × (k : ℕ) × (select_client_cpu two_free ≡ returns (s, new))
        × Picks two_free s new k)
select_lowest_free_example = select_lowest_free two_free refl

abbrev fresh : Registry
fresh = record { available = two_free; sessions = []; threads = 0 }

fresh-IsExclusive : IsExclusive fresh
fresh-IsExclusive = record { wide = refl; single = λ i. ground arith }

abbrev full : Registry
full = record fresh { available = none_free }

-- Every call succeeds, and the gate is 7.
abbrev pub good : Calls
good = record {
  create_scheduler = none;
  thread_failed = false;
  gate = some 7;
  cancelled = false;
  dec_refcnt = none;
  register_irq = none;
  run_thread = none;
}

-- The scheduler object cannot be created.
abbrev bad : Calls
bad = record good { create_scheduler = some (kernel 12) }

abbrev pub one_client : Registry
one_client = record {
  available = one_free;
  sessions = record { gate = 7; bitmap = 4 } ∷ [];
  threads = 1;
}

register_good : op_register_client good fresh ≡ (one_client, returns 7)
unfolding op_register_client select_client_cpu ffsll to_ullong bits_of
register_good = refl

pub one_client-IsExclusive : IsExclusive one_client
one_client-IsExclusive =
    subst (λ x. IsExclusive x.0) register_good
      (op_register_client-IsExclusive good fresh fresh-IsExclusive)

register_bad :
    op_register_client bad fresh ≡ (record fresh { available = one_free }, throws (kernel 12))
unfolding op_register_client select_client_cpu ffsll to_ullong bits_of
register_bad = refl

register_bad_answer : (op_register_client bad fresh).1 ≡ throws (kernel 12)
unfolding op_register_client select_client_cpu
register_bad_answer = refl

failed_register_loses_cpu_example :
    (k : ℕ) × (get two_free k ≡ true)
    × ((j : ℕ) → j < k → get two_free j ≡ false)
    × ((op_register_client bad fresh).0.sessions ≡ [])
    × (places k (op_register_client bad fresh).0 ≡ 0)
failed_register_loses_cpu_example =
    failed_register_loses_cpu bad fresh (kernel 12) fresh-IsExclusive refl register_bad_answer
