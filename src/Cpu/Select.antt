-- ===== src/Cpu/Select.antt =====
-- What `select_client_cpu` hands out and what `free_client_cpu` takes back.
use mett_eagle.Base.{
  ℕ, ◌-◌, ◌^◌, ◌<◌, ◌≡◌, sym, ap, ◌∙◌, subst, true, false, not, ◌&&◌, ◌||◌, arith, ◌==◌, returns,
  returns-injective, throws, enoent, Bool-cases, inl, inr, ◌⊎◌, length,
}
use native.Mathlib.Nat.{mod-eq_of_lt}
use native.Mathlib.Decide.{dec_lt}
use mett_eagle.Cpu.Bitset.{
  Bits, get, is_none, lowest, to_ullong, bits_of, and_bits, complement, shl_one, ffsll,
  ffsll-to_ullong, length-bits_of, length-and_bits, length-or_bits, get-and_bits, get-or_bits,
  get_above, two_pow-lt, get-bits_of-two_pow, get-bits_of-complement, get-lowest, get_below_lowest,
  lowest-le,
}
use mett_eagle.Cpu.{width, select_client_cpu, free_client_cpu}

-- `selected` is the word of the one CPU `k`, the lowest that is free in `old`, and `new` is `old`
-- without it.
pub record Picks (old : Bits) (selected : ℕ) (new : Bits) (k : ℕ) : Type 0 where
  pub word : selected ≡ 2 ^ k
  pub in_range : k < width
  pub was_free : get old k ≡ true
  pub is_lowest : (j : ℕ) → j < k → get old j ≡ false
  pub now_taken : get new k ≡ false
  pub others_kept : (j : ℕ) → (j == k) ≡ false → get new j ≡ get old j
  pub same_width : length new ≡ length old

module _ (old : Bits) (wide : length old ≡ width) (free : is_none old ≡ false) where
  abbrev index : ℕ
  index = lowest old - 1

  abbrev selected : ℕ
  selected = shl_one width (ffsll width (to_ullong old) - 1)

  index-lt : index < width
  index-lt = omega (arith, lowest-le old)

  found : ffsll width (to_ullong old) ≡ lowest old
  found = subst (λ n. ffsll n (to_ullong old) ≡ lowest old) wide (ffsll-to_ullong old)

  selected_word : selected ≡ 2 ^ index
  selected_word = rw found (mod-eq_of_lt (two_pow-lt index width index-lt))

  abbrev rest : Bits
  rest = and_bits old (bits_of width (complement width selected))

  mask : (j : ℕ) → j < width → get (bits_of width (complement width selected)) j ≡ not (j == index)
  mask j lt = rw selected_word (
      get-bits_of-complement width (2 ^ index) j (two_pow-lt index width index-lt) lt
      ∙ ap not (get-bits_of-two_pow width index j index-lt))

  get-rest : (j : ℕ) → get rest j ≡ (get old j && not (j == index))
  get-rest j = elim (dec_lt j width) [
    | yes below ↦ get-and_bits old _ j ∙ ap (λ b. get old j && b) (mask j below)
    | no above ↦ rw (
      get-and_bits old (bits_of width (complement width selected)) j,
      get_above old j (omega arith),
    )
  ]

  select_rest : select_client_cpu old ≡ returns (selected, rest)
  unfolding select_client_cpu
  select_rest = rw free

  selected-Picks : Picks old selected rest index
  selected-Picks = record {
    word = selected_word;
    in_range = index-lt;
    was_free = get-lowest old free;
    is_lowest = get_below_lowest old;
    now_taken = ground (arith, get-rest index);
    others_kept = λ j ne. ground (arith, get-rest j);
    same_width =
        length-and_bits old _ (wide ∙ sym (length-bits_of width (complement width selected)));
  }

-- On a bitset of the manager's width, `select_client_cpu` throws -L4_ENOENT if no CPU is free, and
-- otherwise hands out the word of the lowest free CPU, takes that CPU out of the bitset, and
-- leaves every other CPU as it was.
pub select_lowest_free :
    (old : Bits)
    → length old ≡ width
    → ((is_none old ≡ true) × (select_client_cpu old ≡ throws enoent))
      ⊎ ((s : ℕ) × (new : Bits) × (k : ℕ) × (select_client_cpu old ≡ returns (s, new))
          × Picks old s new k)
unfolding select_client_cpu
select_lowest_free old wide = elim (Bool-cases (is_none old)) [
  | inl empty ↦ inl (empty, rw empty)
  | inr free ↦ inr (
    selected old wide free,
    rest old wide free,
    index old wide free,
    select_rest old wide free,
    selected-Picks old wide free,
  )
]

pub length-free_client_cpu :
    (w : ℕ) (old : Bits) → length old ≡ width → length (free_client_cpu w old) ≡ width
unfolding free_client_cpu
length-free_client_cpu w old wide =
    length-or_bits old (bits_of width w) (wide ∙ sym (length-bits_of width w)) ∙ wide

pub get-free_client_cpu :
    (w : ℕ) (old : Bits) (i : ℕ)
    → length old ≡ width
    → get (free_client_cpu w old) i ≡ (get old i || get (bits_of width w) i)
unfolding free_client_cpu
get-free_client_cpu w old i wide =
    get-or_bits old (bits_of width w) i (wide ∙ sym (length-bits_of width w))

-- A selection that succeeded, by the CPU that it picked.
pub select-Picks :
    (old new : Bits) (s : ℕ)
    → length old ≡ width
    → select_client_cpu old ≡ returns (s, new)
    → (k : ℕ) × Picks old s new k
select-Picks old new s wide e = go (select_lowest_free old wide)
  where
    go :
        ((is_none old ≡ true) × (select_client_cpu old ≡ throws enoent))
          ⊎ ((s : ℕ) × (new : Bits) × (k : ℕ) × (select_client_cpu old ≡ returns (s, new))
              × Picks old s new k)
        → (k : ℕ) × Picks old s new k
    go (inl (_, t)) = cc
    go (inr (s', new', k, r, picks)) =
        (k, subst (λ p. Picks old p.0 p.1 k) (returns-injective (sym r ∙ e)) picks)

-- Bit `i` of the word that a selection handed out.
pub get-Picks :
    (old new : Bits) (s k i : ℕ) → Picks old s new k → get (bits_of width s) i ≡ (i == k)
get-Picks old new s k i p = rw p.word (get-bits_of-two_pow width k i p.in_range)

-- Returning the CPU that was just selected restores the bitset: every CPU is as free as it was.
free-select :
    (old new : Bits) (s i : ℕ)
    → length old ≡ width
    → select_client_cpu old ≡ returns (s, new)
    → get (free_client_cpu s new) i ≡ get old i
free-select old new s i wide e =
    let (k, p) = select-Picks old new s wide e in
    ground (
      arith,
      get-free_client_cpu s new i (p.same_width ∙ wide),
      get-Picks old new s k i p,
      p.now_taken,
      p.was_free,
      p.others_kept i,
    )
