-- ===== src/CapAlloc/Search.antt =====
-- What `alloc` finds when no other thread runs.
use mett_eagle.Base.{
  ℕ, zero, suc, ◌+◌, ◌*◌, ◌%◌, ◌≤◌, ◌<◌, ◌≡◌, ◌≢◌, refl, ap, ◌∙◌, ◌⊎◌, inl, inr, List, [], ◌∷◌,
  Option, none, some, arith, ltb, length, get_or, ◌==◌, if◌then◌else◌, Bool-cases, ==_iff,
}
use native.Mathlib.Nat.{mul-div_cancel, mod_self, mod-eq_of_lt}
use native.Mathlib.Decide.{dec_lt}
use mett_eagle.CapAlloc.{
  f_used, SafeCountingCapAlloc, store, search, acquire, alloc_slot, range_check_and_get_idx,
}

-- The slots from `i` up to, and without, `start`, around the end.
abbrev pub Ahead : ℕ → ℕ → ℕ → Type 0
Ahead i start k = ((i ≤ k) × (k < start)) ⊎ ((start < i) × ((i ≤ k) ⊎ (k < start)))

-- The loop goes on fewer than `n` times.
abbrev pub Within : ℕ → ℕ → ℕ → ℕ → Type 0
Within capacity i start n =
    ((i ≤ start) × (start < i + n)) ⊎ ((start < i) × (capacity + start < i + n))

-- How a search ends.
abbrev Ends : List ℕ → ℕ → ℕ → Option (Option ℕ) → Type 0
Ends items start i none = ⊥
Ends items start i (some none) =
    (k : ℕ) → k < length items → Ahead i start k → get_or items k f_used ≢ 0
Ends items start i (some (some k)) = (k < length items) × (get_or items k f_used ≡ 0)

pub next_slot :
    (capacity i : ℕ)
    → i < capacity
    → ((i + 1 < capacity) × ((i + 1) % capacity ≡ i + 1))
      ⊎ ((i + 1 ≡ capacity) × ((i + 1) % capacity ≡ 0))
next_slot capacity i h = elim (dec_lt (i + 1) capacity) [
  | yes lt ↦ inl (lt, mod-eq_of_lt lt)
  | no ge ↦
      let last : i + 1 ≡ capacity = omega arith in
      inr (last, ap (λ n. n % capacity) last ∙ mod_self capacity)
]

pub Ahead-next_slot :
    (capacity i start k : ℕ)
    → i < capacity
    → start < capacity
    → i ≢ start
    → k < capacity
    → Ahead i start k
    → (k ≡ i) ⊎ Ahead ((i + 1) % capacity) start k
Ahead-next_slot capacity i start k h s ne m a = omega (arith, next_slot capacity i h)

pub Within-next_slot :
    (capacity i start n : ℕ)
    → i < capacity
    → start < capacity
    → i ≢ start
    → Within capacity i start (suc n)
    → Within capacity ((i + 1) % capacity) start n
Within-next_slot capacity i start n h s ne w = omega (arith, next_slot capacity i h)

pub next_below : (capacity i : ℕ) → i < capacity → (i + 1) % capacity < capacity
next_below capacity i h = omega (arith, next_slot capacity i h)

Ends-later :
    (items : List ℕ) (start i : ℕ)
    → i < length items
    → start < length items
    → i ≢ start
    → get_or items i f_used ≢ 0
    → (found : Option (Option ℕ)) → Ends items start ((i + 1) % length items) found
    → Ends items start i found
Ends-later items start i h s ne used none e = e
Ends-later items start i h s ne used (some (some k)) e = e
Ends-later items start i h s ne used (some none) e = λ k m a.
    elim (Ahead-next_slot (length items) i start k h s ne m a) [
      | inl here ↦ ground arith
      | inr rest ↦ e k m rest
    ]

search-Ends :
    (fuel : ℕ) (items : List ℕ) (start i : ℕ)
    → i < length items
    → start < length items
    → Within (length items) i start fuel
    → Ends items start i (search fuel items start i)
unfolding search
search-Ends zero items start i h s w = absurd (omega arith)
search-Ends (suc fuel) items start i h s w = elim (Bool-cases (i == start)) [
  | inl same ↦ rw same (λ k m a. absurd (omega (arith, (==_iff i start).0 same)))
  | inr other ↦ rw other (elim (Bool-cases (get_or items i f_used == 0)) [
    | inl free ↦ rw free (h, (==_iff _ _).0 free)
    | inr used ↦ rw used (
        Ends-later items start i h s (ground arith) (ground arith)
          (search fuel items start ((i + 1) % length items))
          (search-Ends fuel items start ((i + 1) % length items) (next_below (length items) i h) s
            (Within-next_slot (length items) i start fuel h s (ground arith) w)))
  ])
]

item-store :
    (items : List ℕ) (i k value : ℕ)
    → get_or (store items i value) k f_used
      ≡ (if k == i then (if ltb i (length items) then value else f_used) else get_or items k f_used)
unfolding store
item-store [] i k value = ground arith
item-store (x ∷ xs) zero zero value = ground arith
item-store (x ∷ xs) zero (suc k) value = ground arith
item-store (x ∷ xs) (suc i) zero value = ground arith
item-store (x ∷ xs) (suc i) (suc k) value = ground (arith, item-store xs i k value)

length-store : (items : List ℕ) (i value : ℕ) → length (store items i value) ≡ length items
unfolding store
length-store [] i value = refl
length-store (x ∷ xs) zero value = refl
length-store (x ∷ xs) (suc i) value = ap suc (length-store xs i value)

-- The capability of slot `k` was returned: it was free, now it has one reference, the other slots are
-- as before, and the capability is recognised as that of slot `k`.
pub record IsAllocated (cap_size : ℕ) (a b : SafeCountingCapAlloc) (cap k : ℕ) : Type 0 where
  pub in_range : k < length a.items
  pub was_free : get_or a.items k f_used ≡ 0
  pub in_use : get_or b.items k f_used ≡ f_used + 1
  pub others : (j : ℕ) → j ≢ k → get_or b.items j f_used ≡ get_or a.items j f_used
  pub recognised : range_check_and_get_idx cap_size b cap ≡ some k

-- What `alloc` does, by its result: it returns the capability of a slot that was free and now has one
-- reference, or it returns no capability, and every slot is in use, the one that was allocated last
-- excepted.
abbrev pub Allocates : ℕ → SafeCountingCapAlloc → Option (SafeCountingCapAlloc × Option ℕ) → Type 0
Allocates cap_size a result =
    (b : SafeCountingCapAlloc) × (found : Option ℕ) × (result ≡ some (b, found))
    × (((cap : ℕ) × (k : ℕ) × (found ≡ some cap) × IsAllocated cap_size a b cap k)
        ⊎ ((found ≡ none)
            × (b ≡ a)
            × ((k : ℕ) → k < length a.items → k ≢ a.last → get_or a.items k f_used ≢ 0)))

module _ (cap_size : ℕ) (sized : 0 < cap_size) (a : SafeCountingCapAlloc)
    (in_range : a.last < length a.items) where
  acquire-IsAllocated :
      (k : ℕ)
      → k < length a.items
      → get_or a.items k f_used ≡ 0
      → IsAllocated cap_size a (acquire cap_size a (some k)).0 ((k + a.bias) * cap_size) k
  unfolding acquire range_check_and_get_idx
  acquire-IsAllocated k h free = record {
    in_range = h;
    was_free = free;
    in_use = ground (arith, item-store a.items k k (f_used + 1));
    others = λ j ne. ground (arith, item-store a.items k j (f_used + 1));
    recognised =
        rw (mul-div_cancel (k + a.bias) sized)
          (ground (arith, length-store a.items k (f_used + 1)));
  }

  abbrev first : ℕ
  first = (a.last + 1) % length a.items

  Ahead-first : (k : ℕ) → k < length a.items → k ≢ a.last → Ahead first a.last k
  Ahead-first k h ne = omega (arith, next_slot (length a.items) a.last in_range)

  by_search :
      (r : Option (Option ℕ))
      → Ends a.items a.last first r
      → Allocates cap_size a (elim r [ none ↦ none | some found ↦ some (acquire cap_size a found) ])
  unfolding acquire
  by_search none e = absurd e
  by_search (some none) e = (a, none, refl, inr (refl, refl, λ k h ne. e k h (Ahead-first k h ne)))
  by_search (some (some k)) e = (
    (acquire cap_size a (some k)).0,
    some ((k + a.bias) * cap_size),
    refl,
    inl ((k + a.bias) * cap_size, k, refl, acquire-IsAllocated k e.0 e.1),
  )

  -- Without other threads, and if the slot allocated last is one of the slots, `alloc` always ends:
  -- it returns the capability of a slot that was free and now has one reference, the others being
  -- as before, or it returns no capability and every slot is in use, the one that was allocated
  -- last excepted, which is never looked at.
  pub alloc_slot-IsAllocated : Allocates cap_size a (alloc_slot cap_size a)
  unfolding alloc_slot
  alloc_slot-IsAllocated = by_search (search (length a.items) a.items a.last first) (
      search-Ends (length a.items) a.items a.last first
        (next_below (length a.items) a.last in_range) in_range
        (omega (arith, next_slot (length a.items) a.last in_range)))
