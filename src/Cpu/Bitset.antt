-- ===== src/Cpu/Bitset.antt =====
-- `std::bitset` with its lowest bit first, its conversions, and `ffsll` of the C library.
use mett_eagle.Base.{
  ℕ, zero, suc, ◌+◌, ◌-◌, ◌*◌, ◌/◌, ◌%◌, ◌^◌, ◌≤◌, ◌<◌, ◌≡◌, refl, ap, subst, ◌≢◌, Bool, true,
  false, not, ◌&&◌, ◌||◌, List, [], ◌∷◌, arith, ◌==◌, if◌then◌else◌, bit_value, length,
}
use native.Mathlib.Nat.{pow-suc}

abbrev pub Bits : Type 0
Bits = List Bool

-- `test (i)`, false above the width.
abbrev pub get : Bits → ℕ → Bool
get [] i = false
get (b ∷ bs) zero = b
get (b ∷ bs) (suc i) = get bs i

abbrev pub is_none : Bits → Bool
is_none [] = true
is_none (b ∷ bs) = if b then false else is_none bs

-- `bitset::count ()`, the number of ones.
abbrev pub ones : Bits → ℕ
ones [] = 0
ones (b ∷ bs) = bit_value b + ones bs

unfoldable pub to_ullong : Bits → ℕ
to_ullong [] = 0
to_ullong (b ∷ bs) = bit_value b + 2 * to_ullong bs

-- The bitset of `n` bits that is made from a number.
unfoldable pub bits_of : ℕ → ℕ → Bits
bits_of zero w = []
bits_of (suc n) w = (w % 2 == 1) ∷ bits_of n (w / 2)

abbrev pub and_bits : Bits → Bits → Bits
and_bits (a ∷ xs) (b ∷ bs) = (a && b) ∷ and_bits xs bs
and_bits _ _ = []

abbrev pub or_bits : Bits → Bits → Bits
or_bits (a ∷ xs) (b ∷ bs) = (a || b) ∷ or_bits xs bs
or_bits _ _ = []

-- `~w` and `1 << k` on an unsigned word of `n` bits.
abbrev pub complement : ℕ → ℕ → ℕ
complement n w = 2 ^ n - 1 - w

abbrev pub shl_one : ℕ → ℕ → ℕ
shl_one n k = 2 ^ k % 2 ^ n

-- One plus the index of the lowest one in a word of `n` bits, or 0.
unfoldable pub ffsll : ℕ → ℕ → ℕ
ffsll zero w = 0
ffsll (suc n) w =
    let rest = ffsll n (w / 2) in if w % 2 == 1 then 1 else if rest == 0 then 0 else rest + 1

-- The same, read off the bitset.
abbrev pub lowest : Bits → ℕ
lowest [] = 0
lowest (b ∷ bs) = let rest = lowest bs in if b then 1 else if rest == 0 then 0 else rest + 1

pub ffsll-to_ullong : (bs : Bits) → ffsll (length bs) (to_ullong bs) ≡ lowest bs
unfolding ffsll to_ullong
ffsll-to_ullong [] = refl
ffsll-to_ullong (b ∷ bs) =
    ground (arith, ffsll-to_ullong bs, ap (ffsll (length bs)) (halve b (to_ullong bs)))
  where
    halve : (b : Bool) (w : ℕ) → (bit_value b + 2 * w) / 2 ≡ w
    halve b w = ground arith

pub length-bits_of : (n w : ℕ) → length (bits_of n w) ≡ n
unfolding bits_of
length-bits_of zero w = refl
length-bits_of (suc n) w = ap suc (length-bits_of n (w / 2))

pub length-and_bits : (xs bs : Bits) → length xs ≡ length bs → length (and_bits xs bs) ≡ length xs
length-and_bits [] bs h = refl
length-and_bits (a ∷ xs) [] h = absurd (omega arith)
length-and_bits (a ∷ xs) (b ∷ bs) h = ap suc (length-and_bits xs bs (omega arith))

pub length-or_bits : (xs bs : Bits) → length xs ≡ length bs → length (or_bits xs bs) ≡ length xs
length-or_bits [] bs h = refl
length-or_bits (a ∷ xs) [] h = absurd (omega arith)
length-or_bits (a ∷ xs) (b ∷ bs) h = ap suc (length-or_bits xs bs (omega arith))

pub get-and_bits : (xs bs : Bits) (i : ℕ) → get (and_bits xs bs) i ≡ (get xs i && get bs i)
get-and_bits [] bs i = refl
get-and_bits (a ∷ xs) [] i = ground arith
get-and_bits (a ∷ xs) (b ∷ bs) zero = refl
get-and_bits (a ∷ xs) (b ∷ bs) (suc i) = get-and_bits xs bs i

pub get-or_bits :
    (xs bs : Bits) (i : ℕ) → length xs ≡ length bs → get (or_bits xs bs) i ≡ (get xs i || get bs i)
get-or_bits [] [] i h = refl
get-or_bits [] (b ∷ bs) i h = absurd (omega arith)
get-or_bits (a ∷ xs) [] i h = absurd (omega arith)
get-or_bits (a ∷ xs) (b ∷ bs) zero h = refl
get-or_bits (a ∷ xs) (b ∷ bs) (suc i) h = get-or_bits xs bs i (omega arith)

pub get_above : (bs : Bits) (i : ℕ) → length bs ≤ i → get bs i ≡ false
get_above [] i h = refl
get_above (b ∷ bs) zero h = absurd (omega arith)
get_above (b ∷ bs) (suc i) h = get_above bs i (omega arith)

pub one-le-two_pow : (n : ℕ) → 1 ≤ 2 ^ n
one-le-two_pow zero = omega arith
one-le-two_pow (suc n) = omega (arith, one-le-two_pow n, pow-suc 2 n)

pub two_pow-lt : (k n : ℕ) → k < n → 2 ^ k < 2 ^ n
two_pow-lt zero (suc n) h = omega (arith, one-le-two_pow n, pow-suc 2 n)
two_pow-lt (suc k) (suc n) h = omega (arith, two_pow-lt k n (omega arith), pow-suc 2 n, pow-suc 2 k)
two_pow-lt k zero h = absurd (omega arith)

get-bits_of-zero : (n i : ℕ) → get (bits_of n 0) i ≡ false
unfolding bits_of
get-bits_of-zero zero i = refl
get-bits_of-zero (suc n) zero = refl
get-bits_of-zero (suc n) (suc i) = get-bits_of-zero n i

-- Bit `i` of the word in which bit `k` alone is set.
pub get-bits_of-two_pow : (n k i : ℕ) → k < n → get (bits_of n (2 ^ k)) i ≡ (i == k)
unfolding bits_of
get-bits_of-two_pow zero k i h = absurd (omega arith)
get-bits_of-two_pow (suc n) zero zero h = refl
get-bits_of-two_pow (suc n) zero (suc i) h = ground (arith, get-bits_of-zero n i)
get-bits_of-two_pow (suc n) (suc k) zero h = ground (arith, pow-suc 2 k)
get-bits_of-two_pow (suc n) (suc k) (suc i) h = rw half (ground (arith, get-bits_of-two_pow n k i))
  where
    half : 2 ^ suc k / 2 ≡ 2 ^ k
    half = omega (arith, pow-suc 2 k)

pub get-bits_of-complement :
    (n w i : ℕ) → w < 2 ^ n → i < n → get (bits_of n (complement n w)) i ≡ not (get (bits_of n w) i)
unfolding bits_of
get-bits_of-complement zero w i h lt = absurd (omega arith)
get-bits_of-complement (suc n) w zero h lt = ground (arith, pow-suc 2 n, one-le-two_pow n)
get-bits_of-complement (suc n) w (suc i) h lt =
    rw half (get-bits_of-complement n (w / 2) i (omega (arith, pow-suc 2 n)) (omega arith))
  where
    half : complement (suc n) w / 2 ≡ complement n (w / 2)
    half = omega (arith, pow-suc 2 n, one-le-two_pow n)

-- What `lowest` finds: the lowest one, if there is a one.
pub lowest-zero : (bs : Bits) → lowest bs ≡ 0 → is_none bs ≡ true
lowest-zero [] h = refl
lowest-zero (b ∷ bs) h = ground (arith, lowest-zero bs)

pub get-lowest : (bs : Bits) → is_none bs ≡ false → get bs (lowest bs - 1) ≡ true
get-lowest [] h = cc
get-lowest (true ∷ bs) h = refl
get-lowest (false ∷ bs) h = subst (λ m. get (false ∷ bs) m ≡ true) up (get-lowest bs h)
  where
    some_one : lowest bs ≢ 0
    some_one e = cc (lowest-zero bs e)

    up : suc (lowest bs - 1) ≡ lowest (false ∷ bs) - 1
    up = ground (arith, some_one)

pub get_below_lowest : (bs : Bits) (j : ℕ) → j < lowest bs - 1 → get bs j ≡ false
get_below_lowest [] j h = refl
get_below_lowest (true ∷ bs) j h = absurd (omega arith)
get_below_lowest (false ∷ bs) zero h = refl
get_below_lowest (false ∷ bs) (suc j) h = ground (arith, get_below_lowest bs j)

pub lowest-le : (bs : Bits) → lowest bs ≤ length bs
lowest-le [] = omega arith
lowest-le (b ∷ bs) = ground (arith, lowest-le bs)

pub ones_of_is_none : (bs : Bits) → is_none bs ≡ true → ones bs ≡ 0
ones_of_is_none [] h = refl
ones_of_is_none (b ∷ bs) h = ground (arith, ones_of_is_none bs)
