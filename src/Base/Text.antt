-- ===== src/Base/Text.antt =====
-- Texts as lists of bytes, and the C strings that stand in them.
use Prim.Native.Nat.{ℕ, ◌≤◌}
use Prim.Native.Char.{code}
use Prim.Native.String.{String}
use mathlib.Core.Path.{◌≡◌, refl}
use mathlib.Core.Logic.{◌≢◌, ◌↔◌}
use mathlib.Core.Bool.{Bool, true, false, ◌&&◌}
use mathlib.Core.List.{List, [], ◌∷◌}
use native.Mathlib.Omega.{arith}
use mett_eagle.Base.Tests.{◌==◌, if◌then◌else◌}
use mett_eagle.Base.Lists.{length, All}

abbrev pub Bytes : Type 0
Bytes = List ℕ

-- The bytes of an ASCII literal.
abbrev pub bytes : String → Bytes
bytes String.[] = []
bytes (String.◌∷◌ c s) = code c ∷ bytes s

abbrev pub bytes_eq : Bytes → Bytes → Bool
bytes_eq [] [] = true
bytes_eq (x ∷ xs) (y ∷ ys) = (x == y) && bytes_eq xs ys
bytes_eq _ _ = false

pub bytes_eq_iff : (a b : Bytes) → (bytes_eq a b ≡ true) ↔ (a ≡ b)
bytes_eq_iff [] [] = (λ _. refl, λ _. refl)
bytes_eq_iff [] (y ∷ ys) = (λ h. cc, λ h. cc)
bytes_eq_iff (x ∷ xs) [] = (λ h. cc, λ h. cc)
bytes_eq_iff (x ∷ xs) (y ∷ ys) =
    (λ h. ground (arith, bytes_eq_iff xs ys), λ h. ground (arith, bytes_eq_iff xs ys))

-- The text that a `const char *` into a buffer stands for: up to the first zero byte.
abbrev pub c_string : Bytes → Bytes
c_string [] = []
c_string (x ∷ xs) = if x == 0 then [] else x ∷ c_string xs

-- No zero byte, so that `strlen` and `std::string::length` agree.
abbrev pub IsCString : Bytes → Type 0
IsCString = All (λ x. x ≢ 0)

pub c_string-IsCString : (s : Bytes) → IsCString (c_string s)
c_string-IsCString [] = tt
c_string-IsCString (x ∷ xs) = ground (arith, c_string-IsCString xs)

pub c_string_of_IsCString : (s : Bytes) → IsCString s → c_string s ≡ s
c_string_of_IsCString [] h = refl
c_string_of_IsCString (x ∷ xs) h = ground (arith, c_string_of_IsCString xs h.1)

pub length-c_string-le : (s : Bytes) → length (c_string s) ≤ length s
length-c_string-le [] = omega arith
length-c_string-le (x ∷ xs) = ground (arith, length-c_string-le xs)
