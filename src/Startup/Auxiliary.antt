-- ===== src/Startup/Auxiliary.antt =====
-- Which auxiliary value `init` finds.
use mett_eagle.Base.{ℕ, ◌≡◌, ◌≢◌, refl, List, [], ◌∷◌, ◌++◌, some, arith, ◌==◌, if◌then◌else◌, All}
use mett_eagle.Startup.{scan_auxv, init_aux}

-- The vector in memory.
abbrev pub words : List (ℕ × ℕ) → List ℕ
words [] = []
words ((tag, value) ∷ ps) = tag ∷ value ∷ words ps

abbrev pub IsTagged : ℕ × ℕ → Type 0
IsTagged p = p.0 ≢ 0

abbrev pub IsOther : ℕ × ℕ → Type 0
IsOther p = (p.0 ≢ 0) × (p.0 ≢ 0xf0)

scan_others :
    (after : List (ℕ × ℕ)) (rest : List ℕ) (aux : ℕ)
    → All IsOther after
    → scan_auxv (words after ++ 0 ∷ rest) aux ≡ some aux
unfolding scan_auxv
scan_others [] [] aux h = refl
scan_others [] (r ∷ rest) aux h = refl
scan_others ((tag, value) ∷ ps) rest aux h = ground (arith, scan_others ps rest aux h.1)

scan_found :
    (before after : List (ℕ × ℕ)) (rest : List ℕ) (aux value : ℕ)
    → All IsTagged before
    → All IsOther after
    → scan_auxv (words (before ++ (0xf0, value) ∷ after) ++ 0 ∷ rest) aux ≡ some value
unfolding scan_auxv
scan_found [] after rest aux value hb ha = scan_others after rest value ha
scan_found ((tag, x) ∷ ps) after rest aux value hb ha =
    ground (arith, scan_found ps after rest (if tag == 0xf0 then x else aux) value hb.1 ha)

-- In memory that holds an environment, a zero word, an auxiliary vector and a zero tag, `init` sets
-- `l4re_aux` to the value of the last entry with the tag 0xf0, and reads nothing behind that tag.
pub init_aux_finds_last :
    (environ : List ℕ) (before after : List (ℕ × ℕ)) (rest : List ℕ) (value : ℕ)
    → All (λ w. w ≢ 0) environ
    → All IsTagged before
    → All IsOther after
    → init_aux (environ ++ 0 ∷ (words (before ++ (0xf0, value) ∷ after) ++ 0 ∷ rest)) ≡ some value
unfolding init_aux
init_aux_finds_last [] before after rest value he hb ha = scan_found before after rest 0 value hb ha
init_aux_finds_last (w ∷ ws) before after rest value he hb ha =
    ground (arith, init_aux_finds_last ws before after rest value he.1 hb ha)
