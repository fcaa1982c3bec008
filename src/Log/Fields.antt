-- ===== src/Log/Fields.antt =====
-- The line that `log` of liblog/include/log puts together: the named arguments of its format, one of which
-- is the last part of the file's path.
use mathlib.Core.List.{append_assoc}
use native.Mathlib.Nat.{mod-eq_of_lt}
use mett_eagle.Base.{
  ℕ, zero, suc, ◌+◌, ◌-◌, ◌%◌, ◌^◌, ◌<◌, ◌≡◌, ◌≢◌, ◌⊎◌, refl, sym, ◌∙◌, [], ◌∷◌, ◌++◌, Option, none,
  some, ◌==◌, ==_iff, if◌then◌else◌, length, length-append, Bytes, bytes, arith, All, Bool-cases,
  inl, inr, ap,
}
use mett_eagle.Log.{Severity, debug, info, warn, error, fatal}
use mett_eagle.Log.Exceptions.{Place}

-- `name` of the severities: ANSI escape sequences around the text.
abbrev pub name : Severity → Bytes
name debug = 27 ∷ bytes "[34;1mDEBUG" ++ 27 ∷ bytes "[0m"
name info = 27 ∷ bytes "[36;1mINFO " ++ 27 ∷ bytes "[0m"
name warn = 27 ∷ bytes "[33;1mWARN " ++ 27 ∷ bytes "[0m"
name error = 27 ∷ bytes "[31;1mERROR" ++ 27 ∷ bytes "[0m"
name fatal = 27 ∷ bytes "[35;1mFATAL" ++ 27 ∷ bytes "[0m"

-- `std::string::npos`, and `find_last_of` for one character.
abbrev npos : ℕ
npos = 2 ^ 64 - 1

unfoldable pub find_last_of : ℕ → Bytes → ℕ
find_last_of c [] = npos
find_last_of c (x ∷ xs) =
    let rest = find_last_of c xs in if rest == npos then (if x == c then 0 else npos) else rest + 1

-- The text behind a pointer that is moved by `n`.
abbrev pub drop : ℕ → Bytes → Bytes
drop zero xs = xs
drop (suc n) [] = []
drop (suc n) (x ∷ xs) = drop n xs

-- `format.file + std::string (format.file).find_last_of ('/') + 1`: behind the last slash; `npos + 1`
-- wraps around.
unfoldable pub base_name : Bytes → Bytes
unfolding find_last_of
base_name file = drop ((find_last_of 47 file + 1) % 2 ^ 64) file

-- The named arguments.
pub record Fields : Type 0 where
  pub thread_id : ℕ
  pub time : ℕ
  pub severity : Bytes
  pub pkgname : Bytes
  pub file : Bytes
  pub line : ℕ
  pub function : Bytes
  pub msg : Bytes

-- The line, with what fmt writes for the named arguments, the value of `PKGNAME` if it is set, and the
-- place, the severity and the text of the message.
unfoldable pub line_of : (Fields → Bytes) → ℕ → ℕ → Option Bytes → Place → Severity → Bytes → Bytes
unfolding base_name
line_of write thread_id time pkgname place s msg = write (record {
  thread_id = thread_id;
  time = time;
  severity = name s;
  pkgname = value_of pkgname;
  file = base_name place.file;
  line = place.line;
  function = place.function;
  msg = msg;
})
  where
    value_of : Option Bytes → Bytes
    value_of none = bytes ""
    value_of (some text) = text

drop-append : (d tail : Bytes) (c : ℕ) → drop (suc (length d)) (d ++ c ∷ tail) ≡ tail
drop-append [] tail c = refl
drop-append (x ∷ d) tail c = drop-append d tail c

module _ (c : ℕ) where
  -- There is none, or behind the one that is found there is none.
  find_last_of_cases :
      (xs : Bytes)
      → length xs < npos
      → ((find_last_of c xs ≡ npos) × All (λ x. x ≢ c) xs)
        ⊎ ((d : Bytes) × (tail : Bytes) × (xs ≡ d ++ c ∷ tail)
            × (find_last_of c xs ≡ length d)
            × All (λ x. x ≢ c) tail)
  unfolding find_last_of
  find_last_of_cases [] short = inl (refl, tt)
  find_last_of_cases (x ∷ xs) short = elim (find_last_of_cases xs (omega arith)) [
    | inl (lacks, all) ↦ elim (Bool-cases (x == c)) [
      | inl same ↦ inr ([], xs, ap (λ y. y ∷ xs) ((==_iff x c).0 same), ground (arith, lacks), all)
      | inr differs ↦ inl (ground (arith, lacks), ((λ e. ground arith), all))
    ]
    | inr (d, tail, parts, found, all) ↦ inr (
      x ∷ d,
      tail,
      ap (λ r. x ∷ r) parts,
      ground (arith, found, ap length parts, length-append d (c ∷ tail)),
      all,
    )
  ]

-- The path is a directory, which is empty or ends with a slash, and the base name, which has no slash.
pub base_name_splits :
    (file : Bytes)
    → length file < npos
    → (directory : Bytes) × (file ≡ directory ++ base_name file)
      × All (λ x. x ≢ 47) (base_name file)
      × ((directory ≡ []) ⊎ ((d : Bytes) × (directory ≡ d ++ 47 ∷ [])))
unfolding base_name
base_name_splits file short = elim (find_last_of_cases 47 file short) [
  | inl (lacks, all) ↦ rw lacks ([], refl, all, inl refl)
  | inr (d, tail, parts, found, all) ↦
      let bounded : length d + 1 < 2 ^ 64 =
        omega (arith, short, ap length parts, length-append d (47 ∷ tail)) in
      let next : length d + 1 ≡ suc (length d) = omega arith in
      let left : base_name file ≡ tail =
        rw (found, mod-eq_of_lt bounded, parts, next) (drop-append d tail 47) in
      rw left (d ++ 47 ∷ [], parts ∙ sym (append_assoc d (47 ∷ []) tail), all, inr (d, refl))
]
