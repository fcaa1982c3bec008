-- ===== src/Client/Json.antt =====
-- What the client prints, as a JSON document.
use mett_eagle.Base.{
  ℕ, ◌≡◌, refl, subst, Bool, true, ◌&&◌, ◌||◌, ◌==◌, leb, List, [], ◌∷◌, ◌++◌, map, Bytes, bytes,
}
use mathlib.Core.List.{append_assoc}
use mett_eagle.Client.{Metrics, output}
use mett_eagle.Client.Output.{joined, output-joined}
use mett_eagle.Client.Main.{to_string}

abbrev every : (ℕ → Bool) → Bytes → Bool
every is [] = true
every is (c ∷ cs) = is c && every is cs

-- Blanks and ends of lines.
abbrev pub IsSpace : Bytes → Type 0
IsSpace s = every (λ c. (c == 32) || (c == 10)) s ≡ true

-- What stands in a key between the quotes: small letters and underscores.
abbrev pub IsKey : Bytes → Type 0
IsKey s = every (λ c. (leb 97 c && leb c 122) || (c == 95)) s ≡ true

abbrev pub IsDigits : Bytes → Type 0
IsDigits s = every (λ c. leb 48 c && leb c 57) s ≡ true

-- The JSON texts that are built of numbers, arrays and objects.
mutual
  pub data IsValue : Bytes → Type 0 where
    number : (digit : ℕ) (digits : Bytes) → IsDigits (digit ∷ digits) → IsValue (digit ∷ digits)
    no_items : (space : Bytes) → IsSpace space → IsValue (bytes "[" ++ (space ++ bytes "]"))
    array : (items : Bytes) → IsItems items → IsValue (bytes "[" ++ (items ++ bytes "]"))
    object : (members : Bytes) → IsMembers members → IsValue (bytes "{" ++ (members ++ bytes "}"))

  -- Values with commas between them.
  pub data IsItems : Bytes → Type 0 where
    item :
        (before value after : Bytes)
        → IsSpace before
        → IsValue value
        → IsSpace after
        → IsItems (before ++ (value ++ after))
    items :
        (before value after rest : Bytes)
        → IsSpace before
        → IsValue value
        → IsSpace after
        → IsItems rest
        → IsItems (before ++ (value ++ (after ++ (bytes "," ++ rest))))

  -- A key, and its value behind a colon.
  pub data IsPair : Bytes → Type 0 where
    pair :
        (before key colon gap value after : Bytes)
        → IsSpace before
        → IsKey key
        → IsSpace colon
        → IsSpace gap
        → IsValue value
        → IsSpace after
        → IsPair (
            before
            ++ (bytes "\""
                ++ (key ++ (bytes "\"" ++ (colon ++ (bytes ":" ++ (gap ++ (value ++ after))))))))

  -- Pairs with commas between them.
  pub data IsMembers : Bytes → Type 0 where
    member : (pair : Bytes) → IsPair pair → IsMembers pair
    members :
        (pair rest : Bytes) → IsPair pair → IsMembers rest → IsMembers (pair ++ (bytes "," ++ rest))

-- A text between the brackets of an array whose items are the given values, in this order, with one
-- comma between each two of them.
pub data Lists : List Bytes → Bytes → Type 0 where
  single :
      (before value after : Bytes)
      → IsSpace before
      → IsValue value
      → IsSpace after
      → Lists (value ∷ []) (before ++ (value ++ after))
  several :
      (before value after next : Bytes) (values : List Bytes) (rest : Bytes)
      → IsSpace before
      → IsValue value
      → IsSpace after
      → Lists (next ∷ values) rest
      → Lists (value ∷ (next ∷ values)) (before ++ (value ++ (after ++ (bytes "," ++ rest))))

-- The same for any number of values, none included.
abbrev pub IsListOf : List Bytes → Bytes → Type 0
IsListOf [] text = IsSpace text
IsListOf (value ∷ values) text = Lists (value ∷ values) text

-- Such a list in brackets is a JSON text.
Lists-IsItems : {values : List Bytes} {text : Bytes} → Lists values text → IsItems text
Lists-IsItems (single before value after b v a) = item before value after b v a
Lists-IsItems (several before value after next values rest b v a more) =
    items before value after rest b v a (Lists-IsItems more)

IsListOf-IsValue :
    (values : List Bytes) (text : Bytes)
    → IsListOf values text
    → IsValue (bytes "[" ++ (text ++ bytes "]"))
IsListOf-IsValue [] text space = no_items text space
IsListOf-IsValue (v ∷ vs) text listed = array text (Lists-IsItems listed)

module _ (format_range : List ℕ → Bytes) (ranges : (xs : List ℕ) → IsValue (format_range xs)) where
  -- The object of a start and an end.
  span :
      (xs ys : List ℕ)
      → IsValue (
          bytes "{\n  \"start\": "
          ++ (format_range xs ++ (bytes ",\n  \"end\"  : " ++ (format_range ys ++ bytes "\n}"))))
  span xs ys = subst IsValue (simp append_assoc) (
      object _ (
        members _ _
          (pair (bytes "\n  ") (bytes "start") [] (bytes " ") _ [] refl refl refl refl (ranges xs)
            refl)
          (member _ (
            pair (bytes "\n  ") (bytes "end") (bytes "  ") (bytes " ") _ (bytes "\n") refl refl refl
              refl (ranges ys) refl))))

  -- The object of a start, an end, and a duration.
  spans :
      (xs ys zs : List ℕ)
      → IsValue (
          bytes "{\n  \"start\": "
          ++ (format_range xs
              ++ (bytes ",\n  \"end\"  : "
                  ++ (format_range ys
                      ++ (bytes ",\n  \"internal_duration\": "
                          ++ (format_range zs ++ bytes "\n}"))))))
  spans xs ys zs = subst IsValue (simp append_assoc) (
      object _ (
        members _ _
          (pair (bytes "\n  ") (bytes "start") [] (bytes " ") _ [] refl refl refl refl (ranges xs)
            refl)
          (members _ _
            (pair (bytes "\n  ") (bytes "end") (bytes "  ") (bytes " ") _ [] refl refl refl refl
              (ranges ys) refl)
            (member _ (
              pair (bytes "\n  ") (bytes "internal_duration") [] (bytes " ") _ (bytes "\n") refl
                refl refl refl (ranges zs) refl)))))

  to_string-IsValue : (m : Metrics) → IsValue (to_string format_range m)
  unfolding to_string
  to_string-IsValue m = subst IsValue (simp append_assoc) (
      object _ (
        members _ _
          (pair (bytes "\n") (bytes "invocation") [] (bytes " ") _ [] refl refl refl refl
            (span m.start_invocation m.end_invocation) refl)
          (members _ _
            (pair (bytes "\n") (bytes "worker") [] (bytes " ") _ [] refl refl refl refl
              (span m.start_worker m.end_worker) refl)
            (members _ _
              (pair (bytes "\n") (bytes "runtime") [] (bytes " ") _ [] refl refl refl refl
                (span m.start_runtime m.end_runtime) refl)
              (member _ (
                pair (bytes "\n") (bytes "function") [] (bytes " ") _ (bytes "\n") refl refl refl
                  refl (spans m.start_function m.end_function m.function_internal_duration)
                  refl))))))

  joined-Lists :
      (m : Metrics) (ms : List Metrics)
      → Lists
          (map (to_string format_range) (m ∷ ms))
          (joined (map (to_string format_range) (m ∷ ms)))
  joined-Lists m [] = single [] _ (bytes "\n ") refl (to_string-IsValue m) refl
  joined-Lists m (k ∷ ms) =
      several [] _ (bytes "\n") _ _ _ refl (to_string-IsValue m) refl (joined-Lists k ms)

  results-IsListOf :
      (ms : List Metrics)
      → IsListOf (map (to_string format_range) ms) (joined (map (to_string format_range) ms))
  results-IsListOf [] = refl
  results-IsListOf (m ∷ ms) = joined-Lists m ms

  -- If fmt writes every list of numbers as a JSON array, what the client prints between its two marker
  -- lines is one JSON text: an array whose items are the texts that `toString` gives for the clients'
  -- metrics, all of them in their order, with no comma missing or left over, for any number of clients, none included.
  pub output-IsValue :
      (ms : List Metrics)
      → (items : Bytes) × (output (map (to_string format_range) ms)
          ≡ bytes "====   OUTPUT   ====\n[" ++ (items ++ bytes "]\n==== END OUTPUT ====\n"))
        × IsListOf (map (to_string format_range) ms) items
        × IsValue (bytes "[" ++ (items ++ bytes "]"))
  output-IsValue ms = (
    joined (map (to_string format_range) ms),
    output-joined (map (to_string format_range) ms),
    results-IsListOf ms,
    IsListOf-IsValue (map (to_string format_range) ms) _ (results-IsListOf ms),
  )
