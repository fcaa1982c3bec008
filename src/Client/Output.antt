-- ===== src/Client/Output.antt =====
-- The list that the client prints.
use mett_eagle.Base.{
  ℕ, ◌+◌, ◌≡◌, refl, ap, List, [], ◌∷◌, ◌++◌, arith, length, Bytes, bytes, ◌==◌, true, false,
  ==_iff,
}
use mett_eagle.Client.{print_from, output}

-- The results in lines, with a comma between them and a blank behind the last.
abbrev pub joined : List Bytes → Bytes
joined [] = []
joined (m ∷ []) = m ++ bytes "\n "
joined (m ∷ ms) = m ++ (bytes "\n," ++ joined ms)

print_from-joined :
    (thread_num i : ℕ) (ms : List Bytes)
    → i + length ms ≡ thread_num
    → print_from thread_num i ms ≡ joined ms
unfolding print_from
print_from-joined thread_num i [] h = refl
print_from-joined thread_num i (m ∷ []) h =
    let last : (i + 1 == thread_num) ≡ true = (==_iff (i + 1) thread_num).1 (omega arith) in
    rw last refl
print_from-joined thread_num i (m ∷ (k ∷ ms)) h =
    let not_last : (i + 1 == thread_num) ≡ false = ground arith in
    rw (not_last, print_from-joined thread_num (i + 1) (k ∷ ms) (omega arith)) refl

-- The output is a bracketed list of the results with commas between them and none at the end.
pub output-joined :
    (results : List Bytes)
    → output results
      ≡ bytes "====   OUTPUT   ====\n[" ++ (joined results ++ bytes "]\n==== END OUTPUT ====\n")
unfolding output
output-joined results =
    ap (λ r. bytes "====   OUTPUT   ====\n[" ++ (r ++ bytes "]\n==== END OUTPUT ====\n"))
      (print_from-joined (length results) 0 results (omega arith))
