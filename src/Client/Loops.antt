-- ===== src/Client/Loops.antt =====
-- The loops of `main` that create the clients and join them.
use mett_eagle.Base.{
  ℕ, zero, suc, ◌+◌, ◌≤◌, ◌<◌, ◌≡◌, refl, sym, ap, subst, ◌⊎◌, inl, inr, List, map, Option, none,
  arith, length, Outcome, returns, throws, blocks, true, false, ◌==◌, ==_iff, Bool-cases,
}
use mett_eagle.Client.{Metrics, Sample, Settings, create_client}
use mett_eagle.Client.Measure.{successes, take, metrics_of, measure_returns}
use mett_eagle.Client.Main.{
  Surroundings, registration, counted, behind, benchmark, create_clients, join_clients,
  clients_from,
}

-- `main` can create the thread of the client.
abbrev pub IsCreated : Surroundings → Type 0
IsCreated c = (c.thread ≡ none) × (c.scheduler ≡ none) × (c.run_thread ≡ none)

-- The client registers, and enough of its invocations return.
abbrev pub IsServed : ℕ → Surroundings → Type 0
IsServed iterations c =
    (counted (registration c) ≡ 1) × (iterations ≤ length (successes c.invocations))

-- What the loop measures.
abbrev pub measured : (ℕ → ℕ) → ℕ → Surroundings → Metrics
measured to_us iterations c = metrics_of to_us (take iterations (successes c.invocations))

create_client-IsCreated :
    (c : Surroundings) → IsCreated c → create_client c.thread c.scheduler c.run_thread ≡ returns tt
unfolding create_client
create_client-IsCreated c h = rw (h.0, h.1, h.2) refl

-- All clients from `i` on, `left` of them.
abbrev pub Each : (Surroundings → Type 0) → (ℕ → Surroundings) → ℕ → ℕ → Type 0
Each P surroundings i left = (j : ℕ) → i ≤ j → j < i + left → P (surroundings j)

Each-suc :
    (P : Surroundings → Type 0) (surroundings : ℕ → Surroundings) (i left : ℕ)
    → Each P surroundings i (suc left)
    → P (surroundings i) × Each P surroundings (i + 1) left
Each-suc P surroundings i left h =
    (h i (omega arith) (omega arith), λ j low high. h j (omega arith) (omega arith))

-- The loop waits for ever, or ends with fewer clients counted than there are.
abbrev pub IsShort : ℕ → Outcome ℕ → Type 0
IsShort n r = (r ≡ blocks) ⊎ ((w : ℕ) × (r ≡ returns w) × (w < n))

pub counted-le : (r : Outcome ℕ) → counted r ≤ 1
counted-le (returns m) = omega arith
counted-le (throws e) = omega arith
counted-le blocks = omega arith

pub compare-cases : (i k : ℕ) → (i ≡ k) ⊎ ¬ (i ≡ k)
compare-cases i k = ground arith

-- The barrier opens for the last client, and not while one is missing.
behind-served :
    (to_us : ℕ → ℕ) (s : Settings) (invocations : List (Option Sample)) (r : Outcome ℕ)
    → counted r ≡ 1
    → s.iterations ≤ length (successes invocations)
    → behind to_us s s.thread_num invocations r
      ≡ returns (metrics_of to_us (take s.iterations (successes invocations)))
unfolding behind
behind-served to_us s invocations (returns m) one enough =
    let same : (s.thread_num == s.thread_num) ≡ true = (==_iff s.thread_num s.thread_num).1 refl in
    rw same ((measure_returns to_us s.iterations invocations).0 enough)
behind-served to_us s invocations (throws e) one enough = absurd (omega arith)
behind-served to_us s invocations blocks one enough = absurd (omega arith)

behind-short :
    (to_us : ℕ → ℕ) (s : Settings) (w : ℕ) (invocations : List (Option Sample)) (r : Outcome ℕ)
    → counted r ≡ 1
    → w < s.thread_num
    → behind to_us s w invocations r ≡ blocks
unfolding behind
behind-short to_us s w invocations (returns m) one few =
    let differs : (w == s.thread_num) ≡ false = ground arith in rw differs refl
behind-short to_us s w invocations (throws e) one few = absurd (omega arith)
behind-short to_us s w invocations blocks one few = absurd (omega arith)

module _ (surroundings : ℕ → Surroundings) where
  pub create_clients-counted :
      (n i left : ℕ)
      → i + left ≡ n
      → Each IsCreated surroundings i left
      → Each (λ c. counted (registration c) ≡ 1) surroundings i left
      → create_clients (clients_from surroundings i left) i i ≡ returns n
  unfolding create_clients
  create_clients-counted n i zero total created one = ap returns (omega arith)
  create_clients-counted n i (suc left) total created one =
      let same : (i == i) ≡ true = (==_iff i i).1 refl in
      let (now, later) = Each-suc IsCreated surroundings i left created in
      let (first, rest) = Each-suc (λ c. counted (registration c) ≡ 1) surroundings i left one in
      rw (same, create_client-IsCreated (surroundings i) now, first)
        (create_clients-counted n (i + 1) left (omega arith) later rest)

  -- With one client that is not counted, the loop waits for it, or ends below the number of clients.
  pub create_clients-IsShort :
      (i left waiting k : ℕ)
      → waiting ≤ i
      → Each IsCreated surroundings i left
      → (waiting < i) ⊎ ((i ≤ k) × (k < i + left) × (counted (registration (surroundings k)) ≡ 0))
      → IsShort (i + left) (create_clients (clients_from surroundings i left) i waiting)
  unfolding create_clients
  create_clients-IsShort i zero waiting k le created short = inr (waiting, refl, omega arith)
  create_clients-IsShort i (suc left) waiting k le created short =
      elim (Bool-cases (waiting == i)) [
        | inl e ↦
            let (now, later) = Each-suc IsCreated surroundings i left created in
            let at_i : waiting ≡ i = (==_iff waiting i).0 e in
            let waiting' = waiting + counted (registration (surroundings i)) in
            let few : waiting' ≤ i + 1 =
              omega (arith, counted-le (registration (surroundings i))) in
            let short' : (waiting' < i + 1)
                ⊎ ((i + 1 ≤ k)
                    × (k < (i + 1) + left)
                    × (counted (registration (surroundings k)) ≡ 0)) =
              elim short [
                | inl lt ↦ absurd (omega arith)
                | inr h ↦ elim (compare-cases i k) [
                  | inl same ↦ inl (
                      subst (λ j. waiting + counted (registration (surroundings j)) < i + 1)
                        (sym same) (omega arith))
                  | inr differ ↦ inr (omega arith, omega arith, h.2)
                ]
              ] in
            rw (e, create_client-IsCreated (surroundings i) now)
              (subst
                (λ n.
                  IsShort n
                    (create_clients (clients_from surroundings (i + 1) left) (i + 1) waiting'))
                (omega arith) (create_clients-IsShort (i + 1) left waiting' k few later short'))
        | inr e ↦ inl (rw e refl)
      ]

  pub join_clients-served :
      (to_us : ℕ → ℕ) (s : Settings) (i left : ℕ)
      → Each (IsServed s.iterations) surroundings i left
      → join_clients to_us s s.thread_num (clients_from surroundings i left)
        ≡ returns (map (measured to_us s.iterations) (clients_from surroundings i left))
  unfolding join_clients benchmark
  join_clients-served to_us s i zero served = refl
  join_clients-served to_us s i (suc left) served =
      let (now, later) = Each-suc (IsServed s.iterations) surroundings i left served in
      rw
        (
          behind-served to_us s (surroundings i).invocations (registration (surroundings i)) now.0
              now.1,
          join_clients-served to_us s (i + 1) left later,
        )
        refl

  -- Without the first client the loop waits before the second.
  pub create_clients-first :
      (n : ℕ)
      → 2 ≤ n
      → Each IsCreated surroundings 0 n
      → counted (registration (surroundings 0)) ≡ 0
      → create_clients (clients_from surroundings 0 n) 0 0 ≡ blocks
  unfolding create_clients
  create_clients-first zero two created missing = absurd (omega arith)
  create_clients-first (suc zero) two created missing = absurd (omega arith)
  create_clients-first (suc (suc n)) two created missing =
      rw (create_client-IsCreated (surroundings 0) (created 0 (omega arith) (omega arith)), missing)
        refl

  pub join_clients-short :
      (to_us : ℕ → ℕ) (s : Settings) (w n : ℕ)
      → 1 ≤ n
      → counted (registration (surroundings 0)) ≡ 1
      → w < s.thread_num
      → join_clients to_us s w (clients_from surroundings 0 n) ≡ blocks
  unfolding join_clients benchmark
  join_clients-short to_us s w zero some_client one few = absurd (omega arith)
  join_clients-short to_us s w (suc n) some_client one few =
      rw
        (behind-short to_us s w (surroundings 0).invocations (registration (surroundings 0)) one
          few)
        refl
