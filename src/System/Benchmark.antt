-- ===== src/System/Benchmark.antt =====
-- How the benchmark ends at a manager, by the number of free CPUs.
use mett_eagle.Base.{
  ℕ, zero, suc, ◌+◌, ◌<◌, ◌≤◌, ◌≡◌, ◌≢◌, refl, ◌∙◌, ap, false, List, [], ◌∷◌, map, arith, length,
  Bytes, Error, enoent, Label, Outcome, All,
}
use mett_eagle.Cpu.Bitset.{ones}
use mett_eagle.Cpu.{width}
use mett_eagle.Worker.{Loader}
use mett_eagle.Manager.{Manager, Event}
use mett_eagle.Manager.Isolation.{Spares, requests_of, answers_isolated}
use mett_eagle.Faas.{Code}
use mett_eagle.Client.{Metrics, Sample, Settings, defaults, Choice, runs, read_options, output}
use mett_eagle.Client.Measure.{successes, take, metrics_of}
use mett_eagle.Client.Main.{
  Surroundings, registration, counted, to_string, succeeds, hangs, clients_from, client_main,
}
use mett_eagle.Client.Loops.{IsCreated, IsServed, measured, Each}
use mett_eagle.Client.Ends.{client_main-succeeds, client_main-hangs}
use mett_eagle.System.{Participant, before, received_by, surroundings_at, surroundings_of}
use mett_eagle.System.Connected.{
  IsAdmitted, one_action, connect_admitted, counted_admitted, counted_refused, before-IsConnected,
  registered_at, refused_at,
}
use mett_eagle.System.Served.{Visit, Visits, visit_samples, recorded_all}

length-visit_samples :
    (clock : ℕ → ℕ × ℕ) (i : ℕ) (vs : List Visit) → length (visit_samples clock i vs) ≡ length vs
length-visit_samples clock i [] = refl
length-visit_samples clock i (v ∷ vs) = ap suc (length-visit_samples clock (i + 1) vs)

take_all : (ss : List Sample) (n : ℕ) → length ss ≡ n → take n ss ≡ ss
take_all [] zero e = refl
take_all [] (suc n) e = refl
take_all (s ∷ ss) zero e = absurd (omega arith)
take_all (s ∷ ss) (suc n) e = ap (λ xs. s ∷ xs) (take_all ss n (omega arith))

-- What is measured for the clients from `i`: the times of each of their visits.
abbrev pub entries : (ℕ → ℕ) → (ℕ → ℕ → ℕ × ℕ) → (ℕ → List Visit) → ℕ → ℕ → List Metrics
entries to_us clock visits i zero = []
entries to_us clock visits i (suc left) =
    metrics_of to_us (visit_samples (clock i) 0 (visits i))
    ∷ entries to_us clock visits (i + 1) left

module _ {Stack : Type 0} (l : Loader Stack) (on_throw : Error → Outcome Label)
    (format_range : List ℕ → Bytes) (to_us : ℕ → ℕ) (clock : ℕ → ℕ → ℕ × ℕ) (options : List Choice)
    (s : Settings) (read : read_options options defaults ≡ runs s) (participants : ℕ → Participant)
    (gate : ℕ → ℕ) (m : Manager) (wide : length m.registry.available ≡ width)
    (distinct : (j k : ℕ) → j < k → gate j ≢ gate k)
    (admitted : (j : ℕ) → j < s.thread_num → IsAdmitted (participants j) (gate j))
    (events : List Event) where
  abbrev system : ℕ → Surroundings
  system = surroundings_at l on_throw participants clock s.thread_num events m

  all_threads_start : Each IsCreated system 0 s.thread_num
  unfolding surroundings_at surroundings_of
  all_threads_start j low high =
      let h = admitted j (omega arith) in (h.thread, h.scheduler, h.run_thread)

  -- With as many free CPUs as clients.
  module _ (word : Code → ℕ) (visits : ℕ → List Visit)
      (enough : s.thread_num ≤ ones m.registry.available)
      (spared : (j : ℕ) → j < s.thread_num → All (Spares (gate j)) events)
      (visited : (j : ℕ) → j < s.thread_num → Visits word (requests_of (gate j) events) (visits j))
      (times : (j : ℕ) → j < s.thread_num → length (visits j) ≡ s.iterations) where
    recorded :
        (j : ℕ)
        → j < s.thread_num
        → successes (system j).invocations ≡ visit_samples (clock j) 0 (visits j)
    unfolding surroundings_at surroundings_of received_by
    recorded j lt =
        let registered =
          registered_at l on_throw participants gate m wide distinct j (omega arith)
            (λ k below. admitted k (omega arith)) in
        let all =
          before-IsConnected l on_throw participants gate m wide distinct s.thread_num enough
            admitted in
        rw
          (connect_admitted l on_throw (participants j) (gate j)
            (before l on_throw participants j m) (admitted j lt) registered)
          (rw
            (answers_isolated l on_throw (gate j) events
              (before l on_throw participants s.thread_num m) (one_action (participants j))
              (all.serves j lt) (spared j lt))
            (recorded_all l on_throw word (participants j) (requests_of (gate j) events) (visits j)
              (clock j) 0 (visited j lt)))

    all_counted : Each (λ c. counted (registration c) ≡ 1) system 0 s.thread_num
    unfolding surroundings_at
    all_counted j low high =
        counted_admitted l on_throw (participants j) (gate j) (before l on_throw participants j m) _
          (admitted j (omega arith))
          (registered_at l on_throw participants gate m wide distinct j (omega arith)
            (λ k below. admitted k (omega arith)))

    all_get_answers : Each (IsServed s.iterations) system 0 s.thread_num
    all_get_answers j low high = (
      all_counted j low high,
      rw (recorded j (omega arith))
          (omega (arith, length-visit_samples (clock j) 0 (visits j), times j (omega arith))),
    )

    measured_visits :
        (i left : ℕ)
        → i + left ≤ s.thread_num
        → map (measured to_us s.iterations) (clients_from system i left)
          ≡ entries to_us clock visits i left
    measured_visits i zero le = refl
    measured_visits i (suc left) le =
        rw
          (
            recorded i (omega arith),
            take_all (visit_samples (clock i) 0 (visits i)) s.iterations
                (length-visit_samples (clock i) 0 (visits i) ∙ times i (omega arith)),
            measured_visits (i + 1) left (omega arith),
          )
          refl

    -- The benchmark and the manager together: if the options lead to the benchmark, there is memory, the
    -- system refuses nothing, the gates differ, at least as many CPUs are free as there are clients, and
    -- afterwards, in any order between the clients and whoever else comes and goes, each client makes its
    -- iterations, each served within the limit by a worker that runs function1, then the client ends with
    -- success and prints for each client, in order, the times of all its invocations.
    pub benchmark_succeeds :
        client_main format_range to_us system false options
        ≡ succeeds
            (output (map (to_string format_range) (entries to_us clock visits 0 s.thread_num)))
    benchmark_succeeds =
        client_main-succeeds system format_range to_us s options read all_threads_start
          all_get_answers
        ∙ ap (λ ms. succeeds (output (map (to_string format_range) ms)))
            (measured_visits 0 s.thread_num (omega arith))

  refused_client :
      (k : ℕ)
      → k ≡ ones m.registry.available
      → k < s.thread_num
      → counted (registration (system k)) ≡ 0
  unfolding surroundings_at
  refused_client k last lt =
      counted_refused l on_throw (participants k) enoent (before l on_throw participants k m) _ (
        refused_at l on_throw participants gate m wide distinct k last
          (λ j below. admitted j (omega arith)))

  -- If the options lead to the benchmark with two clients or more, there is memory, the system refuses
  -- nothing, the gates differ, and fewer CPUs are free than there are clients, the program never ends,
  -- whatever happens afterwards: the first client without a CPU is refused by the manager, and the others
  -- wait for it.
  pub benchmark_hangs :
      2 ≤ s.thread_num
      → ones m.registry.available < s.thread_num
      → client_main format_range to_us system false options ≡ hangs
  benchmark_hangs two few =
      client_main-hangs system format_range to_us s options read all_threads_start
        (ones m.registry.available) two few (refused_client (ones m.registry.available) refl few)
