-- ===== src/Client/Ends.antt =====
-- How the benchmark client ends: with the measurements of all its clients, or not at all.
use mett_eagle.Base.{ℕ, ◌≤◌, ◌<◌, ◌≡◌, refl, inl, inr, List, map, arith, Bytes, false}
use mett_eagle.Client.{Settings, defaults, Choice, runs, read_options, output}
use mett_eagle.Client.Main.{
  to_string, Surroundings, registration, counted, clients_from, succeeds, hangs, run_clients,
  after_options, ended, client_main,
}
use mett_eagle.Client.Loops.{
  IsCreated, IsServed, measured, Each, counted-le, compare-cases, create_clients-counted,
  create_clients-IsShort, join_clients-served, create_clients-first, join_clients-short,
}

module _ (surroundings : ℕ → Surroundings) (format_range : List ℕ → Bytes) (to_us : ℕ → ℕ)
    (s : Settings) (options : List Choice) (read : read_options options defaults ≡ runs s)
    (created : Each IsCreated surroundings 0 s.thread_num) where
  -- If the options lead to the benchmark with some settings, there is memory, the thread of every
  -- client can be created, every client registers and gets as many invocations answered as there are
  -- iterations, the client ends with success, and prints one entry for each client in the order of
  -- their creation: the times of its first invocations that returned, as many as iterations.
  pub client_main-succeeds :
      Each (IsServed s.iterations) surroundings 0 s.thread_num
      → client_main format_range to_us surroundings false options
        ≡ succeeds (
            output (
              map
                (to_string format_range)
                (map (measured to_us s.iterations) (clients_from surroundings 0 s.thread_num))))
  unfolding client_main run_clients after_options ended
  client_main-succeeds served =
      rw
        (
          read,
          create_clients-counted surroundings s.thread_num 0 s.thread_num (omega arith) created
              (λ j low high. (served j low high).0),
          join_clients-served surroundings to_us s 0 s.thread_num served,
        )
        refl

  -- If the options lead to the benchmark with two clients or more, there is memory, the thread of
  -- every client can be created, and a client does not register, the program never ends.
  pub client_main-hangs :
      (k : ℕ)
      → 2 ≤ s.thread_num
      → k < s.thread_num
      → counted (registration (surroundings k)) ≡ 0
      → client_main format_range to_us surroundings false options ≡ hangs
  unfolding client_main run_clients after_options ended
  client_main-hangs k two lt missing =
      elim (compare-cases (counted (registration (surroundings 0))) 0) [
        | inl no_first ↦
            rw (read, create_clients-first surroundings s.thread_num two created no_first) refl
        | inr some_first ↦
            elim (create_clients-IsShort surroundings 0 s.thread_num 0 k (omega arith) created
              (inr (omega arith, omega arith, missing))) [
                | inl waits ↦ rw (read, waits) refl
                | inr (w, ends, few) ↦
                    rw
                      (
                        read,
                        ends,
                        join_clients-short surroundings to_us s w s.thread_num (omega arith)
                            (omega (arith, counted-le (registration (surroundings 0))))
                            (omega arith),
                      )
                      refl
              ]
      ]
