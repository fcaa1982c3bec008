-- ===== src/Client/Start.antt =====
-- How the client threads start: one registration at a time, and a barrier before the measurements.
use mett_eagle.Base.{ℕ, ◌+◌, ◌≤◌, ◌≡◌, ◌≢◌, refl, ◌⊎◌, inl, inr, List, [], ◌∷◌, ◌++◌, arith}
use mett_eagle.Client.{
  Phase, registering, failed, waiting, measuring, Clients, no_clients, created, Step, creates,
  registers, fails, passes, Reach, here, later,
}

abbrev pub is_registering : Phase → ℕ
is_registering registering = 1
is_registering failed = 0
is_registering waiting = 0
is_registering measuring = 0

abbrev pub is_failed : Phase → ℕ
is_failed registering = 0
is_failed failed = 1
is_failed waiting = 0
is_failed measuring = 0

abbrev pub is_measuring : Phase → ℕ
is_measuring registering = 0
is_measuring failed = 0
is_measuring waiting = 0
is_measuring measuring = 1

-- How many threads stand in a phase.
abbrev pub tally : (Phase → ℕ) → List Phase → ℕ
tally is [] = 0
tally is (p ∷ ps) = is p + tally is ps

tally-append :
    (is : Phase → ℕ) (xs ys : List Phase) → tally is (xs ++ ys) ≡ tally is xs + tally is ys
tally-append is [] ys = omega arith
tally-append is (x ∷ xs) ys = omega (arith, tally-append is xs ys)

created-append : (xs ys : List Phase) → created (xs ++ ys) ≡ created xs + created ys
created-append [] ys = omega arith
created-append (x ∷ xs) ys = omega (arith, created-append xs ys)

abbrev pub registering_count : Clients → ℕ
registering_count c = tally is_registering c.threads

abbrev pub failed_count : Clients → ℕ
failed_count c = tally is_failed c.threads

abbrev pub measuring_count : Clients → ℕ
measuring_count c = tally is_measuring c.threads

-- The counts of a start with `thread_num` clients: the thread that has not passed its registration is
-- counted by `waiting_count` no more than one that failed, there is one of them at most, and a
-- measuring thread has seen all registered.
pub record IsInStep (thread_num : ℕ) (c : Clients) : Type 0 where
  pub counted : c.waiting_count + registering_count c + failed_count c ≡ created c.threads
  pub serial : registering_count c + failed_count c ≤ 1
  pub bounded : created c.threads ≤ thread_num
  pub barrier : (measuring_count c ≡ 0) ⊎ (c.waiting_count ≡ thread_num)

abbrev AddUp : List Phase → Phase → List Phase → Type 0
AddUp before p after =
    (created (before ++ p ∷ after) ≡ 1 + (created before + created after))
    × (tally is_registering (before ++ p ∷ after)
        ≡ is_registering p + (tally is_registering before + tally is_registering after))
    × (tally is_failed (before ++ p ∷ after)
        ≡ is_failed p + (tally is_failed before + tally is_failed after))
    × (tally is_measuring (before ++ p ∷ after)
        ≡ is_measuring p + (tally is_measuring before + tally is_measuring after))

add_up : (before : List Phase) (p : Phase) (after : List Phase) → AddUp before p after
add_up before p after = (
  omega (arith, created-append before (p ∷ after)),
  omega (arith, tally-append is_registering before (p ∷ after)),
  omega (arith, tally-append is_failed before (p ∷ after)),
  omega (arith, tally-append is_measuring before (p ∷ after)),
)

Step-IsInStep :
    (thread_num : ℕ) (c d : Clients)
    → IsInStep thread_num c
    → Step thread_num c d
    → IsInStep thread_num d
Step-IsInStep thread_num _ _ v (creates count threads lt e) =
    let a = add_up threads registering [] in
    record {
      counted = omega arith;
      serial = omega arith;
      bounded = omega arith;
      barrier = omega arith;
    }
Step-IsInStep thread_num _ _ v (registers count before after) =
    let a = add_up before registering after in
    let b = add_up before waiting after in
    record {
      counted = omega arith;
      serial = omega arith;
      bounded = omega arith;
      barrier = omega arith;
    }
Step-IsInStep thread_num _ _ v (fails count before after) =
    let a = add_up before registering after in
    let b = add_up before failed after in
    record {
      counted = omega arith;
      serial = omega arith;
      bounded = omega arith;
      barrier = omega arith;
    }
Step-IsInStep thread_num _ _ v (passes count before after e) =
    let a = add_up before waiting after in
    let b = add_up before measuring after in
    record { counted = omega arith; serial = omega arith; bounded = omega arith; barrier = inr e }

-- Before `main` creates a thread.
start-IsInStep : (thread_num : ℕ) → IsInStep thread_num no_clients
start-IsInStep thread_num = record {
  counted = refl;
  serial = omega arith;
  bounded = omega arith;
  barrier = inl refl;
}

pub reach-IsInStep :
    (thread_num : ℕ) (c : Clients) → Reach thread_num no_clients c → IsInStep thread_num c
reach-IsInStep thread_num _ here = start-IsInStep thread_num
reach-IsInStep thread_num c (later {t = b} p s) =
    Step-IsInStep thread_num b c (reach-IsInStep thread_num b p) s

-- From the start of `main`, and whatever the order of the steps, one client at most has been
-- created and is not counted at the barrier, and when a client measures, all clients have been
-- created and have registered, and none has failed.
pub Reach-IsInStep :
    (thread_num : ℕ) (c : Clients)
    → Reach thread_num no_clients c
    → (registering_count c + failed_count c ≤ 1)
      × (measuring_count c ≢ 0
          → (created c.threads ≡ thread_num)
            × (c.waiting_count ≡ thread_num)
            × (failed_count c ≡ 0))
Reach-IsInStep thread_num c p =
    let v = reach-IsInStep thread_num c p in
    (v.serial, λ some_measure. (ground arith, ground arith, ground arith))

-- Once the registration of a client has failed after the start of `main`, no client measures, and
-- neither `main` nor a client can make a step any more.
pub failed_blocks :
    (thread_num : ℕ) (c d : Clients)
    → Reach thread_num no_clients c
    → failed_count c ≢ 0
    → (measuring_count c ≡ 0) × ¬ Step thread_num c d
failed_blocks thread_num c d p some_failed =
    let v = reach-IsInStep thread_num c p in (ground arith, stuck c d v some_failed)
  where
    stuck : (c d : Clients) → IsInStep thread_num c → failed_count c ≢ 0 → ¬ Step thread_num c d
    stuck _ _ v f (creates count threads lt e) = absurd (omega arith)
    stuck _ _ v f (registers count before after) =
        let a = add_up before registering after in absurd (omega arith)
    stuck _ _ v f (fails count before after) =
        let a = add_up before registering after in absurd (omega arith)
    stuck _ _ v f (passes count before after e) =
        let a = add_up before waiting after in absurd (omega arith)
