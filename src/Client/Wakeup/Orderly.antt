-- ===== src/Client/Wakeup/Orderly.antt =====
-- What holds at every moment of the start of the clients.
use mett_eagle.Base.{
  ℕ, ◌+◌, ◌≤◌, ◌<◌, ◌⊎◌, subst, sym, ◌∙◌, inl, inr, ◌≡◌, ◌≢◌, refl, List, [], ◌∷◌, ◌++◌, arith,
}
use mett_eagle.Client.Wakeup.{
  Stage, registering, failed, asleep, woken, passed, measuring, Main, tests, sleeps, creates,
  Threads, no_threads, created, notify_main, Notified, nobody, somebody, Step, main_goes_on,
  main_falls_asleep, main_creates, fails, registers, registers_last, goes_on, falls_asleep,
  notifies, Spurious, main_wakes, client_wakes, Reach, here, later, wakes,
}
use mett_eagle.Client.Wakeup.Counts.{
  asleep_count-tally, registering_count, failed_count, sleeping_count, awake_count, measuring_count,
  add_up,
}

-- What `main` knows at its stage: it sleeps only while a client has still to be counted, and creates
-- only when all are counted and one is missing.
abbrev pub Knows : Main → ℕ → ℕ → ℕ → Type 0
Knows tests thread_num count made = Unit
Knows sleeps thread_num count made = count ≢ made
Knows creates thread_num count made = (count ≡ made) × (made < thread_num)

-- Each client is counted, on its way, or has failed; and while all have been counted and one sleeps,
-- another one is awake.
pub record IsAwake (thread_num : ℕ) (c : Threads) : Type 0 where
  pub counted :
      c.waiting_count + registering_count c.clients + failed_count c.clients ≡ created c.clients
  pub settled :
      sleeping_count c.clients + awake_count c.clients + measuring_count c.clients ≡ c.waiting_count
  pub bounded : created c.clients ≤ thread_num
  pub knows : Knows c.main thread_num c.waiting_count (created c.clients)
  pub watched :
      (sleeping_count c.clients ≡ 0)
      ⊎ ((1 ≤ awake_count c.clients) ⊎ (c.waiting_count < thread_num))

Knows-notify_main :
    (m : Main) (thread_num count made made' : ℕ)
    → Knows m thread_num count made
    → count < made
    → Knows (notify_main m) thread_num (count + 1) made'
Knows-notify_main tests thread_num count made made' k lt = tt
Knows-notify_main sleeps thread_num count made made' k lt = tt
Knows-notify_main creates thread_num count made made' k lt = absurd (omega arith)

Knows-same :
    (m : Main) (thread_num count made made' : ℕ)
    → made ≡ made'
    → Knows m thread_num count made
    → Knows m thread_num count made'
Knows-same m thread_num count made made' e k = subst (Knows m thread_num count) e k

counts-Notified :
    (xs ps : List Stage)
    → Notified xs ps
    → (created ps ≡ created xs)
      × (registering_count ps ≡ registering_count xs)
      × (failed_count ps ≡ failed_count xs)
      × (measuring_count ps ≡ measuring_count xs)
      × (sleeping_count ps + awake_count ps ≡ sleeping_count xs + awake_count xs)
      × ((sleeping_count ps ≡ 0) ⊎ (1 ≤ awake_count ps))
counts-Notified _ _ (nobody ps none_sleeps) =
    (refl, refl, refl, refl, refl, inl (sym (asleep_count-tally ps) ∙ none_sleeps))
counts-Notified _ _ (somebody before after) =
    let a = add_up before asleep after in
    let b = add_up before woken after in
    (omega arith, omega arith, omega arith, omega arith, omega arith, inr (omega arith))

Step-IsAwake :
    (thread_num : ℕ) (c d : Threads)
    → IsAwake thread_num c
    → Step thread_num c d
    → IsAwake thread_num d
Step-IsAwake n _ _ v (main_goes_on count ps lt e) = record {
  counted = v.counted;
  settled = v.settled;
  bounded = v.bounded;
  knows = (e, lt);
  watched = v.watched;
}
Step-IsAwake n _ _ v (main_falls_asleep count ps lt e) = record {
  counted = v.counted;
  settled = v.settled;
  bounded = v.bounded;
  knows = e;
  watched = v.watched;
}
Step-IsAwake n _ _ v (main_creates count ps) =
    let a = add_up ps registering [] in
    let k : (count ≡ created ps) × (created ps < n) = v.knows in
    record {
      counted = omega (arith, v.counted);
      settled = omega (arith, v.settled);
      bounded = omega arith;
      knows = tt;
      watched = omega (arith, v.watched);
    }
Step-IsAwake n _ _ v (fails count before after m) =
    let a = add_up before registering after in
    let b = add_up before failed after in
    record {
      counted = omega (arith, v.counted);
      settled = omega (arith, v.settled);
      bounded = omega (arith, v.bounded);
      knows = Knows-same m n count _ _ (omega arith) v.knows;
      watched = omega (arith, v.watched);
    }
Step-IsAwake n _ _ v (registers count before after m other) =
    let a = add_up before registering after in
    let b = add_up before asleep after in
    record {
      counted = omega (arith, v.counted);
      settled = omega (arith, v.settled);
      bounded = omega (arith, v.bounded);
      knows = Knows-notify_main m n count _ _ v.knows (omega (arith, v.counted));
      watched = omega (arith, v.watched, v.counted, v.bounded);
    }
Step-IsAwake n _ _ v (registers_last count before after m last) =
    let a = add_up before registering after in
    let b = add_up before passed after in
    record {
      counted = omega (arith, v.counted);
      settled = omega (arith, v.settled);
      bounded = omega (arith, v.bounded);
      knows = Knows-notify_main m n count _ _ v.knows (omega (arith, v.counted));
      watched = omega arith;
    }
Step-IsAwake n _ _ v (goes_on count before after m all) =
    let a = add_up before woken after in
    let b = add_up before passed after in
    record {
      counted = omega (arith, v.counted);
      settled = omega (arith, v.settled);
      bounded = omega (arith, v.bounded);
      knows = Knows-same m n count _ _ (omega arith) v.knows;
      watched = omega arith;
    }
Step-IsAwake n _ _ v (falls_asleep count before after m other) =
    let a = add_up before woken after in
    let b = add_up before asleep after in
    record {
      counted = omega (arith, v.counted);
      settled = omega (arith, v.settled);
      bounded = omega (arith, v.bounded);
      knows = Knows-same m n count _ _ (omega arith) v.knows;
      watched = omega (arith, v.counted, v.bounded);
    }
Step-IsAwake n _ _ v (notifies count before after ps m notified) =
    let a = add_up before passed after in
    let b = add_up before measuring after in
    let (made, register, fail, measure, others, watched) =
      counts-Notified (before ++ measuring ∷ after) ps notified in
    record {
      counted = omega (arith, v.counted);
      settled = omega (arith, v.settled);
      bounded = omega (arith, v.bounded);
      knows = Knows-same m n count _ _ (omega arith) v.knows;
      watched = omega arith;
    }

Spurious-IsAwake :
    (thread_num : ℕ) (c d : Threads) → IsAwake thread_num c → Spurious c d → IsAwake thread_num d
Spurious-IsAwake n _ _ v (main_wakes count ps) = record {
  counted = v.counted;
  settled = v.settled;
  bounded = v.bounded;
  knows = tt;
  watched = v.watched;
}
Spurious-IsAwake n _ _ v (client_wakes count before after m) =
    let a = add_up before asleep after in
    let b = add_up before woken after in
    record {
      counted = omega (arith, v.counted);
      settled = omega (arith, v.settled);
      bounded = omega (arith, v.bounded);
      knows = Knows-same m n count _ _ (omega arith) v.knows;
      watched = omega arith;
    }

pub reach-IsAwake :
    (thread_num : ℕ) (c : Threads) → Reach thread_num no_threads c → IsAwake thread_num c
reach-IsAwake n _ here = record {
  counted = refl;
  settled = refl;
  bounded = omega arith;
  knows = tt;
  watched = inl refl;
}
reach-IsAwake n c (later {t = b} p s) = Step-IsAwake n b c (reach-IsAwake n b p) s
reach-IsAwake n c (wakes {t = b} p s) = Spurious-IsAwake n b c (reach-IsAwake n b p) s
