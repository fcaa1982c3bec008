-- ===== src/Manager/OwnCpu.antt =====
-- Each client of the manager has a CPU of its own: mett-eagle/manager/src/manager_registry.cc, from the
-- start of mett-eagle/manager/src/manager.cc on.
use mett_eagle.Base.{
  ℕ, ◌^◌, ◌≤◌, ◌<◌, ◌≡◌, ◌≢◌, refl, sym, subst, ap, ◌∙◌, true, false, List, Option, some, ==_iff,
  Outcome, Error, Label, arith, All,
}
use mett_eagle.Cpu.Bitset.{Bits, get, bits_of, get-bits_of-two_pow}
use mett_eagle.Cpu.{width}
use mett_eagle.Registry.{Registry}
use mett_eagle.Registry.Ownership.{holders, here}
use mett_eagle.Registry.Sessions.{word_of, holders-word_of, held_not_free}
use mett_eagle.Registry.Assigned.{sessions_at, word_of_session, held_twice}
use mett_eagle.Startup.{Started, manager_main}
use mett_eagle.Startup.Main.{initial-IsExclusive, served-IsExclusive}
use mett_eagle.Worker.{Loader}
use mett_eagle.Manager.{Thread, absent, hanging, serving, Manager, Event, run}
use mett_eagle.Manager.Placement.{IsAlone, is_alive, IsPlaced, AreNew, run-IsPlaced}

-- The manager when `main` begins to serve.
abbrev pub started : Registry → Manager
started r = record { registry = r; threads = λ g. absent }

pub started-IsPlaced :
    (info : Option Error) (map gate : ℕ) (r : Registry)
    → manager_main info map (some gate) ≡ Started.serving r
    → IsPlaced (bits_of width map) (started r)
started-IsPlaced info map gate r h =
    subst (λ x. IsPlaced (bits_of width map) (started x))
      (sym (served-IsExclusive info map gate r r h here).0)
      (record {
        exclusive = initial-IsExclusive map;
        given = λ i. omega arith;
        linked = λ g. refl;
        one_cpu = tt;
      })

-- CPU `k` is the client's alone: it is the word of the client's session, and one of those that were free
-- at first, it is not free, and no other live client has it.
abbrev pub OwnsCpu : Bits → Manager → ℕ → ℕ → Type 0
OwnsCpu at_first m g k =
    (k < width)
    × (word_of g m.registry.sessions ≡ some (2 ^ k))
    × (get at_first k ≡ true)
    × (get m.registry.available k ≡ false)
    × ((h : ℕ) → h ≢ g → word_of h m.registry.sessions ≢ some (2 ^ k))

module _ (at_first : Bits) (m : Manager) (v : IsPlaced at_first m) (g : ℕ) where
  pub alive-OwnsCpu : m.threads g ≢ absent → (k : ℕ) × OwnsCpu at_first m g k
  alive-OwnsCpu alive =
      let (k, lt, word) =
        word_of_session g m.registry.sessions v.one_cpu (alive_session (m.threads g) refl) in
      let bit = get-bits_of-two_pow width k k lt ∙ (==_iff k k).1 refl in
      (
        k,
        (
          lt,
          word,
          given_first k (holders-word_of m.registry.sessions g (2 ^ k) k word bit),
          held_not_free m.registry g (2 ^ k) k v.exclusive word bit,
          λ h other same.
              let twice =
                held_twice m.registry.sessions h g (2 ^ k) (2 ^ k) k other same word bit bit in
              absurd (omega (arith, twice, v.exclusive.single k)),
        ),
      )
    where
      alive_session : (t : Thread) → m.threads g ≡ t → 1 ≤ sessions_at g m.registry.sessions
      alive_session absent e = absurd (alive e)
      alive_session hanging e = omega (arith, v.linked g, ap is_alive e)
      alive_session (serving a) e = omega (arith, v.linked g, ap is_alive e)

      given_first : (k : ℕ) → 1 ≤ holders k m.registry.sessions → get at_first k ≡ true
      given_first k held = ground (arith, v.given k)

module _ {Stack : Type 0} (l : Loader Stack) (on_throw : Error → Outcome Label) where
  -- If `main` serves, then after registrations with any outcome, requests of any clients and deletion
  -- IRQs in any order, where no registration or clean-up overlaps another one, no log message of an
  -- exception throws, and the kernel names no new gate like that of a live client thread, each client
  -- whose thread is live has a CPU of its own: it is one of the scheduler's map, it is not free, and no
  -- other client has it.
  pub own_cpu :
      (info : Option Error) (map gate : ℕ) (r : Registry) (events : List Event) (g : ℕ)
      → manager_main info map (some gate) ≡ Started.serving r
      → All IsAlone events
      → AreNew l on_throw events (started r)
      → (run l on_throw events (started r)).0.threads g ≢ absent
      → (k : ℕ) × OwnsCpu (bits_of width map) (run l on_throw events (started r)).0 g k
  own_cpu info map gate r events g serves alone fresh =
      alive-OwnsCpu (bits_of width map) (run l on_throw events (started r)).0
        (run-IsPlaced l on_throw (bits_of width map) events (started r)
          (started-IsPlaced info map gate r serves) alone fresh)
        g
