-- ===== src/Worker/Capabilities.antt =====
-- The initial capabilities of the new process.
use mett_eagle.Base.{ℕ, ◌%◌, ◌≡◌, refl, List, [], ◌∷◌, Option, arith, c_string, returns, Error}
use mett_eagle.Worker.{
  Loader, Worker, InitialCap, Mapping, push_initial_caps, map_initial_caps, push_caps, map_caps,
}

module _ {Stack : Type 0} (l : Loader Stack) where
  open l use {push, is_valid_name}

  -- An entry for each capability, with the index of its mapping.
  abbrev pub push_entries : List InitialCap → List Mapping → Stack → Stack
  push_entries (c ∷ cs) (m ∷ ms) stack =
      push_entries cs ms (push (c_string c.name) m.index c.flags stack)
  push_entries _ _ stack = stack

  push_caps-map_caps :
      (map_error : Mapping → Option Error) (cs : List InitialCap) (start : ℕ) (stack : Stack)
      → (map_caps l map_error cs start).1 ≡ returns tt
      → (push_caps l cs start stack).1 ≡ push_entries cs (map_caps l map_error cs start).0 stack
  unfolding push_caps map_caps
  push_caps-map_caps map_error [] start stack h = refl
  push_caps-map_caps map_error (c ∷ cs) start stack h = ground (
    arith,
    push_caps-map_caps map_error cs (l.get_initial_cap (c_string c.name) start).1
        (push (c_string c.name) (l.get_initial_cap (c_string c.name) start).0 c.flags stack),
  )

  -- The mappings are those of a prefix of the capabilities, in order and with the low four rights.
  abbrev pub MapsPrefix : List InitialCap → List Mapping → Type 0
  MapsPrefix cs [] = Unit
  MapsPrefix [] (m ∷ ms) = ⊥
  MapsPrefix (c ∷ cs) (m ∷ ms) =
      (m.capability ≡ c.capability) × (m.rights ≡ c.rights % 16) × MapsPrefix cs ms

  map_caps-MapsPrefix :
      (map_error : Mapping → Option Error) (cs : List InitialCap) (start : ℕ)
      → MapsPrefix cs (map_caps l map_error cs start).0
  unfolding map_caps
  map_caps-MapsPrefix map_error [] start = tt
  map_caps-MapsPrefix map_error (c ∷ cs) start =
      ground (arith, map_caps-MapsPrefix map_error cs (l.get_initial_cap (c_string c.name) start).1)

  -- Whatever mapping fails, the new task holds capabilities of the list only, from its front. If every
  -- mapping succeeds, the entry that is pushed for a capability names the index at which that
  -- capability is mapped: the two loops, which run at different times, agree.
  pub pushed_entries_are_mapped :
      (map_error : Mapping → Option Error) (w : Worker) (start : ℕ) (stack : Stack)
      → MapsPrefix w.initial_capabilities (map_initial_caps l map_error w start).0
        × ((map_initial_caps l map_error w start).1 ≡ returns tt
            → (push_initial_caps l w start stack).1
              ≡ push_entries w.initial_capabilities (map_initial_caps l map_error w start).0 stack)
  unfolding push_initial_caps map_initial_caps
  pushed_entries_are_mapped map_error w start stack = (
    map_caps-MapsPrefix map_error w.initial_capabilities start,
    push_caps-map_caps map_error w.initial_capabilities start stack,
  )
