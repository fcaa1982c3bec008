-- ===== src/Manager/Overlap.antt =====
-- The accesses of registrations and deletion IRQs: mett-eagle/manager/src/manager_registry.cc.
use mett_eagle.Base.{ℕ, ◌≡◌, ◌≢◌, refl, ◌∙◌, List, [], ◌∷◌, Option, none, some, arith, All}
use mett_eagle.Cpu.Bitset.{Bits}
use mett_eagle.Registry.{Session, Registry, Calls, register_with}
use mett_eagle.Registry.Race.{Selecting, ready, chose, masking, refused, has}
use mett_eagle.Actions.{Actions}
use mett_eagle.Manager.{
  Thread, absent, hanging, serving, Manager, Access, begins, selects, leaves, frees, start_thread,
  Busy, after_selection, select_next, begin_registration, leave, free_cpu, access, overlap,
}

-- An access for the client of another gate.
abbrev pub SparesAccess : ℕ → Access → Type 0
SparesAccess g (begins calls) = calls.gate ≢ some g
SparesAccess g selects = Unit
SparesAccess g (leaves gate) = gate ≢ g
SparesAccess g (frees gate) = Unit

-- The registration under way does not hand out the gate.
abbrev pub IsOther : ℕ → Option (Calls × Selecting) → Type 0
IsOther g none = Unit
IsOther g (some (calls, selecting)) = calls.gate ≢ some g

-- The thread of the gate is as before, and no registration under way hands the gate out.
abbrev Keeps : ℕ → Busy → Busy → Type 0
Keeps g b c = (c.manager.threads g ≡ b.manager.threads g) × IsOther g c.selecting

register_with-other :
    (calls : Calls) (s : ℕ) (r : Registry) (threads : ℕ → Thread) (g : ℕ)
    → calls.gate ≢ some g
    → start_thread (register_with calls s r).1 threads g ≡ threads g
unfolding start_thread register_with
register_with-other calls s r threads g other = ground arith

module _ (g : ℕ) where
  after_selection-Keeps :
      (calls : Calls) (bits : Bits) (selecting : Selecting) (b : Busy)
      → calls.gate ≢ some g
      → Keeps g b (after_selection calls bits selecting b)
  unfolding after_selection
  after_selection-Keeps calls bits refused b other = (refl, tt)
  after_selection-Keeps calls bits (has s) b other = (
    register_with-other calls s (record b.manager.registry { available = bits }) b.manager.threads g
        other,
    tt,
  )
  after_selection-Keeps calls bits ready b other = (refl, other)
  after_selection-Keeps calls bits (chose s) b other = (refl, other)
  after_selection-Keeps calls bits (masking s copy) b other = (refl, other)

  select_next-Keeps :
      (under_way : Option (Calls × Selecting)) (b : Busy)
      → b.selecting ≡ under_way
      → IsOther g under_way
      → Keeps g b (select_next under_way b)
  unfolding select_next
  select_next-Keeps none b e other = rw e (refl, tt)
  select_next-Keeps (some (calls, selecting)) b e other = after_selection-Keeps calls _ _ b other

  begin-Keeps :
      (calls : Calls) (under_way : Option (Calls × Selecting)) (b : Busy)
      → b.selecting ≡ under_way
      → calls.gate ≢ some g
      → IsOther g under_way
      → Keeps g b (begin_registration calls under_way b)
  unfolding begin_registration
  begin-Keeps calls none b e new other = (refl, new)
  begin-Keeps calls (some (old, selecting)) b e new other = rw e (refl, other)

  leave-Keeps :
      (gate : ℕ) (t : Thread) (found : Option (Session × List Session)) (b : Busy)
      → gate ≢ g
      → IsOther g b.selecting
      → Keeps g b (leave gate t found b)
  unfolding leave
  leave-Keeps gate absent found b far other = (refl, other)
  leave-Keeps gate hanging found b far other = (refl, other)
  leave-Keeps gate (serving a) none b far other = (refl, other)
  leave-Keeps gate (serving a) (some (s, others)) b far other = (ground arith, other)

  access-Keeps :
      (x : Access) (b : Busy) → SparesAccess g x → IsOther g b.selecting → Keeps g b (access x b)
  unfolding access free_cpu
  access-Keeps (begins calls) b spared other = begin-Keeps calls b.selecting b refl spared other
  access-Keeps selects b spared other = select_next-Keeps b.selecting b refl other
  access-Keeps (leaves gate) b spared other = leave-Keeps gate _ _ b spared other
  access-Keeps (frees gate) b spared other = (refl, other)

  -- Whatever overlaps, the thread of another gate goes on.
  pub overlap-Spares :
      (xs : List Access) (b : Busy)
      → All (SparesAccess g) xs
      → IsOther g b.selecting
      → (overlap xs b).manager.threads g ≡ b.manager.threads g
  unfolding overlap
  overlap-Spares [] b spared other = refl
  overlap-Spares (x ∷ xs) b spared other =
      let (same, other') = access-Keeps x b spared.0 other in
      overlap-Spares xs (access x b) spared.1 other' ∙ same
