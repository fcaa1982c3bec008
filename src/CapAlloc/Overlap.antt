-- ===== src/CapAlloc/Overlap.antt =====
-- Calls of `take` after which a slot has two holders that do not know of each other.
use mett_eagle.Base.{ℕ, ◌+◌, ◌≡◌, refl}
use mett_eagle.CapAlloc.{f_used, Phase, idle, clearing, taking, alloc, Thread, advance}

abbrev pub thread : Phase → ℕ → Thread
thread phase refs = record { phase = phase; refs = refs }

-- The first thread takes at the counter `counter`, the second makes a step, the third allocates.
abbrev pub DoublyHeld : ℕ → Phase → ℕ → ℕ → ℕ → Type 0
DoublyHeld counter second a b c =
    let (after_take, t) = advance alloc counter (thread (taking counter) a) in
    let (after_second, u) = advance alloc after_take (thread second b) in
    let (after_alloc, w) = advance alloc after_second (thread idle c) in
    (t.refs ≡ a + 1) × (w.refs ≡ c + 1) × (after_alloc ≡ f_used + 1)

-- A `take` while another thread clears the slot.
late_take_lost : (a b c : ℕ) → DoublyHeld f_used clearing a b c
unfolding advance
late_take_lost a b c = (refl, refl, refl)

-- A `take` at 127 references.
take_wraps :
    (a b c : ℕ)
    → let (after_take, t) = advance alloc (f_used + 127) (thread (taking (f_used + 127)) a) in
      let (after_alloc, w) = advance alloc after_take (thread idle c) in
      (t.refs ≡ a + 1) × (after_take ≡ 0) × (w.refs ≡ c + 1) × (after_alloc ≡ f_used + 1)
unfolding advance
take_wraps a b c = (refl, refl, refl, refl)

-- A `take` while another thread clears the slot does not fail: the caller has a reference, the
-- clearing thread then sets the counter to 0, and `alloc` hands the slot to a third thread, with the
-- counter of one reference. Nor does a `take` at 127 references: the counter becomes 0 while its
-- caller counts one reference more, and `alloc` hands the slot out again in the same way.
pub take_doubly_holds :
    (a b c : ℕ)
    → DoublyHeld f_used clearing a b c
      × let (after_take, t) = advance alloc (f_used + 127) (thread (taking (f_used + 127)) a) in
        let (after_alloc, w) = advance alloc after_take (thread idle c) in
        (t.refs ≡ a + 1) × (after_take ≡ 0) × (w.refs ≡ c + 1) × (after_alloc ≡ f_used + 1)
take_doubly_holds a b c = (late_take_lost a b c, take_wraps a b c)
