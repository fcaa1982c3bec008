-- ===== src/CapAlloc/WaitFree.antt =====
-- `alloc` among other threads: it ends after its own steps, whatever the others do in between.
use mett_eagle.Base.{
  ℕ, zero, suc, ◌+◌, ◌%◌, ◌≤◌, ◌<◌, ◌≡◌, ◌≢◌, refl, sym, subst, ◌⊎◌, inl, inr, true, false, arith,
  ◌==◌, ==_iff, Bool-cases,
}
use mett_eagle.CapAlloc.{Call, alloc, advance}
use mett_eagle.CapAlloc.Search.{
  Ahead, Within, next_slot, next_below, Ahead-next_slot, Within-next_slot,
}
use mett_eagle.CapAlloc.Table.{
  rests, seeking, recording, User, Memory, act, try_slot, start_call, set_item,
}

-- The thread after `n` steps of its own from time `t` on; `views t` is the memory at the step that it
-- makes at time `t`, as all threads have left it.
pub own_steps : ℕ → (ℕ → Memory) → ℕ → ℕ → User → User
own_steps capacity views zero t u = u
own_steps capacity views (suc n) t u =
    own_steps capacity views n (t + 1) (act capacity alloc 0 (views t) u).1

-- The slot was free when the thread looked at it, within `n` steps from time `t` on.
abbrev pub FoundFree : (ℕ → Memory) → ℕ → ℕ → ℕ → Type 0
FoundFree views t n k = (s : ℕ) × (t ≤ s) × (s < t + n) × ((views s).items k ≡ 0)

abbrev pub FoundUsed : (ℕ → Memory) → ℕ → ℕ → ℕ → Type 0
FoundUsed views t n k = (s : ℕ) × (t ≤ s) × (s < t + n) × ((views s).items k ≢ 0)

-- How the loop ends: with a slot, or at `start` with every slot ahead of `i` found in use.
abbrev pub Ended : ℕ → (ℕ → Memory) → ℕ → ℕ → ℕ → ℕ → User → Type 0
Ended capacity views start i t n u =
    ((k : ℕ) × (k < capacity) × (u.doing ≡ recording k) × FoundFree views t n k)
    ⊎ ((u.doing ≡ rests) × ((k : ℕ) → k < capacity → Ahead i start k → FoundUsed views t n k))

module _ (capacity : ℕ) (views : ℕ → Memory) where
  stops :
      (start i t : ℕ) (refs : ℕ → ℕ)
      → (i == start) ≡ true
      → (act capacity alloc 0 (views t) (record { doing = seeking start i; refs = refs })).1.doing
        ≡ rests
  unfolding act
  stops start i t refs same = rw same refl

  gets :
      (start i t : ℕ) (refs : ℕ → ℕ)
      → (i == start) ≡ false
      → (views t).items i ≡ 0
      → (act capacity alloc 0 (views t) (record { doing = seeking start i; refs = refs })).1.doing
        ≡ recording i
  unfolding act try_slot
  gets start i t refs other free = rw (other, free) refl

  passes :
      (start i t : ℕ) (refs : ℕ → ℕ)
      → (i == start) ≡ false
      → (views t).items i ≢ 0
      → (refs' : ℕ → ℕ) × ((act capacity alloc 0
            (views t)
            (record { doing = seeking start i; refs = refs })).1
          ≡ record { doing = seeking start ((i + 1) % capacity); refs = refs' })
  unfolding act try_slot
  passes start i t refs other used =
      let in_use : ((views t).items i == 0) ≡ false = ground arith in
      (
        set_item refs i
            (advance alloc ((views t).items i)
              (record { phase = mett_eagle.CapAlloc.idle; refs = refs i })).1.refs,
        rw (other, in_use) refl,
      )

  later_Ended :
      (start i t n : ℕ) (u : User)
      → i < capacity
      → start < capacity
      → i ≢ start
      → (views t).items i ≢ 0
      → Ended capacity views start ((i + 1) % capacity) (t + 1) n u
      → Ended capacity views start i t (suc n) u
  later_Ended start i t n u h s ne used (inl (k, lt, e, (w, low, high, free))) =
      inl (k, lt, e, (w, omega arith, omega arith, free))
  later_Ended start i t n u h s ne used (inr (e, all)) = inr (
    e,
    λ k m a. elim (Ahead-next_slot capacity i start k h s ne m a) [
      | inl here ↦ (t, omega arith, omega arith, rw here used)
      | inr rest ↦
          let (w, low, high, in_use) = all k m rest in (w, omega arith, omega arith, in_use)
    ],
  )

  after_pass :
      (start i t n : ℕ) (u u' : User)
      → (act capacity alloc 0 (views t) u).1 ≡ u'
      → i < capacity
      → start < capacity
      → i ≢ start
      → (views t).items i ≢ 0
      → Ended capacity views start
          ((i + 1) % capacity)
          (t + 1)
          n
          (own_steps capacity views n (t + 1) u')
      → Ended capacity views start i t (suc n) (own_steps capacity views (suc n) t u)
  unfolding own_steps
  after_pass start i t n u u' e h s ne used ended =
      later_Ended start i t n
        (own_steps capacity views n (t + 1) (act capacity alloc 0 (views t) u).1) h s ne used
        (subst
          (λ w.
            Ended capacity views start ((i + 1) % capacity) (t + 1) n
              (own_steps capacity views n (t + 1) w))
          (sym e) ended)

  seek_ends :
      (fuel start i t : ℕ) (refs : ℕ → ℕ)
      → i < capacity
      → start < capacity
      → Within capacity i start fuel
      → (n : ℕ) × (n ≤ fuel)
        × Ended capacity views start i t n
            (own_steps capacity views n t (record { doing = seeking start i; refs = refs }))
  unfolding own_steps
  seek_ends zero start i t refs h s w = absurd (omega arith)
  seek_ends (suc fuel) start i t refs h s w = elim (Bool-cases (i == start)) [
    | inl same ↦ (
      1,
      omega arith,
      inr (stops start i t refs same, λ k m a. absurd (omega (arith, (==_iff i start).0 same))),
    )
    | inr other ↦ elim (Bool-cases ((views t).items i == 0)) [
      | inl free ↦ (
        1,
        omega arith,
        inl (
          i,
          h,
          gets start i t refs other ((==_iff _ _).0 free),
          (t, omega arith, omega arith, (==_iff _ _).0 free),
        ),
      )
      | inr used ↦
          let in_use : (views t).items i ≢ 0 = ground arith in
          let ne : i ≢ start = ground arith in
          let (refs', passed) = passes start i t refs other in_use in
          let (n, few, ended) =
            seek_ends fuel start ((i + 1) % capacity) (t + 1) refs' (next_below capacity i h) s
              (Within-next_slot capacity i start fuel h s ne w) in
          (
            suc n,
            omega arith,
            after_pass start i t n (record { doing = seeking start i; refs = refs }) _ passed h s ne
                in_use ended,
          )
    ]
  ]

  -- How a call of `alloc` ends that begins at time `t`.
  abbrev pub AllocEnds : ℕ → (ℕ → ℕ) → Type 0
  AllocEnds t refs =
      (n : ℕ) × (n ≤ capacity + 1)
      × (((k : ℕ) × (k < capacity)
            × ((own_steps capacity views n t (record { doing = rests; refs = refs })).doing
                ≡ recording k)
            × FoundFree views t n k)
          ⊎ (((own_steps capacity views n t (record { doing = rests; refs = refs })).doing ≡ rests)
              × (1 ≤ n)
              × ((k : ℕ) → k < capacity → k ≢ (views t).last → FoundUsed views t n k)))

  from_first :
      (t n : ℕ) (refs : ℕ → ℕ)
      → (views t).last < capacity
      → n ≤ capacity
      → Ended capacity views (views t).last (((views t).last + 1) % capacity) (t + 1) n (
          own_steps capacity views n (t + 1) (record {
            doing = seeking (views t).last (((views t).last + 1) % capacity);
            refs = refs;
          }))
      → AllocEnds t refs
  unfolding own_steps act start_call
  from_first t n refs s few (inl (k, lt, e, (w, low, high, free))) =
      (suc n, omega arith, inl (k, lt, e, (w, omega arith, omega arith, free)))
  from_first t n refs s few (inr (e, all)) = (
    suc n,
    omega arith,
    inr (
      e,
      omega arith,
      λ k m ne.
          let (w, low, high, used) = all k m (omega (arith, next_slot capacity (views t).last s)) in
          (w, omega arith, omega arith, used),
    ),
  )

  -- Where a slot was allocated last by the time at which `alloc` begins, the thread needs one more step of
  -- its own than there are slots at most, whatever the others do between its steps: then it has a slot
  -- that was free when it looked at it, or it has looked at every slot but the one allocated last, and
  -- found each in use.
  pub alloc_ends : (t : ℕ) (refs : ℕ → ℕ) → (views t).last < capacity → AllocEnds t refs
  alloc_ends t refs s =
      let (n, few, ended) =
        seek_ends capacity (views t).last (((views t).last + 1) % capacity) (t + 1) refs
          (next_below capacity (views t).last s) s
          (omega (arith, next_slot capacity (views t).last s)) in
      from_first t n refs s few ended
