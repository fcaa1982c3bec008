-- ===== src/AppModel/StackAccess.antt =====
-- What `check_access` guarantees to a writer on the new stack.
use mett_eagle.Base.{
  ℕ, ◌+◌, ◌-◌, ◌≤◌, ◌<◌, ◌≡◌, subst, ◌⊎◌, inl, inr, false, List, [], ◌∷◌, Option, none, arith, ◌==◌,
  returns, Error, Bool-cases, Option-cases, ==_iff,
}
use native.Mathlib.Decide.{dec_lt}
use mett_eagle.AppModel.{Pages}
use mett_eagle.AppModel.Stack.{StackBase, range_of, record_access, check_access}

-- One of the allocated ranges holds all from `lo` to `hi`.
abbrev pub Covers : List (ℕ × ℕ) → ℕ → ℕ → Type 0
Covers [] lo hi = ⊥
Covers ((o, e) ∷ rs) lo hi = ((o ≤ lo) × (hi ≤ e)) ⊎ Covers rs lo hi

Covers-mono :
    (rs : List (ℕ × ℕ)) (lo hi lo' hi' : ℕ)
    → lo ≤ lo'
    → hi' ≤ hi
    → Covers rs lo hi
    → Covers rs lo' hi'
Covers-mono [] lo hi lo' hi' p q c = c
Covers-mono ((o, e) ∷ rs) lo hi lo' hi' p q (inl h) = inl (omega arith)
Covers-mono ((o, e) ∷ rs) lo hi lo' hi' p q (inr c) = inr (Covers-mono rs lo hi lo' hi' p q c)

module _ (pages : Pages) where
  -- The stack is at a page boundary above 0, and the page that was checked last is allocated.
  pub record IsChecked (s : StackBase) : Type 0 where
    pub at_page : pages.trunc s.vma ≡ s.vma
    pub above : 0 < s.vma
    pub page_allocated :
        (s.last_checked ≡ 0)
        ⊎ Covers s.allocated (s.last_checked - s.vma) (s.last_checked + pages.size - s.vma)

  vma-le-trunc : (s : StackBase) (addr : ℕ) → IsChecked s → s.vma ≤ addr → s.vma ≤ pages.trunc addr
  vma-le-trunc s addr v h = elim (dec_lt (pages.trunc addr) s.vma) [
    | yes below ↦ omega (
      arith,
      pages.apart (pages.trunc addr) s.vma (pages.trunc-trunc addr) v.at_page below,
      pages.lt-trunc addr,
    )
    | no above ↦ omega arith
  ]

  module _ (allocate : ℕ × ℕ → Option Error) (addr sz : ℕ) (s : StackBase) (v : IsChecked s)
      (inside : s.vma ≤ addr) where
    start_page : pages.trunc (addr - s.vma) ≡ pages.trunc addr - s.vma
    start_page = pages.trunc-sub addr s.vma v.at_page inside

    -- The range that is asked for holds the whole page of the access, and the access.
    range_covers :
        0 < sz
        → (pages.trunc (addr - s.vma) ≤ pages.trunc addr - s.vma)
          × (pages.trunc addr + pages.size - s.vma ≤ pages.round (addr + sz - s.vma))
    range_covers some_bytes = omega (arith, start_page, vma-le-trunc s addr v inside, page_below)
      where
        before : pages.trunc addr - s.vma < pages.round (addr + sz - s.vma)
        before = omega (
          arith,
          pages.trunc-le addr,
          vma-le-trunc s addr v inside,
          pages.le-round (addr + sz - s.vma),
        )

        page_below : pages.trunc addr - s.vma + pages.size ≤ pages.round (addr + sz - s.vma)
        page_below =
            pages.apart (pages.trunc addr - s.vma) (pages.round (addr + sz - s.vma))
              (subst (λ a. pages.trunc a ≡ a) start_page (pages.trunc-trunc (addr - s.vma)))
              (pages.trunc-round (addr + sz - s.vma)) before

    check_access-IsChecked : 0 < sz → IsChecked (check_access pages allocate addr sz s).0
    unfolding check_access
    check_access-IsChecked some_bytes = elim (Bool-cases (s.last_checked == pages.trunc addr)) [
      | inl same ↦ rw (same, check_access) v
      | inr other ↦
          rw (other, check_access)
            (elim (Option-cases (allocate (range_of pages s.vma addr sz))) [
              | inl e ↦
                  rw (e, record_access)
                    (record {
                      at_page = v.at_page;
                      above = v.above;
                      page_allocated = inr (inl (range_covers some_bytes));
                    })
              | inr (x, e) ↦ rw (e, record_access) v
            ])
    ]

    -- An access that returns and ends in the page where it begins.
    one_page-Covers :
        addr + sz ≤ pages.trunc addr + pages.size
        → (check_access pages allocate addr sz s).1 ≡ returns tt
        → Covers
            (check_access pages allocate addr sz s).0.allocated
            (addr - s.vma)
            (addr + sz - s.vma)
    unfolding check_access
    one_page-Covers one_page h = elim (Bool-cases (s.last_checked == pages.trunc addr)) [
      | inl same ↦ rw (same, check_access) (known ((==_iff _ _).0 same) v.page_allocated)
      | inr other ↦ elim (Option-cases (allocate (range_of pages s.vma addr sz))) [
        | inl e ↦
            rw (other, check_access, e, record_access)
              (inl (pages.trunc-le (addr - s.vma), pages.le-round (addr + sz - s.vma)))
        | inr (x, e) ↦ absurd (ground arith)
      ]
    ]
      where
        known :
            s.last_checked ≡ pages.trunc addr
            → (s.last_checked ≡ 0)
              ⊎ Covers s.allocated (s.last_checked - s.vma) (s.last_checked + pages.size - s.vma)
            → Covers s.allocated (addr - s.vma) (addr + sz - s.vma)
        known same (inl zero) = absurd (omega (arith, vma-le-trunc s addr v inside, v.above))
        known same (inr c) =
            Covers-mono s.allocated (s.last_checked - s.vma) (s.last_checked + pages.size - s.vma)
              (addr - s.vma) (addr + sz - s.vma) (omega (arith, pages.trunc-le addr)) (omega arith)
              c

    -- On a stack at a page boundary above 0 on which the page that was checked last is allocated,
    -- every access of at least one byte at or above the start of the stack keeps it so, whatever the
    -- dataspace answers; and if it returns and ends in the page where it begins, its bytes are
    -- allocated.
    pub check_access-Covers :
        0 < sz
        → IsChecked (check_access pages allocate addr sz s).0
          × (addr + sz ≤ pages.trunc addr + pages.size
              → (check_access pages allocate addr sz s).1 ≡ returns tt
              → Covers
                  (check_access pages allocate addr sz s).0.allocated
                  (addr - s.vma)
                  (addr + sz - s.vma))
    check_access-Covers some_bytes = (check_access-IsChecked some_bytes, one_page-Covers)

  -- On a fresh stack, an access that ends behind the range which an earlier access from the same
  -- page had allocated returns, and its bytes are not allocated.
  pub second_access_not_covered :
      (vma addr sz more : ℕ) (s : StackBase)
      → s.vma ≡ vma
      → s.allocated ≡ []
      → (s.last_checked == pages.trunc addr) ≡ false
      → pages.round (addr + sz - vma) < addr + more - vma
      → let after = (check_access pages (λ _. none) addr sz s).0 in
        ((check_access pages (λ _. none) addr more after).1 ≡ returns tt)
        × ¬ Covers
            (check_access pages (λ _. none) addr more after).0.allocated
            (addr - vma)
            (addr + more - vma)
  unfolding check_access
  second_access_not_covered vma addr sz more s at_vma fresh first longer =
      (ground arith, λ c. ground arith)
