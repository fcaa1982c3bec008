-- ===== src/AppModel/Regions.antt =====
-- Windows of dataspaces in the manager's own region map.
use mett_eagle.Base.{
  ℕ, ◌+◌, ◌-◌, ◌≤◌, ◌≡◌, refl, Option, arith, Outcome, returns, Error, chksys, ◌>>=◌,
  >>=-eq-returns,
}
use mett_eagle.AppModel.{Pages, Attach, local_window, local_attach_ds, local_detach_ds}

module _ (pages : Pages) (attach : Attach → Outcome ℕ)
    (aligned : (w : Attach) (v : ℕ) → attach w ≡ returns v → pages.trunc v ≡ v) where
  -- Where the region map answers with page boundaries, `local_attach_ds` returns the address of the
  -- wanted offset: the window begins at a page boundary of the dataspace at or below the offset,
  -- reaches to the end of the wanted part, and the address lies as far into it as the offset.
  local_attach_ds_covers :
      (ds size offset a : ℕ)
      → local_attach_ds pages attach ds size offset ≡ returns a
      → let w = local_window pages ds size offset in
        (v : ℕ) × (attach w ≡ returns v)
        × (w.offset ≤ offset)
        × (a ≡ v + (offset - w.offset))
        × (offset + size ≤ w.offset + w.size)
  unfolding local_attach_ds local_window
  local_attach_ds_covers ds size offset a h =
      let (v, e, k) = >>=-eq-returns (attach (local_window pages ds size offset)) _ h in
      (
        v,
        e,
        pages.trunc-le offset,
        ground arith,
        omega (arith, pages.trunc-le offset, pages.le-round (size + (offset - pages.trunc offset))),
      )

  -- `local_detach_ds` of an address that `local_attach_ds` returned detaches the region that was
  -- attached for it.
  local_detach-attach :
      (ds size offset a n : ℕ) (detach : ℕ → Option Error)
      → local_attach_ds pages attach ds size offset ≡ returns a
      → local_detach_ds pages detach a n
        ≡ (attach (local_window pages ds size offset) >>= λ v. chksys (detach v))
  unfolding local_attach_ds local_detach_ds local_window
  local_detach-attach ds size offset a n detach h =
      let (v, e, k) = >>=-eq-returns (attach (local_window pages ds size offset)) _ h in
      let start : pages.trunc a ≡ v = ground (
        arith,
        pages.lt-trunc offset,
        pages.trunc-le offset,
        pages.trunc-add v (offset - pages.trunc offset) (aligned _ v e),
      ) in
      rw (e, start) refl

  -- If the region map attaches at page boundaries only, an address that `local_attach_ds` returns stands
  -- for the asked offset in the attached window: the region map attached the window, which begins at or
  -- below the offset and reaches to the end of what was asked for, the address lies as far behind the
  -- window's start as the offset does, and `local_detach_ds` of the address calls `detach` with the
  -- start of that window and reports its error, whatever `detach` answers.
  pub local_attach_ds-detach :
      (ds size offset a n : ℕ)
      → local_attach_ds pages attach ds size offset ≡ returns a
      → let w = local_window pages ds size offset in
        ((v : ℕ) × (attach w ≡ returns v)
          × (w.offset ≤ offset)
          × (a ≡ v + (offset - w.offset))
          × (offset + size ≤ w.offset + w.size))
        × ((detach : ℕ → Option Error)
            → local_detach_ds pages detach a n ≡ (attach w >>= λ v. chksys (detach v)))
  local_attach_ds-detach ds size offset a n h = (
    local_attach_ds_covers ds size offset a h,
    λ detach. local_detach-attach ds size offset a n detach h,
  )
