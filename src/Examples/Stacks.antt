-- ===== src/Examples/Stacks.antt =====
-- Region maps and stacks: mett-eagle/manager/src/app_model.cc and stack.h, with pages of 4096 bytes.
use mett_eagle.Base.{
  ℕ, ◌+◌, ◌-◌, ◌%◌, ◌≤◌, ◌≡◌, refl, [], Option, none, some, inl, arith, Outcome, returns, Error,
  chksys, ◌>>=◌,
}
use mett_eagle.AppModel.{Pages, Attach, local_window, local_attach_ds, local_detach_ds}
use mett_eagle.AppModel.Stack.{StackBase, check_access}
use mett_eagle.AppModel.Regions.{local_attach_ds-detach}
use mett_eagle.AppModel.StackAccess.{Covers, IsChecked, check_access-Covers}

abbrev small_pages : Pages
small_pages = record {
  size = 4096;
  trunc = λ a. a - a % 4096;
  round = λ a. (a + 4095) - (a + 4095) % 4096;
  trunc-le = λ a. omega arith;
  lt-trunc = λ a. omega arith;
  trunc-trunc = λ a. omega arith;
  trunc-add = λ p r h k. omega arith;
  trunc-sub = λ a p h k. omega arith;
  le-round = λ a. omega arith;
  trunc-round = λ a. omega arith;
  apart = λ p q h k l. omega arith;
}

-- A region map that answers with the address 40960.
abbrev at_ten : Attach → Outcome ℕ
at_ten w = returns 40960

at_ten_aligned : (w : Attach) (v : ℕ) → at_ten w ≡ returns v → small_pages.trunc v ≡ v
at_ten_aligned w v h = ground arith

attached : local_attach_ds small_pages at_ten 7 100 5000 ≡ returns 41864
unfolding local_attach_ds
attached = refl

local_attach_ds-detach_example :
    let w = local_window small_pages 7 100 5000 in
    ((v : ℕ) × (at_ten w ≡ returns v)
      × (w.offset ≤ 5000)
      × (41864 ≡ v + (5000 - w.offset))
      × (5000 + 100 ≤ w.offset + w.size))
    × ((detach : ℕ → Option Error)
        → local_detach_ds small_pages detach 41864 100 ≡ (at_ten w >>= λ v. chksys (detach v)))
local_attach_ds-detach_example =
    local_attach_ds-detach small_pages at_ten at_ten_aligned 7 100 5000 41864 100 attached

-- A stack of 32768 bytes at 40960.
abbrev stack : StackBase
stack = record {
  stack_ds = some 9;
  vma = 40960;
  local_top = 73728;
  last_checked = 0;
  allocated = [];
}

abbrev agrees : ℕ × ℕ → Option Error
agrees range = none

stack-IsChecked : IsChecked small_pages stack
stack-IsChecked = record { at_page = refl; above = omega arith; page_allocated = inl refl }

check_access_returns : (check_access small_pages agrees 73700 28 stack).1 ≡ returns tt
unfolding check_access
check_access_returns = refl

check_access-Covers_example :
    IsChecked small_pages (check_access small_pages agrees 73700 28 stack).0
    × (73700 + 28 ≤ 73700 - 73700 % 4096 + 4096
        → (check_access small_pages agrees 73700 28 stack).1 ≡ returns tt
        → Covers
            (check_access small_pages agrees 73700 28 stack).0.allocated
            (73700 - 40960)
            (73700 + 28 - 40960))
check_access-Covers_example =
    check_access-Covers small_pages agrees 73700 28 stack stack-IsChecked (omega arith)
      (omega arith)
