-- ===== src/AppModel/Stack.antt =====
-- mett-eagle/manager/src/stack.cc and stack.h, and `alloc_app_stack` of app_model.cc: the stack of a
-- worker process.
use mett_eagle.Base.{
  ℕ, ◌+◌, ◌-◌, List, [], ◌∷◌, Option, none, some, ◌==◌, if◌then◌else◌, Outcome, returns, throws,
  Error, enomem, chksys, chkcap, ◌>>=◌, ◌>>◌,
}
use mett_eagle.Base.Exec.{Exec}
use mett_eagle.AppModel.{Pages}

-- `Stack_base` and `Stack`: the manager's view of the new stack, and the ranges of its dataspace that
-- were allocated, latest first.
pub record StackBase : Type 0 where
  pub stack_ds : Option ℕ
  pub vma : ℕ
  pub local_top : ℕ
  pub last_checked : ℕ
  pub allocated : List (ℕ × ℕ)

-- The constructor.
pub new_stack : StackBase
new_stack = record { stack_ds = none; vma = 0; local_top = 0; last_checked = 0; allocated = [] }

-- `set_stack`, with the answer of the region map.
set_stack : Outcome ℕ → ℕ → ℕ → StackBase → Outcome StackBase
set_stack attached ds size s = do
  vma ← attached
  returns (record s { vma = vma; stack_ds = some ds; local_top = vma + size })

-- `alloc_app_stack`.
pub alloc_app_stack :
    Option ℕ → (ℕ → Option Error) → Outcome ℕ → ℕ → StackBase → Outcome (ℕ × StackBase)
unfolding set_stack
alloc_app_stack slot alloc attached stack_size s = do
  stack ← chkcap slot enomem
  chksys (alloc stack_size)
  s' ← set_stack attached stack stack_size s
  returns (stack, s')

module _ (pages : Pages) where
  open pages use {trunc, round}

  -- The range of the dataspace under an access.
  unfoldable pub range_of : ℕ → ℕ → ℕ → ℕ × ℕ
  range_of vma addr sz = (trunc (addr - vma), round (addr + sz - vma))

  unfoldable pub record_access : ℕ → ℕ × ℕ → Option Error → Exec StackBase (Unit {0})
  record_access page range (some e) s = (s, throws e)
  record_access page range none s =
      (record s { allocated = range ∷ s.allocated; last_checked = page }, returns tt)

  -- `check_access`: nothing is asked for if the access begins in the page that was checked last.
  unfoldable pub check_access : (ℕ × ℕ → Option Error) → ℕ → ℕ → Exec StackBase (Unit {0})
  unfolding record_access range_of
  check_access allocate addr sz s =
      if s.last_checked == trunc addr
      then (s, returns tt)
      else record_access (trunc addr) (range_of s.vma addr sz) (allocate (range_of s.vma addr sz)) s
