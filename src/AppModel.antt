-- ===== src/AppModel.antt =====
-- mett-eagle/manager/src/app_model.cc and app_model.h: what a worker process needs before it runs, and
-- its region map. Page rounding is the kernel's: `Pages`.
pub mod Regions
pub mod Stack
pub mod StackAccess
use mett_eagle.Base.{
  ℕ, ◌+◌, ◌-◌, ◌≤◌, ◌<◌, ◌≡◌, Bool, true, false, List, [], ◌∷◌, Option, none, some, ◌==◌,
  if◌then◌else◌, Outcome, returns, throws, Error, enomem, chksys, chkcap, ◌>>=◌, ◌>>◌,
}
use mett_eagle.Base.Exec.{Exec}

-- `l4_trunc_page`, `l4_round_page`, and what their documentation says: the page boundary at or below,
-- and at or above, an address. Boundaries are a page apart.
pub record Pages : Type 0 where
  pub size : ℕ
  pub trunc : ℕ → ℕ
  pub round : ℕ → ℕ
  pub trunc-le : (a : ℕ) → trunc a ≤ a
  pub lt-trunc : (a : ℕ) → a < trunc a + size
  pub trunc-trunc : (a : ℕ) → trunc (trunc a) ≡ trunc a
  pub trunc-add : (p r : ℕ) → trunc p ≡ p → r < size → trunc (p + r) ≡ p
  pub trunc-sub : (a p : ℕ) → trunc p ≡ p → p ≤ a → trunc (a - p) ≡ trunc a - p
  pub le-round : (a : ℕ) → a ≤ round a
  pub trunc-round : (a : ℕ) → trunc (round a) ≡ round a
  pub apart : (p q : ℕ) → trunc p ≡ p → trunc q ≡ q → p < q → p + size ≤ q

-- `L4Re::Rm::Flags`, as far as this code sets them.
pub record Flags : Type 0 where
  pub reserved : Bool
  pub search_addr : Bool
  pub writable : Bool

-- A request to a region map. A dataspace that is not valid is `none`.
pub record Attach : Type 0 where
  pub start : ℕ
  pub size : ℕ
  pub flags : Flags
  pub ds : Option ℕ
  pub offset : ℕ

-- `prog_info ()`: what the loader and the new process read. Capabilities are numbers.
pub record ProgInfo : Type 0 where
  pub utcbs_start : ℕ
  pub utcbs_log2size : ℕ
  pub kip : ℕ
  pub rm : ℕ
  pub parent : ℕ
  pub mem_alloc : ℕ
  pub log : ℕ
  pub factory : ℕ
  pub scheduler : ℕ
  pub ldr_flags : ℕ
  pub l4re_dbg : ℕ

-- The manager's own environment, and constants of the kernel.
pub record Environment : Type 0 where
  pub utcb_area_start : ℕ
  pub page_shift : ℕ
  pub kip_addr : ℕ
  pub log : ℕ
  pub factory : ℕ

pub record AppModel : Type 0 where
  pub task : ℕ
  pub thread : ℕ
  pub region_map : ℕ
  pub prog_info : ProgInfo

-- The constructor, from the capability slots that the allocator gave.
pub new_app_model :
    Environment → ℕ → ℕ → ℕ → Option ℕ → Option ℕ → Option ℕ → Option Error → Outcome AppModel
new_app_model env parent scheduler alloc task thread rm create_rm = do
  task' ← chkcap task enomem
  thread' ← chkcap thread enomem
  rm' ← chkcap rm enomem
  chksys create_rm
  returns (record {
    task = task';
    thread = thread';
    region_map = rm';
    prog_info = record {
      utcbs_start = env.utcb_area_start;
      utcbs_log2size = env.page_shift;
      kip = env.kip_addr;
      rm = rm';
      parent = parent;
      mem_alloc = alloc;
      log = env.log;
      factory = env.factory;
      scheduler = scheduler;
      ldr_flags = 0;
      l4re_dbg = 0;
    };
  })

-- `alloc_ds`, with the slot and the answer of the memory allocator for a size.
pub alloc_ds : Option ℕ → (ℕ → Option Error) → ℕ → Outcome ℕ
alloc_ds slot alloc size = do ds ← chkcap slot enomem; chksys (alloc size); returns ds

-- `open_file`: the dataspace of a name.
pub open_file : Option ℕ → Outcome ℕ
open_file found = chkcap found enomem

-- The request of `prog_attach_ds`: without a dataspace the area is only reserved.
attach_request : ℕ → ℕ → Option ℕ → ℕ → Flags → Attach
attach_request addr size none offset flags = record {
  start = addr;
  size = size;
  flags = record flags { reserved = true };
  ds = none;
  offset = offset;
}
attach_request addr size (some d) offset flags = record {
  start = addr;
  size = size;
  flags = flags;
  ds = some d;
  offset = offset;
}

pub prog_attach_ds : (Attach → Option Error) → ℕ → ℕ → Option ℕ → ℕ → Flags → Outcome Attach
unfolding attach_request
prog_attach_ds attach addr size ds offset flags = do
  chksys (attach (attach_request addr size ds offset flags))
  returns (attach_request addr size ds offset flags)

-- `reserved_area`: no dataspace.
pub reserved_area : Option ℕ
reserved_area = none

-- `prog_reserve_area`: the start of the area afterwards, and the region map's answer, which is handed
-- on.
pub prog_reserve_area :
    (ℕ → ℕ → Flags → ℕ → ℕ × Option Error) → ℕ → ℕ → Flags → ℕ → ℕ × Option Error
prog_reserve_area reserve_area start size flags align = reserve_area start size flags align

-- `all_segs_cow`.
pub all_segs_cow : Bool
all_segs_cow = false

-- `local_kip_ds` and `local_kip_cap`, with the field `kip_ds` of the auxiliary data `l4re_aux`.
pub local_kip_ds : (ℕ → ℕ) → ℕ → Option ℕ
local_kip_ds kip_ds l4re_aux = some (kip_ds l4re_aux)

pub local_kip_cap : (ℕ → ℕ) → ℕ → Option ℕ
unfolding local_kip_ds
local_kip_cap kip_ds l4re_aux = local_kip_ds kip_ds l4re_aux

-- `copy_ds`, by the answer of `copy_in`.
pub copy_ds : (ℕ → ℕ → ℕ → ℕ → ℕ → Option Error) → ℕ → ℕ → ℕ → ℕ → ℕ → Outcome (Unit {0})
copy_ds copy_in dst dst_offs src src_offs size = chksys (copy_in dst dst_offs src src_offs size)

-- `get_task_caps`: the factory, the task and the thread.
pub get_task_caps : AppModel → ℕ × ℕ × ℕ
get_task_caps m = (m.prog_info.factory, m.task, m.thread)

-- `run_thread`: an error of `info` is handed on as the answer; otherwise the thread is started with
-- the lowest priority, on the CPUs of its own scheduler.
pub run_thread : Option Error → ℕ → ℕ → (ℕ → ℕ → Option Error) → Option Error
run_thread (some e) cpus min_prio start = some e
run_thread none cpus min_prio start = start min_prio cpus

module _ (pages : Pages) where
  open pages use {trunc, round}

  -- The window of a dataspace that `local_attach_ds` asks its own region map for.
  pub local_window : ℕ → ℕ → ℕ → Attach
  local_window ds size offset = record {
    start = 0;
    size = round (size + (offset - trunc offset));
    flags = record { reserved = false; search_addr = true; writable = false };
    ds = some ds;
    offset = trunc offset;
  }

  -- The region map answers with the address that it chose, or with an error.
  unfoldable pub local_attach_ds : (Attach → Outcome ℕ) → ℕ → ℕ → ℕ → Outcome ℕ
  unfolding local_window
  local_attach_ds attach ds size offset = do
    vaddr ← attach (local_window ds size offset)
    returns (vaddr + (offset - trunc offset))

  -- `local_detach_ds`, by the region map's answers to `detach`. The size is not used.
  pub local_detach_ds : (ℕ → Option Error) → ℕ → ℕ → Outcome (Unit {0})
  local_detach_ds detach addr size = chksys (detach (trunc addr))
