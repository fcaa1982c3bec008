-- ===== src/Interface.antt =====
-- The records of mett-eagle/include/base, which requests and answers carry.
use mett_eagle.Base.{ℕ}

-- 0 stands for no limit. Times of the clock are in nanoseconds.
pub record Config : Type 0 where
  pub memory_limit : ℕ
  pub timeout_us : ℕ

pub record WorkerMetadata : Type 0 where
  pub start_runtime : ℕ
  pub start_function : ℕ
  pub end_function : ℕ
  pub end_runtime : ℕ

pub record Metadata : Type 0 where
  pub worker_metadata : WorkerMetadata
  pub start_worker : ℕ
  pub end_worker : ℕ

-- A default constructed time point is the epoch.
abbrev pub no_metadata : WorkerMetadata
no_metadata = record { start_runtime = 0; start_function = 0; end_function = 0; end_runtime = 0 }
