-- ===== src/Plan.antt =====
-- build_sync_plan of src/common/sync_codec.cpp: the walk over two sorted manifests.
pub mod Differences
pub mod Correct
use syncwire.Common.{
  ℕ, suc, ◌+◌, ◌%◌, ◌^◌, Bool, true, false, ◌&&◌, List, [], ◌∷◌, ◌++◌, ◌==◌, if◌then◌else◌, length,
  bytes_lt,
}
use syncwire.SyncCodec.{FileRecord, SyncPlan}

-- The walk behind both indices. The counters are 32-bit words.
unfoldable pub walk : List FileRecord → List FileRecord → SyncPlan → SyncPlan
walk [] destination plan = record plan {
  server_only_count = (plan.server_only_count + length destination % 2 ^ 32) % 2 ^ 32;
}
walk (s ∷ source) [] plan =
    walk source [] (record plan { upload_paths = plan.upload_paths ++ (s.path ∷ []) })
walk (s ∷ source) (d ∷ destination) plan = elim (bytes_lt s.path d.path) [
  | true ↦
      walk source (d ∷ destination)
        (record plan { upload_paths = plan.upload_paths ++ (s.path ∷ []) })
  | false ↦ elim (bytes_lt d.path s.path) [
    | true ↦
        walk (s ∷ source) destination
          (record plan { server_only_count = (plan.server_only_count + 1) % 2 ^ 32 })
    | false ↦ walk source destination (
        if s.size == d.size && s.checksum == d.checksum
        then record plan { unchanged_count = (plan.unchanged_count + 1) % 2 ^ 32 }
        else record plan { upload_paths = plan.upload_paths ++ (s.path ∷ []) })
  ]
]

unfoldable pub build_sync_plan : List FileRecord → List FileRecord → SyncPlan
build_sync_plan source destination =
    walk source destination
      (record { upload_paths = []; unchanged_count = 0; server_only_count = 0 })
