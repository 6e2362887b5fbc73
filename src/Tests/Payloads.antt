-- ===== src/Tests/Payloads.antt =====
-- Two manifests, their plan, and payloads of a transfer.
use syncwire.Common.{
  ◌+◌, ◌≡◌, ◌↔◌, refl, List, [], ◌∷◌, arith, length, ok, All, bytes_lt, true, bytes_eq,
}
use syncwire.Paths.{is_safe_remote_path, has_forbidden, components_loop}
use syncwire.Paths.Rules.{IsSafePath, is_safe_remote_path_iff}
use syncwire.TransferCodec.{
  UploadMetadata, TransferReady, encode_upload_metadata, decode_upload_metadata, encode_file_chunk,
  decode_file_chunk, encode_transfer_ready, decode_transfer_ready,
}
use syncwire.TransferCodec.RoundTrip.{
  decode-encode_upload_metadata, decode-encode_file_chunk, decode-encode_transfer_ready,
}
use syncwire.SyncCodec.{
  FileRecord, SyncPlan, encode_manifest, decode_manifest, encode_sync_plan, decode_sync_plan,
  strictly_after,
}
use syncwire.SyncCodec.RoundTrip.{decode-encode_manifest, IsRecord, IsOrdered}
use syncwire.SyncCodec.Plans.{decode-encode_sync_plan}
use syncwire.Plan.{build_sync_plan}
use syncwire.Plan.Differences.{holds, missing, kept, only_in, IsSorted}
use syncwire.Plan.Correct.{build_sync_plan_lem, build_sync_plan-length, build_sync_plan-nil_iff}

-- a, b/c and d.
abbrev source_files : List FileRecord
source_files =
    record { path = 97 ∷ []; size = 5; checksum = 9 }
    ∷ record { path = 98 ∷ 47 ∷ 99 ∷ []; size = 6; checksum = 10 }
    ∷ record { path = 100 ∷ []; size = 7; checksum = 11 }
    ∷ []

-- a, and another b/c.
abbrev destination_files : List FileRecord
destination_files =
    record { path = 97 ∷ []; size = 5; checksum = 9 }
    ∷ record { path = 98 ∷ 47 ∷ 99 ∷ []; size = 6; checksum = 12 }
    ∷ []

source-IsSorted : IsSorted source_files
unfolding bytes_lt
source-IsSorted = ((refl, (refl, tt)), ((refl, tt), (tt, tt)))

destination-IsSorted : IsSorted destination_files
unfolding bytes_lt
destination-IsSorted = ((refl, tt), (tt, tt))

build_sync_plan_lem_example :
    ((build_sync_plan source_files destination_files).upload_paths
      ≡ missing source_files destination_files)
    × ((build_sync_plan source_files destination_files).unchanged_count
        ≡ kept source_files destination_files)
    × ((build_sync_plan source_files destination_files).server_only_count
        ≡ only_in destination_files source_files)
build_sync_plan_lem_example =
    build_sync_plan_lem source_files destination_files source-IsSorted destination-IsSorted
      (omega arith) (omega arith)

build_sync_plan-length_example :
    length (build_sync_plan source_files destination_files).upload_paths
      + (build_sync_plan source_files destination_files).unchanged_count
    ≡ 3
build_sync_plan-length_example =
    build_sync_plan-length source_files destination_files source-IsSorted destination-IsSorted
      (omega arith) (omega arith)

build_sync_plan-nil_iff_example :
    ((build_sync_plan source_files destination_files).upload_paths ≡ [])
    ↔ All (λ (s : FileRecord). holds s destination_files ≡ true) source_files
build_sync_plan-nil_iff_example =
    build_sync_plan-nil_iff source_files destination_files source-IsSorted destination-IsSorted
      (omega arith) (omega arith)

source_records : All IsRecord source_files
unfolding is_safe_remote_path has_forbidden components_loop bytes_eq
source_records = (
  (refl, omega arith, omega arith),
  ((refl, omega arith, omega arith), ((refl, omega arith, omega arith), tt)),
)

source-IsOrdered : IsOrdered [] source_files
unfolding strictly_after bytes_lt
source-IsOrdered = (refl, (refl, (refl, tt)))

decode-encode_manifest_example : decode_manifest (encode_manifest source_files) 10 ≡ ok source_files
decode-encode_manifest_example =
    decode-encode_manifest source_files 10 (omega arith) (omega arith) source-IsOrdered
      source_records

abbrev some_plan : SyncPlan
some_plan = record {
  upload_paths = (98 ∷ 47 ∷ 99 ∷ []) ∷ (100 ∷ []) ∷ [];
  unchanged_count = 1;
  server_only_count = 0;
}

paths_rising :
    (strictly_after [] (98 ∷ 47 ∷ 99 ∷ []) ≡ true)
    × (strictly_after (98 ∷ 47 ∷ 99 ∷ []) (100 ∷ []) ≡ true)
unfolding strictly_after bytes_lt
paths_rising = (refl, refl)

paths_safe :
    (is_safe_remote_path (98 ∷ 47 ∷ 99 ∷ []) ≡ true) × (is_safe_remote_path (100 ∷ []) ≡ true)
unfolding is_safe_remote_path has_forbidden components_loop bytes_eq
paths_safe = (refl, refl)

decode-encode_sync_plan_example : decode_sync_plan (encode_sync_plan some_plan) 10 ≡ ok some_plan
decode-encode_sync_plan_example =
    decode-encode_sync_plan some_plan 10 (omega arith) (omega arith) (omega arith) (omega arith)
      (paths_rising.0, (paths_rising.1, tt)) (paths_safe.0, (paths_safe.1, tt))

is_safe_remote_path_iff_example :
    (is_safe_remote_path (46 ∷ 46 ∷ 47 ∷ 97 ∷ []) ≡ true) ↔ IsSafePath (46 ∷ 46 ∷ 47 ∷ 97 ∷ [])
is_safe_remote_path_iff_example = is_safe_remote_path_iff (46 ∷ 46 ∷ 47 ∷ 97 ∷ [])

abbrev some_upload : UploadMetadata
some_upload = record { filename = 100 ∷ []; file_size = 70000; checksum = 4000000000 }

decode-encode_upload_metadata_example :
    decode_upload_metadata (encode_upload_metadata some_upload) ≡ ok some_upload
decode-encode_upload_metadata_example =
    decode-encode_upload_metadata some_upload (paths_safe.1) (omega arith) (omega arith)

decode-encode_file_chunk_example :
    decode_file_chunk (encode_file_chunk 65536 (1 ∷ 2 ∷ []))
    ≡ ok (record { offset = 65536; bytes = 1 ∷ 2 ∷ [] })
decode-encode_file_chunk_example =
    decode-encode_file_chunk 65536 (1 ∷ 2 ∷ []) (omega arith) (omega arith)

abbrev some_ready : TransferReady
some_ready = record { offset = 65536; prefix_checksum = 77 }

decode-encode_transfer_ready_example :
    decode_transfer_ready (encode_transfer_ready some_ready) ≡ ok some_ready
decode-encode_transfer_ready_example =
    decode-encode_transfer_ready some_ready (omega arith) (omega arith)
