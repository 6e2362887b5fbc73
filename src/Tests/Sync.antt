-- ===== src/Tests/Sync.antt =====
-- A synchronization of one file that the destination lacks, on a link whose peer's frames are written
-- out.
use syncwire.Common.{
  ℕ, ◌≡◌, ◌<◌, ◌^◌, refl, bytes_eq, bytes_lt, Bool, true, false, List, [], ◌∷◌, none, arith, length,
  Outcome, ok, err, All,
}
use syncwire.Protocol.{Frame, type_eq, new_header, sync_manifest, sync_complete, upload_request}
use syncwire.SyncCodec.{
  FileRecord, decode_manifest, decode_records, decode_path, strictly_after, encode_sync_plan,
  encode_paths, append_path,
}
use syncwire.Plan.Differences.{holds, IsSorted}
use syncwire.Plan.{walk, build_sync_plan}
use syncwire.Wire.{get_u16, get_u32, get_u64, append_u16, append_u32}
use syncwire.Paths.{is_safe_remote_path, has_forbidden, components_loop}
use syncwire.TransferCodec.{decode_upload_metadata}
use syncwire.FrameIo.{FrameIoResult, FrameIoStatus}
use syncwire.Link.{Link}
use syncwire.PingPong.{frame_io_default}
use syncwire.DirectorySync.{
  DirectorySyncStatus, DirectoryScanError, Destination, receive_directory_sync,
}
use syncwire.DirectorySync.{receive_control_frame, check_control_frame, make_frame}
use syncwire.DirectorySync.Client.{sync_directory, find_file}
use syncwire.DirectorySync.Client.Synced.{Synced, sync_directory-Synced}
use syncwire.Protocol.{sync_plan, sync_result}
use syncwire.SyncCodec.{
  decode_sync_plan, decode_paths, encode_manifest, encode_records, decode_sync_result,
}
use syncwire.Wire.{get_u8, append_u64}
use syncwire.DirectorySync.Verified.{
  Verified, receive_directory_sync-Verified, receive_directory_sync-holds,
}

abbrev no_more : FrameIoResult
no_more = record {
  status = FrameIoStatus.peer_closed;
  transferred = 0;
  system_error = 0;
  codec_error = none;
}

-- The peer's frames to come, and whether the file has been uploaded.
abbrev Disk : Type 0
Disk = List Frame × Bool

abbrev next_of : Disk → Outcome FrameIoResult Frame × Disk
next_of ([], b) = (err no_more, ([], b))
next_of (f ∷ fs, b) = (ok f, (fs, b))

abbrev scripted : Link
scripted = record { World = Disk; send = λ f w. (frame_io_default, w); receive = next_of }

abbrev one_file : List FileRecord
one_file = record { path = 97 ∷ []; size = 5; checksum = 9 } ∷ []

abbrev files_of : Bool → List FileRecord
files_of true = one_file
files_of false = []

abbrev disk : Destination scripted
disk = record {
  Transfer = Unit {0};
  no_transfer = tt;
  transfer_ok = λ t. true;
  max_entries = 10;
  max_file_size = 100;
  create_directories = λ w. (none, w);
  scan_directory = λ w. (ok (files_of w.1), w);
  receive_file = λ f w. (tt, (w.0, true));
}

abbrev manifest_frame : Frame
manifest_frame = record {
  header = new_header sync_manifest 19 5 0;
  payload = 0 ∷ 0 ∷ 0 ∷ 1 ∷ 0 ∷ 0 ∷ 0 ∷ 0 ∷ 0 ∷ 0 ∷ 0 ∷ 5 ∷ 0 ∷ 0 ∷ 0 ∷ 9 ∷ 0 ∷ 1 ∷ 97 ∷ [];
}

abbrev upload_frame : Frame
upload_frame = record {
  header = new_header upload_request 15 6 0;
  payload = 0 ∷ 1 ∷ 0 ∷ 0 ∷ 0 ∷ 0 ∷ 0 ∷ 0 ∷ 0 ∷ 5 ∷ 0 ∷ 0 ∷ 0 ∷ 9 ∷ 97 ∷ [];
}

abbrev disk_before : Disk
disk_before =
    (upload_frame ∷ record { header = new_header sync_complete 0 5 0; payload = [] } ∷ [], false)

manifest_decodes : decode_manifest manifest_frame.payload 10 ≡ ok one_file
unfolding decode_manifest get_u16 get_u32 get_u64 decode_records decode_path is_safe_remote_path
    has_forbidden components_loop bytes_eq strictly_after
manifest_decodes = refl

sync_succeeds :
    (receive_directory_sync scripted disk manifest_frame disk_before).0.status
    ≡ DirectorySyncStatus.success
unfolding receive_directory_sync type_eq decode_manifest get_u16 get_u32 get_u64 decode_records
    decode_path is_safe_remote_path has_forbidden components_loop bytes_eq strictly_after walk
    build_sync_plan encode_sync_plan encode_paths append_path append_u16 append_u32
    decode_upload_metadata bytes_lt
sync_succeeds = refl

receive_directory_sync-Verified_example :
    Verified scripted disk 5 one_file
      (receive_directory_sync scripted disk manifest_frame disk_before).1
receive_directory_sync-Verified_example =
    receive_directory_sync-Verified scripted disk manifest_frame one_file disk_before
      manifest_decodes sync_succeeds

scans-IsSorted :
    (w : Disk) (files : List FileRecord)
    → (disk.scan_directory w).0 ≡ ok files
    → IsSorted files × (length files < 2 ^ 32)
scans-IsSorted (fs, true) files h = rw (same one_file files h) ((tt, tt), omega arith)
  where
    same :
        (xs ys : List FileRecord)
        → ◌≡◌ {A = Outcome (DirectoryScanError × ℕ) (List FileRecord)} (ok xs) (ok ys)
        → ys ≡ xs
    same xs ys e = cc e
scans-IsSorted (fs, false) files h = rw (same [] files h) (tt, omega arith)
  where
    same :
        (xs ys : List FileRecord)
        → ◌≡◌ {A = Outcome (DirectoryScanError × ℕ) (List FileRecord)} (ok xs) (ok ys)
        → ys ≡ xs
    same xs ys e = cc e

receive_directory_sync-holds_example :
    (before : Disk) × (files : List FileRecord) × ((disk.scan_directory before).0 ≡ ok files)
    × (before ≡ (receive_directory_sync scripted disk manifest_frame disk_before).1)
    × All (λ (f : FileRecord). holds f files ≡ true) one_file
receive_directory_sync-holds_example =
    receive_directory_sync-holds scripted disk manifest_frame one_file disk_before scans-IsSorted
      manifest_decodes (tt, tt) (omega arith) sync_succeeds

-- The answers to a client that has the file of the synchronization above.
abbrev client_before : Disk
client_before = (
  record {
    header = new_header sync_plan 15 5 0;
    payload = 0 ∷ 0 ∷ 0 ∷ 1 ∷ 0 ∷ 0 ∷ 0 ∷ 0 ∷ 0 ∷ 0 ∷ 0 ∷ 0 ∷ 0 ∷ 1 ∷ 97 ∷ [];
  }
      ∷ record { header = new_header sync_result 1 5 0; payload = 0 ∷ [] }
      ∷ [],
  true,
)

abbrev send_well : List ℕ → ℕ → Disk → Unit {0} × Disk
send_well path request_id w = (tt, w)

client_succeeds :
    (sync_directory scripted disk send_well 5 client_before).0.status ≡ DirectorySyncStatus.success
unfolding sync_directory type_eq decode_sync_plan decode_paths decode_path get_u8 get_u16 get_u32
    is_safe_remote_path has_forbidden components_loop bytes_eq strictly_after encode_manifest
    encode_records append_path append_u16 append_u32 append_u64 bytes_lt decode_sync_result
    find_file receive_control_frame check_control_frame make_frame
client_succeeds = refl

sync_directory-Synced_example :
    Synced scripted disk send_well 5 client_before
      (sync_directory scripted disk send_well 5 client_before).0
sync_directory-Synced_example =
    sync_directory-Synced scripted disk send_well 5 client_before (omega arith) client_succeeds
