-- ===== src/DirectorySync/Client.antt =====
-- sync_directory of src/common/directory_sync.cpp: the client's side of a synchronization. The files
-- under the source's root are a Destination too, of which the scan is used here; `send_file` is
-- send_file with the client's socket, the source's root and the limits given.
pub mod Steps
pub mod Synced
use syncwire.Common.{
  ℕ, suc, ◌+◌, ◌-◌, ◌%◌, ◌^◌, Bool, true, false, List, [], ◌∷◌, Option, none, some, not, ◌||◌, ltb,
  ◌==◌, if◌then◌else◌, length, Outcome, ok, err, bytes_eq, bytes_lt, then_do, map_err, handle,
}
use syncwire.Protocol.{
  Frame, default_max_payload, sync_manifest, sync_plan, sync_complete, sync_result,
}
use syncwire.SyncCodec.{
  FileRecord, SyncPlan, SyncCodecError, SyncResultCode, encode_manifest, decode_sync_plan,
  decode_sync_result,
}
use syncwire.FrameIo.{frame_io_ok}
use syncwire.Link.{Link}
use syncwire.PingPong.{is_empty}
use syncwire.DirectorySync.{
  DirectorySyncStatus, Destination, Result, make_frame, with_status, frame_error, scan_failure,
  codec_failure, receive_control_frame,
}

-- The first file that std::ranges::lower_bound does not find below the path, if it is at the path.
unfoldable pub find_file : List FileRecord → List ℕ → Option FileRecord
find_file [] path = none
find_file (file ∷ files) path =
    let rest = find_file files path in
    if bytes_lt file.path path then rest else if bytes_eq file.path path then some file else none

module _ (l : Link) (d : Destination l)
    (send_file : List ℕ → ℕ → l.World → d.Transfer × l.World) where
  open l use {World, send}

  -- send_frame, with frame_error for its failure.
  unfoldable pub send_control_frame : Frame → World → Outcome (Result l d) (Unit {0}) × World
  unfolding frame_error
  send_control_frame frame w =
      let sent = send frame w in
      if not (frame_io_ok sent.0.status)
      then (err (frame_error l d sent.0), sent.1)
      else (ok tt, sent.1)

  unfoldable pub check_manifest : List ℕ → Outcome (Result l d) (Unit {0})
  check_manifest payload =
      if is_empty payload || ltb default_max_payload (length payload)
      then err (codec_failure l d SyncCodecError.payload_size_mismatch)
      else ok tt

  unfoldable pub check_plan : ℕ → List FileRecord → Frame → Outcome (Result l d) SyncPlan
  unfolding decode_sync_plan
  check_plan request_id files plan_frame =
      elim (decode_sync_plan plan_frame.payload d.max_entries) [
        | err e ↦ err (codec_failure l d e)
        | ok plan ↦
            if not (length plan.upload_paths + plan.unchanged_count == length files)
            then err (with_status l d DirectorySyncStatus.plan_mismatch)
            else if ltb (2 ^ 64 - 1 - request_id) (length plan.upload_paths)
            then err (with_status l d DirectorySyncStatus.invalid_request_id)
            else ok plan
      ]

  -- The loop over the planned paths, from `index` on.
  unfoldable pub send_planned :
      ℕ
      → List FileRecord
      → List (List ℕ)
      → ℕ
      → Result l d
      → World
      → Outcome (Result l d) (Result l d) × World
  unfolding find_file
  send_planned request_id files [] index result w = (ok result, w)
  send_planned request_id files (path ∷ paths) index result w = elim (find_file files path) [
    | none ↦ (err (with_status l d DirectorySyncStatus.plan_mismatch), w)
    | some file ↦
        let transfer = send_file path ((request_id + index + 1) % 2 ^ 64) w in
        elim (d.transfer_ok transfer.0) [
          | false ↦ (
            err (record result {
              status = DirectorySyncStatus.file_transfer_error;
              file_transfer = transfer.0;
            }),
            transfer.1,
          )
          | true ↦
              send_planned request_id files paths (suc index)
                (record result { completed_uploads = result.completed_uploads + 1 }) transfer.1
        ]
  ]

  -- What the server's SyncResult makes of the result.
  unfoldable pub check_sync_result : Result l d → Frame → Outcome (Result l d) (Result l d)
  unfolding decode_sync_result
  check_sync_result result final_frame = elim (decode_sync_result final_frame.payload) [
    | err e ↦ err (codec_failure l d e)
    | ok SyncResultCode.success ↦ ok result
    | ok SyncResultCode.destination_changed ↦
        err (record result { status = DirectorySyncStatus.verification_failed })
  ]

  -- SyncComplete, and the server's SyncResult.
  unfoldable pub conclude_sync : ℕ → Result l d → World → Outcome (Result l d) (Result l d) × World
  unfolding send_control_frame receive_control_frame check_sync_result make_frame
  conclude_sync request_id result w =
      then_do (send_control_frame (make_frame sync_complete request_id []) w) (λ u w1.
        then_do (receive_control_frame l d sync_result request_id w1)
          (λ final_frame w2. (check_sync_result result final_frame, w2)))

  abbrev pub planned_result : SyncPlan → Result l d
  planned_result plan = record (with_status l d DirectorySyncStatus.success) {
    planned_uploads = length plan.upload_paths;
    unchanged_files = plan.unchanged_count;
    server_only_files = plan.server_only_count;
  }

  -- From the plan on.
  unfoldable pub follow_plan :
      ℕ → List FileRecord → SyncPlan → World → Outcome (Result l d) (Result l d) × World
  unfolding send_planned conclude_sync
  follow_plan request_id files plan w =
      then_do (send_planned request_id files plan.upload_paths 0 (planned_result plan) w)
        (λ result w1. conclude_sync request_id result w1)

  unfoldable pub run_sync : ℕ → World → Outcome (Result l d) (Result l d) × World
  unfolding scan_failure check_manifest send_control_frame receive_control_frame check_plan
      follow_plan make_frame
  run_sync request_id w =
      if request_id == 0
      then (err (with_status l d DirectorySyncStatus.invalid_request_id), w)
      else then_do (map_err (scan_failure l d) (d.scan_directory w)) (λ files w1.
        let payload = encode_manifest files in
        then_do (check_manifest payload, w1)
          (λ u w2.
            then_do (send_control_frame (make_frame sync_manifest request_id payload) w2) (λ u' w3.
              then_do (receive_control_frame l d sync_plan request_id w3) (λ plan_frame w4.
                then_do (check_plan request_id files plan_frame, w4)
                  (λ plan w5. follow_plan request_id files plan w5)))))

  unfoldable pub sync_directory : ℕ → World → Result l d × World
  unfolding run_sync
  sync_directory request_id w =
      handle (run_sync request_id w) (λ result w1. (result, w1)) (λ result w1. (result, w1))
