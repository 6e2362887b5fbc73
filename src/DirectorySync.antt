-- ===== src/DirectorySync.antt =====
-- receive_directory_sync of src/common/directory_sync.cpp: the server's side of a synchronization.
pub mod Client
pub mod Verified
use syncwire.Common.{
  ℕ, zero, suc, ◌+◌, ◌-◌, ◌*◌, ◌%◌, ◌^◌, ◌≡◌, Bool, true, false, List, [], ◌∷◌, ◌++◌, Option, none,
  some, not, ◌&&◌, ◌||◌, ltb, ◌==◌, if◌then◌else◌, length, Outcome, ok, err, bytes_eq,
}
use syncwire.Protocol.{
  Frame, MessageType, type_eq, new_header, default_max_payload, sync_manifest, sync_plan,
  sync_complete, sync_result, upload_request, transfer_result,
}
use syncwire.TransferCodec.{
  TransferResultCode, UploadMetadata, encode_transfer_result, decode_upload_metadata,
}
use syncwire.SyncCodec.{
  FileRecord, SyncPlan, SyncCodecError, SyncResultCode, decode_manifest, encode_sync_plan,
  encode_sync_result,
}
use syncwire.Plan.{build_sync_plan}
use syncwire.FrameIo.{FrameIoResult, frame_io_ok}
use syncwire.Link.{Link}
use syncwire.PingPong.{frame_io_default, is_empty}

pub data DirectorySyncStatus : Type 0 where
  success frame_io_error scan_error codec_error file_transfer_error : DirectorySyncStatus
  invalid_request invalid_request_id mismatched_request_id unexpected_message_type :
      DirectorySyncStatus
  unexpected_transfer_id plan_mismatch verification_failed file_io_error : DirectorySyncStatus

pub data DirectoryScanError : Type 0 where
  root_not_directory scan_io_error unsafe_relative_path : DirectoryScanError
  too_many_files file_too_large manifest_too_large : DirectoryScanError

-- What the synchronization needs of the destination's files, on the link's state: the outcome of
-- create_directories (an error number or none), scan_directory (its error with the system's), and
-- receive_file with its result.
pub record Destination (l : Link) : Type 1 where
  pub Transfer : Type 0
  pub no_transfer : Transfer
  pub transfer_ok : Transfer → Bool
  pub max_entries : ℕ
  pub max_file_size : ℕ
  pub create_directories : l.World → Option ℕ × l.World
  pub scan_directory : l.World → Outcome (DirectoryScanError × ℕ) (List FileRecord) × l.World
  pub receive_file : Frame → l.World → Transfer × l.World

pub record DirectorySyncResult (T : Type 0) : Type 0 where
  pub status : DirectorySyncStatus
  pub frame_io : FrameIoResult
  pub file_transfer : T
  pub scan_error : Option DirectoryScanError
  pub codec_error : Option SyncCodecError
  pub planned_uploads : ℕ
  pub completed_uploads : ℕ
  pub unchanged_files : ℕ
  pub server_only_files : ℕ
  pub expected_id : ℕ
  pub actual_id : ℕ
  pub system_error : ℕ

unfoldable pub make_frame : MessageType → ℕ → List ℕ → Frame
make_frame type request_id payload = record {
  header = new_header type (length payload) request_id 0;
  payload = payload;
}

-- Whether a frame is the upload of the planned path.
unfoldable pub is_planned_upload : Frame → ℕ → List ℕ → Bool
is_planned_upload request expected_request_id path = elim (decode_upload_metadata request.payload) [
  | err e ↦ false
  | ok metadata ↦
      type_eq request.header.message_type upload_request
      && (request.header.request_id == expected_request_id
          && (request.header.transfer_id == 0 && bytes_eq metadata.filename path))
]

unfoldable pub any_too_large : ℕ → List FileRecord → Bool
any_too_large limit [] = false
any_too_large limit (file ∷ files) = ltb limit file.size || any_too_large limit files

abbrev pub no_paths : List (List ℕ) → Bool
no_paths [] = true
no_paths (p ∷ ps) = false

module _ (l : Link) (d : Destination l) where
  open l use {World, send, receive}

  abbrev pub Result : Type 0
  Result = DirectorySyncResult d.Transfer

  abbrev pub with_status : DirectorySyncStatus → Result
  with_status status = record {
    status = status;
    frame_io = frame_io_default;
    file_transfer = d.no_transfer;
    scan_error = none;
    codec_error = none;
    planned_uploads = 0;
    completed_uploads = 0;
    unchanged_files = 0;
    server_only_files = 0;
    expected_id = 0;
    actual_id = 0;
    system_error = 0;
  }

  unfoldable pub frame_error : FrameIoResult → Result
  frame_error error = record (with_status DirectorySyncStatus.frame_io_error) { frame_io = error }

  unfoldable pub scan_failure : DirectoryScanError × ℕ → Result
  scan_failure (error, number) = record (with_status DirectorySyncStatus.scan_error) {
    scan_error = some error;
    system_error = number;
  }

  abbrev pub codec_failure : SyncCodecError → Result
  codec_failure error = record (with_status DirectorySyncStatus.codec_error) {
    codec_error = some error;
  }

  unfoldable pub check_control_frame : MessageType → ℕ → Frame → Outcome Result Frame
  check_control_frame expected_type request_id output =
      if not (output.header.request_id == request_id)
      then err (record (with_status DirectorySyncStatus.mismatched_request_id) {
        expected_id = request_id;
        actual_id = output.header.request_id;
      })
      else if not (output.header.transfer_id == 0)
      then err (record (with_status DirectorySyncStatus.unexpected_transfer_id) {
        actual_id = output.header.transfer_id;
      })
      else if not (type_eq output.header.message_type expected_type)
      then err (with_status DirectorySyncStatus.unexpected_message_type)
      else ok output

  unfoldable pub receive_control_frame : MessageType → ℕ → World → Outcome Result Frame × World
  unfolding check_control_frame frame_error
  receive_control_frame expected_type request_id w =
      let received = receive w in
      elim received.0 [
        | err e ↦ (err (frame_error e), received.1)
        | ok output ↦ (check_control_frame expected_type request_id output, received.1)
      ]

  unfoldable pub conclude : ℕ → Result → Bool → World → Result × World
  unfolding frame_error make_frame
  conclude request_id result good w =
      let code = if good then SyncResultCode.success else SyncResultCode.destination_changed in
      let sent = send (make_frame sync_result request_id (encode_sync_result code)) w in
      if not (frame_io_ok sent.0.status)
      then (frame_error sent.0, sent.1)
      else if good
      then (result, sent.1)
      else (record result { status = DirectorySyncStatus.verification_failed }, sent.1)

  -- The second scan.
  unfoldable pub verify : ℕ → List FileRecord → Result → World → Result × World
  unfolding conclude scan_failure
  verify request_id source result w =
      let scanned = d.scan_directory w in
      elim scanned.0 [
        | err e ↦ (scan_failure e, scanned.1)
        | ok files ↦
            conclude request_id result (no_paths (build_sync_plan source files).upload_paths)
              scanned.1
      ]

  unfoldable pub await_complete : ℕ → List FileRecord → Result → World → Result × World
  unfolding verify receive_control_frame
  await_complete request_id source result w =
      let received = receive_control_frame sync_complete request_id w in
      elim received.0 [
        | err e ↦ (e, received.1)
        | ok frame ↦
            if not (is_empty frame.payload)
            then (with_status DirectorySyncStatus.invalid_request, received.1)
            else verify request_id source result received.1
      ]

  unfoldable pub reject_upload : ℕ → World → Result × World
  unfolding frame_error make_frame
  reject_upload request_id w =
      let sent =
        send
          (make_frame transfer_result request_id
            (encode_transfer_result TransferResultCode.unexpected_frame))
          w in
      if not (frame_io_ok sent.0.status)
      then (frame_error sent.0, sent.1)
      else (with_status DirectorySyncStatus.plan_mismatch, sent.1)

  -- The loop over the planned paths, from `index` on.
  unfoldable pub receive_uploads :
      ℕ → List FileRecord → Result → List (List ℕ) → ℕ → World → Result × World
  unfolding await_complete reject_upload frame_error is_planned_upload
  receive_uploads request_id source result [] index w = await_complete request_id source result w
  receive_uploads request_id source result (path ∷ paths) index w =
      let received = receive w in
      elim received.0 [
        | err e ↦ (frame_error e, received.1)
        | ok request ↦ elim (is_planned_upload request ((request_id + index + 1) % 2 ^ 64) path) [
          | false ↦ reject_upload request.header.request_id received.1
          | true ↦
              let transfer = d.receive_file request received.1 in
              elim (d.transfer_ok transfer.0) [
                | false ↦ (
                  record result {
                    status = DirectorySyncStatus.file_transfer_error;
                    file_transfer = transfer.0;
                  },
                  transfer.1,
                )
                | true ↦
                    receive_uploads request_id source
                      (record result { completed_uploads = result.completed_uploads + 1 }) paths
                      (suc index) transfer.1
              ]
        ]
      ]

  unfoldable pub send_plan : ℕ → List FileRecord → SyncPlan → World → Result × World
  unfolding receive_uploads frame_error make_frame
  send_plan request_id source plan w =
      let payload = encode_sync_plan plan in
      let sent = send (make_frame sync_plan request_id payload) w in
      if ltb (2 ^ 64 - 1 - request_id) (length plan.upload_paths)
      then (with_status DirectorySyncStatus.invalid_request_id, w)
      else if is_empty payload || ltb default_max_payload (length payload)
      then (codec_failure SyncCodecError.payload_size_mismatch, w)
      else if not (frame_io_ok sent.0.status)
      then (frame_error sent.0, sent.1)
      else receive_uploads request_id source
          (record (with_status DirectorySyncStatus.success) {
            planned_uploads = length plan.upload_paths;
            unchanged_files = plan.unchanged_count;
            server_only_files = plan.server_only_count;
          })
          plan.upload_paths 0 sent.1

  unfoldable pub plan_uploads : ℕ → List FileRecord → World → Result × World
  unfolding send_plan scan_failure
  plan_uploads request_id source w =
      let scanned = d.scan_directory w in
      elim scanned.0 [
        | err e ↦ (scan_failure e, scanned.1)
        | ok files ↦ send_plan request_id source (build_sync_plan source files) scanned.1
      ]

  unfoldable pub prepare_destination : ℕ → List FileRecord → World → Result × World
  unfolding plan_uploads any_too_large
  prepare_destination request_id source w =
      let made = d.create_directories w in
      if any_too_large d.max_file_size source
      then (with_status DirectorySyncStatus.invalid_request, w)
      else elim made.0 [
        | some e ↦
            (record (with_status DirectorySyncStatus.file_io_error) { system_error = e }, made.1)
        | none ↦ plan_uploads request_id source made.1
      ]

  unfoldable pub receive_directory_sync : Frame → World → Result × World
  unfolding prepare_destination
  receive_directory_sync frame w =
      if not (type_eq frame.header.message_type sync_manifest)
        || (frame.header.request_id == 0 || not (frame.header.transfer_id == 0))
      then (with_status DirectorySyncStatus.invalid_request, w)
      else elim (decode_manifest frame.payload d.max_entries) [
        | err e ↦ (codec_failure e, w)
        | ok source ↦ prepare_destination frame.header.request_id source w
      ]
