-- ===== src/FileTransfer/Receive.antt =====
-- receive_file of src/common/file_transfer.cpp, from the upload's request to its partial file.
pub mod Checks
use syncwire.Common.{
  ℕ, zero, suc, ◌+◌, ◌-◌, ◌*◌, ◌≤◌, ◌<◌, ◌≡◌, ◌≢◌, Bool, true, false, List, [], ◌∷◌, Option, none,
  some, not, ◌&&◌, ◌||◌, ltb, leb, ◌==◌, if◌then◌else◌, length, Outcome, ok, err, then_do, handle,
  attempt, map_err,
}
use syncwire.Protocol.{
  Frame, MessageType, type_eq, upload_request, transfer_ready, transfer_complete, file_chunk,
  acknowledgment,
}
use syncwire.Crc32.{initial_state, update, value}
use syncwire.TransferCodec.{
  TransferResultCode, TransferCodecError, UploadMetadata, FileChunk, TransferReady,
  decode_upload_metadata, decode_file_chunk, encode_offset, encode_transfer_ready,
}
use syncwire.FrameIo.{FrameIoStatus, FrameIoResult, frame_io_ok}
use syncwire.PingPong.{is_empty}
use syncwire.Link.{Link}
use syncwire.FileTransfer.{
  TransferLimits, FileTransferStatus, FileTransferResult, with_status, with_errno, frame_error,
  make_frame, valid_limits, result_code_for_status, send_result,
}
use syncwire.FileTransfer.Files.{FilePath, Stat, FileSystem, FileView, FileLaws}
use syncwire.FileTransfer.Writing.{write_all}
use syncwire.FileTransfer.Reading.{read_partial_prefix}
use syncwire.FileTransfer.Destination.{
  Unprepared, path_invalid, system_failed, PreparedDestination, prepare_destination,
  within_partial_budget,
}

abbrev pub enospc : ℕ
enospc = 28

abbrev pub eacces : ℕ
eacces = 13

-- The variables of the transfer: offset, the state of checksum, resumed_from and first_chunk.
pub record Progress : Type 0 where
  pub offset : ℕ
  pub checksum : ℕ
  pub resumed_from : ℕ
  pub first_chunk : Bool

-- A transfer whose partial file is open and checked.
pub record OpenTransfer (Fd : Type 0) : Type 0 where
  pub metadata : UploadMetadata
  pub prepared : PreparedDestination Fd
  pub part_file : Fd
  pub progress : Progress

-- How the loop ends: by reject_transfer, by interrupted, or at TransferComplete.
pub data Stop : Type 0 where
  rejected : FileTransferResult → Stop
  interrupted : FrameIoResult → Progress → Stop
  finished : Progress → Stop

abbrev pub file_error : FileTransferStatus → ℕ → Stop
file_error status error = rejected (with_errno status error)

-- The status for a request whose metadata does not decode.
unfoldable pub metadata_status : TransferCodecError → FileTransferStatus
metadata_status TransferCodecError.unsafe_filename = FileTransferStatus.invalid_path
metadata_status TransferCodecError.empty_filename = FileTransferStatus.invalid_path
metadata_status TransferCodecError.filename_too_long = FileTransferStatus.invalid_path
metadata_status TransferCodecError.payload_too_short = FileTransferStatus.invalid_payload
metadata_status TransferCodecError.payload_size_mismatch = FileTransferStatus.invalid_payload
metadata_status TransferCodecError.chunk_has_no_data = FileTransferStatus.invalid_payload
metadata_status TransferCodecError.unknown_result_code = FileTransferStatus.invalid_payload

-- The checks before anything is touched.
unfoldable pub check_request : TransferLimits → Frame → Outcome FileTransferResult UploadMetadata
unfolding metadata_status
check_request limits request =
    if not (type_eq request.header.message_type upload_request)
      || (not (request.header.transfer_id == 0)
          || (request.header.request_id == 0 || not (valid_limits limits)))
    then err (with_status FileTransferStatus.invalid_request)
    else elim (decode_upload_metadata request.payload) [
      | err e ↦ err (record (with_status (metadata_status e)) { codec_error = some e })
      | ok metadata ↦
          if ltb limits.max_file_size metadata.file_size
          then err (with_status FileTransferStatus.file_too_large)
          else ok metadata
    ]

unfoldable pub unprepared_result : Unprepared → FileTransferResult
unprepared_result path_invalid = with_status FileTransferStatus.invalid_path
unprepared_result (system_failed e) = with_errno FileTransferStatus.file_open_error e

-- Which frames the loop takes: a chunk, or the end.
unfoldable pub check_chunk : ℕ → Progress → Frame → Outcome Stop FileChunk
check_chunk request_id progress frame =
    if not (frame.header.request_id == request_id) || not (frame.header.transfer_id == request_id)
    then err (
        rejected (record (with_status FileTransferStatus.unexpected_frame) {
          expected_id = request_id;
          actual_id = frame.header.request_id;
        }))
    else if type_eq frame.header.message_type transfer_complete
    then if not (is_empty frame.payload)
      then err (rejected (with_status FileTransferStatus.invalid_payload))
      else err (finished progress)
    else if not (type_eq frame.header.message_type file_chunk)
    then err (rejected (with_status FileTransferStatus.unexpected_message_type))
    else elim (decode_file_chunk frame.payload) [
      | err e ↦ err (
          rejected
            (record (with_status FileTransferStatus.invalid_payload) { codec_error = some e }))
      | ok chunk ↦ ok chunk
    ]

-- The checks of a chunk's offset and size.
unfoldable pub check_range : TransferLimits → ℕ → FileChunk → Progress → Outcome Stop (Unit {0})
check_range limits file_size chunk progress =
    if not (chunk.offset == progress.offset)
    then err (
        rejected (record (with_status FileTransferStatus.unexpected_offset) {
          transferred = progress.offset;
          expected_id = progress.offset;
          actual_id = chunk.offset;
        }))
    else if ltb limits.chunk_size (length chunk.bytes)
        || (ltb file_size progress.offset || ltb (file_size - progress.offset) (length chunk.bytes))
    then err (
        rejected
          (record (with_status FileTransferStatus.size_mismatch) { transferred = progress.offset }))
    else ok tt

module _ (l : Link) {fs : FileSystem l.World} {v : FileView fs} (laws : FileLaws v)
    (limits : TransferLimits) where
  open l use {World, send, receive}

  unfoldable pub reject_before_ready : ℕ → FileTransferResult → World → FileTransferResult × World
  reject_before_ready request_id result w =
      let sent = send_result l request_id 0 (result_code_for_status result.status) w in
      if not (frame_io_ok sent.0.status) then (frame_error sent.0, sent.1) else (result, sent.1)

  -- fstat and flock, and the checks between them: the size that fstat gives.
  unfoldable pub check_part_file : fs.Fd → World → Outcome FileTransferResult ℕ × World
  check_part_file fd w = elim (fs.fstat fd w) [
    | none ↦ (err (with_errno FileTransferStatus.file_open_error eacces), w)
    | some status ↦
        let locked = fs.flock fd w in
        if not status.is_regular
          || (not (status.st_nlink == 1) || not (status.st_uid == fs.geteuid w))
        then (err (with_errno FileTransferStatus.file_open_error eacces), w)
        else if not locked.0
        then (err (with_errno FileTransferStatus.file_open_error eacces), locked.1)
        else (ok status.st_size, locked.1)
  ]

  -- A partial file that is too long starts again.
  unfoldable pub trim_part_file : fs.Fd → ℕ → ℕ → World → Outcome FileTransferResult ℕ × World
  trim_part_file fd file_size size w =
      if ltb file_size size
      then then_do
          (map_err (with_errno FileTransferStatus.file_write_error) (attempt (fs.ftruncate fd w)))
          (λ u w1. (ok 0, w1))
      else (ok size, w)

  unfoldable pub start_progress : fs.Fd → ℕ → World → Outcome FileTransferResult Progress × World
  unfolding read_partial_prefix
  start_progress fd offset w =
      then_do
        (map_err (λ u. with_status FileTransferStatus.file_read_error)
          (read_partial_prefix laws fd offset w))
        (λ checksum w1. (
          ok (record {
            offset = offset;
            checksum = checksum;
            resumed_from = offset;
            first_chunk = true;
          }),
          w1,
        ))

  unfoldable pub open_part_file :
      UploadMetadata
      → PreparedDestination fs.Fd
      → World
      → Outcome FileTransferResult (OpenTransfer fs.Fd) × World
  unfolding check_part_file trim_part_file start_progress
  open_part_file metadata prepared w =
      then_do
        (map_err (with_errno FileTransferStatus.file_open_error)
          (fs.openat prepared.directory prepared.part_name w))
        (λ fd w1. then_do (check_part_file fd w1) (λ size w2.
          then_do (trim_part_file fd metadata.file_size size w2) (λ offset w3.
            then_do (start_progress fd offset w3) (λ progress w4. (
              ok (record {
                metadata = metadata;
                prepared = prepared;
                part_file = fd;
                progress = progress;
              }),
              w4,
            )))))

  unfoldable pub check_budget :
      UploadMetadata → PreparedDestination fs.Fd → World → Outcome FileTransferResult (Unit {0})
  check_budget metadata prepared w =
      if not (within_partial_budget fs prepared metadata limits w)
      then err (with_errno FileTransferStatus.file_open_error enospc)
      else ok tt

  -- All that receive_file does before TransferReady.
  unfoldable pub open_transfer :
      FilePath → Frame → World → Outcome FileTransferResult (OpenTransfer fs.Fd) × World
  unfolding check_request unprepared_result check_budget open_part_file
  open_transfer root request w =
      then_do (check_request limits request, w)
        (λ metadata w1.
          then_do (map_err unprepared_result (prepare_destination fs root metadata w1))
            (λ prepared w2.
              then_do (check_budget metadata prepared w2, w2)
                (λ u w3. open_part_file metadata prepared w3)))
